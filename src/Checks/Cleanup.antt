-- ===== src/Checks/Cleanup.antt =====
-- A sweep over one directory of a job that is gone, and a fresh one.
use dwtgbot.Base.{refl, true, none, some, [], ◌∷◌, codes}
use dwtgbot.Errors.{returned}
use dwtgbot.Checks.Data.{ports, world}
use dwtgbot.Cleanup.Sweep.{JobDir, CleanupPorts, sweep_orphan_job_dirs}
use dwtgbot.Cleanup.Swept.{SweepOutcome, sweep_orphan_job_dirs_lem}

abbrev left_behind : JobDir
left_behind = record { name = codes "77"; is_dir = true; mtime = 50 }

abbrev disk : CleanupPorts
disk = record {
  base = ports;
  is_digit = λ name. true;
  wide_digit = λ c. none;
  job_dirs = λ n. some (left_behind ∷ record { name = codes "1"; is_dir = true; mtime = 0 } ∷ []);
  remove_path = λ n name. returned tt;
}

sweep_orphan_job_dirs_lem_example :
    let (r, w') = sweep_orphan_job_dirs disk 30 world in
    SweepOutcome disk 30 (disk.job_dirs world.moment) world r w'
sweep_orphan_job_dirs_lem_example =
    sweep_orphan_job_dirs_lem disk 30 world (record { answers = λ n. refl; alone = λ n t. refl })
