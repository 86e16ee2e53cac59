-- ===== src/Cleanup/Sweep.antt =====
-- `_sweep_orphan_job_dirs` of app/workers/cleanup_worker.py. Times are in seconds.
use dwtgbot.Base.{
  ℕ, ◌+◌, Bool, true, false, not, ◌&&◌, Option, none, some, List, [], ◌∷◌, Text, codes, leb, max,
  if◌then◌else◌,
}
use dwtgbot.Strings.Digits.{Number, parse_int}
use dwtgbot.Errors.{exc, value, Outcome, returned, raised}
use dwtgbot.Exec.{pure, raise, try_, ◌>>=◌, ◌>>◌}
use dwtgbot.Jobs.Entity.{is_terminal, DownloadJob}
use dwtgbot.World.Values.{dir_removed}
use dwtgbot.World.Ports.{Ports}
use dwtgbot.World.Actions.{Action, call, emit, now, db_get}

-- An entry of the `jobs` directory.
pub record JobDir : Type 0 where
  pub name : Text
  pub is_dir : Bool
  pub mtime : ℕ

-- The collaborators: `str.isdigit`, the digits beyond ASCII that `int` reads, the directory as it
-- is listed at a moment (`none` where it does not exist), and `LocalStorage.remove_path` of the
-- directory with this name or the file at this path.
pub record CleanupPorts : Type 0 where
  pub base : Ports
  pub is_digit : Text → Bool
  pub wide_digit : ℕ → Option ℕ
  pub job_dirs : ℕ → Option (List JobDir)
  pub remove_path : ℕ → Text → Outcome (Unit {0})

-- `job_dir_sweep_age`.
unfoldable pub job_dir_sweep_age : ℕ → ℕ
job_dir_sweep_age temp_link_ttl_seconds = max 86400 (temp_link_ttl_seconds + 3600)

-- A job that may still write into its directory.
abbrev pub is_live_job : Option DownloadJob → Bool
is_live_job none = false
is_live_job (some job) = not (is_terminal job.status)

module _ (p : CleanupPorts) where
  unfoldable pub remove_dir : JobDir → Action Bool
  unfolding call emit
  remove_dir entry = do
    r ← try_ (call (λ n. p.remove_path n entry.name))
    elim r [ returned _ ↦ emit (dir_removed entry.name) >> pure true | raised _ ↦ pure false ]

  unfoldable pub remove_unless_live : JobDir → Option DownloadJob → Action Bool
  unfolding remove_dir
  remove_unless_live entry job = if is_live_job job then pure false else remove_dir entry

  unfoldable pub with_job_id : JobDir → Option Number → Action Bool
  unfolding remove_unless_live db_get
  with_job_id entry none = raise (exc value (codes "invalid literal for int()"))
  with_job_id entry (some n) = db_get p.base n.magnitude >>= remove_unless_live entry

  -- One turn of the loop: `mtime >= now - age` is tested without the subtraction.
  unfoldable pub sweep_entry : ℕ → ℕ → JobDir → Action Bool
  unfolding with_job_id
  sweep_entry at age entry =
      if not (entry.is_dir && p.is_digit entry.name)
      then pure false
      else if leb at (entry.mtime + age)
      then pure false
      else with_job_id entry (parse_int p.wide_digit entry.name)

  unfoldable pub sweep_entries : ℕ → ℕ → List JobDir → Action ℕ
  unfolding sweep_entry
  sweep_entries at age [] = pure 0
  sweep_entries at age (entry ∷ entries) = do
    removed ← sweep_entry at age entry
    n ← sweep_entries at age entries
    pure (if removed then n + 1 else n)

  unfoldable pub sweep_found : ℕ → Option (List JobDir) → Action ℕ
  unfolding sweep_entries
  sweep_found age none = pure 0
  sweep_found age (some entries) = do at ← now p.base; sweep_entries at age entries

  unfoldable pub sweep_orphan_job_dirs : ℕ → Action ℕ
  unfolding sweep_found
  sweep_orphan_job_dirs age = do
    listed ← call (λ n. returned (p.job_dirs n))
    sweep_found age listed
