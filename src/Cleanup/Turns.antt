-- ===== src/Cleanup/Turns.antt =====
-- One turn of the sweep.
use dwtgbot.Base.{
  ℕ, ◌+◌, ◌≡◌, refl, ap, ◌⊎◌, inl, inr, Bool, true, false, not, ◌&&◌, Option, none, some, List, [],
  ◌∷◌, leb, arith, if◌then◌else◌,
}
use dwtgbot.Strings.Digits.{Number, parse_int}
use dwtgbot.Errors.{Exc, Outcome, returned, raised}
use dwtgbot.Exec.{pure, try_, ◌>>=◌}
use dwtgbot.Jobs.Entity.{DownloadJob}
use dwtgbot.Jobs.Repo.{JobsTable}
use dwtgbot.Jobs
use dwtgbot.World.Values.{Event, dir_removed}
use dwtgbot.World.Ports.{World}
use dwtgbot.World.Calm.{IsCalm, db_get-calm}
use dwtgbot.World.Actions.{call, emit}
use dwtgbot.Cleanup.Sweep.{
  JobDir, CleanupPorts, is_live_job, remove_dir, remove_unless_live, with_job_id, sweep_entry,
}

-- A job's directory that may go: older than `age`, and of a job that is gone or at its end.
abbrev pub may_go : CleanupPorts → ℕ → ℕ → JobsTable → JobDir → Bool
may_go p at age t entry =
    entry.is_dir
    && (p.is_digit entry.name
        && (not (leb at (entry.mtime + age)) && elim (parse_int p.wide_digit entry.name) [
          | none ↦ false
          | some n ↦ not (is_live_job (Jobs.Repo.get n.magnitude t))
        ]))

abbrev pub removals : List JobDir → List Event
removals [] = []
removals (e ∷ es) = dir_removed e.name ∷ removals es

-- What one turn has done.
abbrev pub EntryOutcome : CleanupPorts → ℕ → ℕ → World → JobDir → Outcome Bool × World → Type 0
EntryOutcome p at age w entry (r, w') =
    (w'.jobs ≡ w.jobs)
    × (((r ≡ returned true)
          × (w'.log ≡ dir_removed entry.name ∷ w.log)
          × (may_go p at age w.jobs entry ≡ true))
        ⊎ ((w'.log ≡ w.log) × ((r ≡ returned false) ⊎ ((e : Exc) × (r ≡ raised e)))))

module _ (p : CleanupPorts) (at age : ℕ) (calm : IsCalm p.base) where
  dir_turn :
      (w v : World) (entry : JobDir) (r : Outcome (Unit {0}))
      → v.jobs ≡ w.jobs
      → v.log ≡ w.log
      → may_go p at age w.jobs entry ≡ true
      → p.remove_path v.moment entry.name ≡ r
      → EntryOutcome p at age w entry (remove_dir p entry v)
  unfolding remove_dir ◌>>=◌ try_ call emit
  dir_turn w v entry (returned u) jobs log ok e =
      rw e (jobs, inl (refl, ap (λ l. dir_removed entry.name ∷ l) log, ok))
  dir_turn w v entry (raised x) jobs log ok e = rw e (jobs, inr (log, inl refl))

  live_turn :
      (w v : World) (entry : JobDir) (b : Bool) (job : Option DownloadJob)
      → v.jobs ≡ w.jobs
      → v.log ≡ w.log
      → is_live_job job ≡ b
      → (b ≡ false → may_go p at age w.jobs entry ≡ true)
      → EntryOutcome p at age w entry (remove_unless_live p entry job v)
  unfolding remove_unless_live
  live_turn w v entry true job jobs log e ok = rw e (jobs, inr (log, inl refl))
  live_turn w v entry false job jobs log e ok = rw e (dir_turn w v entry _ jobs log (ok refl) refl)

  id_turn :
      (w : World) (entry : JobDir) (o : Option Number)
      → parse_int p.wide_digit entry.name ≡ o
      → entry.is_dir && p.is_digit entry.name ≡ true
      → leb at (entry.mtime + age) ≡ false
      → EntryOutcome p at age w entry (with_job_id p entry o w)
  unfolding with_job_id ◌>>=◌
  id_turn w entry none read digits old = (refl, inr (refl, inr (_, refl)))
  id_turn w entry (some n) read digits old = rw (db_get-calm p.base n.magnitude w calm) (
      live_turn w (record w { moment = w.moment + 1 }) entry _ (Jobs.Repo.get n.magnitude w.jobs)
        refl refl refl (λ dead. rw (read, old) (ground (arith, digits, dead))))

  turn_by :
      (w : World) (entry : JobDir) (b c : Bool)
      → entry.is_dir && p.is_digit entry.name ≡ b
      → leb at (entry.mtime + age) ≡ c
      → EntryOutcome p at age w entry (
          (if not b
              then pure false
              else if c
              then pure false
              else with_job_id p entry (parse_int p.wide_digit entry.name))
            w)
  turn_by w entry false c e f = (refl, inr (refl, inl refl))
  turn_by w entry true true e f = (refl, inr (refl, inl refl))
  turn_by w entry true false e f = id_turn w entry _ refl e f

  pub turn :
      (w : World) (entry : JobDir) → EntryOutcome p at age w entry (sweep_entry p at age entry w)
  unfolding sweep_entry
  turn w entry = turn_by w entry _ _ refl refl
