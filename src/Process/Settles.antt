-- ===== src/Process/Settles.antt =====
-- A run of `execute` settles the job or leaves it to the next try.
use dwtgbot.Base.{
  ℕ, ◌+◌, ◌<◌, ◌≡◌, refl, ◌⊎◌, inl, inr, true, false, ◌&&◌, some, Text, arith, ltb, if◌then◌else◌,
  ap,
}
use dwtgbot.Errors.{Exc, exc, other, Outcome, returned, raised, user_message}
use dwtgbot.Errors.Reason.{classify_exception}
use dwtgbot.Exec.{pure, try_, catch, ◌>>=◌}
use dwtgbot.Exec.Laws.{bind_returned, bind_raised}
use dwtgbot.Jobs.Entity.{pending, processing, status_eq, Columns, DownloadJob, mark_processing}
use dwtgbot.Jobs.Rows.{get_row}
use dwtgbot.Jobs.Repo.{JobsTable, to_entity}
use dwtgbot.World.Ports.{Ports, Settings, World}
use dwtgbot.World.Actions.{now, db_get}
use dwtgbot.Process.Store.{
  guard_replay, transition_to_processing, transition_written, emit_transition,
}
use dwtgbot.Process.Writes.{IsQuiet, Holds, db_update-Wrote, db_get_end}
use dwtgbot.Process.Ends.{fail-Ended, handle_cancellation-Ended}
use dwtgbot.Process.UseCase.{
  Verdict, cancel, permanent, propagate, verdict, attempt_body, handle, guarded_body,
  after_transition, start, run, run_found, execute,
}
use dwtgbot.Process.Bodies.{
  HasStatus, Settled, BodyEnd, driver_failure-IsRetried, propagate-IsRetried, Ended-Settled,
  attempt_body-BodyEnd,
}

module _ (p : Ports) (s : Settings) (quiet : IsQuiet p) (k : ℕ) (job : DownloadJob) where
  handle-Settled :
      (e : Exc) (w : World)
      → Holds k job w.jobs
      → job.status ≡ processing
      → Settled k (handle p s job e w).0 (handle p s job e w).1.jobs
  unfolding handle
  handle-Settled e w h st = judged (verdict e) refl
    where
      judged :
          (v : Verdict)
          → verdict e ≡ v
          → Settled k (handle p s job e w).0 (handle p s job e w).1.jobs
      judged cancel q =
          rw (q, handle)
            (Ended-Settled p k job _ _ _ h st (handle_cancellation-Ended p s quiet k job w h))
      judged permanent q =
          rw (q, handle)
            (Ended-Settled p k job _ _ _ h st (
              fail-Ended p s quiet k job (user_message e) e.message (classify_exception e.cls) w h))
      judged propagate q = rw (q, handle) (inr (job.columns, h.1, st), propagate-IsRetried e q)

  guarded_body-Settled :
      (attempt : ℕ) (w : World)
      → Holds k job w.jobs
      → job.status ≡ processing
      → Settled k (guarded_body p s attempt job w).0 (guarded_body p s attempt job w).1.jobs
  unfolding guarded_body catch
  guarded_body-Settled attempt w h st =
      ended (attempt_body p s attempt job w).0 refl
        (attempt_body-BodyEnd p s quiet k job attempt w h)
    where
      ended :
          (r : Outcome (Unit {0}))
          → (attempt_body p s attempt job w).0 ≡ r
          → BodyEnd k job (attempt_body p s attempt job w).0 (attempt_body p s attempt job w).1.jobs
          → Settled k (guarded_body p s attempt job w).0 (guarded_body p s attempt job w).1.jobs
      ended (returned a) e b = rw e (inl (rw e at b))
      ended (raised x) e b =
          rw e (handle-Settled x (attempt_body p s attempt job w).1 (rw e at b) st)

  transition_end :
      (w : World)
      → Holds k job w.jobs
      → ((m : Text) × (n : ℕ) × (p.db_failure n ≡ some m)
          × ((transition_to_processing p s job w).0 ≡ raised (exc other m))
          × ((transition_to_processing p s job w).1.jobs ≡ w.jobs))
        ⊎ ((saved : DownloadJob) × ((transition_to_processing p s job w).0 ≡ returned (some saved))
            × (saved.status ≡ processing)
            × Holds k saved (transition_to_processing p s job w).1.jobs)
  unfolding transition_to_processing now ◌>>=◌ try_ mark_processing emit_transition
  transition_end w h =
      let job' = mark_processing (p.clock w.moment) job in
      let w' = record w { moment = w.moment + 1 } in
      elim (db_update-Wrote p quiet k job' w' (job.columns, h.0, h.1, refl)) [
        | inl (m, n, f', e, same) ↦
            inl (m, n, f', rw (e, transition_written) refl, rw (e, transition_written) same)
        | inr (saved, e, st, holds) ↦
            inr (saved, rw (e, transition_written) refl, st, rw (e, transition_written) holds)
      ]

module _ (p : Ports) (s : Settings) (quiet : IsQuiet p) (k : ℕ) (job : DownloadJob) where
  start-Settled :
      (attempt : ℕ) (w : World)
      → Holds k job w.jobs
      → job.status ≡ pending
      → Settled k (start p s attempt job w).0 (start p s attempt job w).1.jobs
  unfolding start guard_replay
  start-Settled attempt w h st =
      let m = transition_to_processing p s job in
      let f = after_transition p s attempt in
      let replay : (guard_replay job w) ≡ (returned false, w) = rw (st, guard_replay) in
      rw
        (bind_returned (guard_replay job) (λ r. if r then pure tt else (m >>= f)) w {a = false}
          (ap (λ x. x.0) replay))
        (rw replay (elim (transition_end p s quiet k job w h) [
          | inl (text, n, f', e, same) ↦
              rw (bind_raised m f w e)
                (inl (job.columns, rw same h.1, st), driver_failure-IsRetried text)
          | inr (saved, e, st', holds) ↦
              rw (bind_returned m f w e)
                (guarded_body-Settled p s quiet k saved attempt (m w).1 holds st')
        ]))

  run-Settled :
      (attempt : ℕ) (w : World)
      → Holds k job w.jobs
      → (job.status ≡ pending) ⊎ ((job.status ≡ processing) × (1 < attempt))
      → Settled k (run p s attempt job w).0 (run p s attempt job w).1.jobs
  unfolding run
  run-Settled attempt w h (inl st) =
      let no_retry : (ltb 1 attempt && status_eq job.status processing) ≡ false = ground arith in
      rw (no_retry, run) (start-Settled attempt w h st)
  run-Settled attempt w h (inr (st, later)) =
      let again : (ltb 1 attempt && status_eq job.status processing) ≡ true = ground arith in
      rw (again, run) (guarded_body-Settled p s quiet k job attempt w h st)

active_row :
    (k : ℕ) (c : Columns) (t : JobsTable)
    → get_row k t.rows ≡ some c
    → {Q : Type 0} → (c.status ≡ pending) ⊎ ((c.status ≡ processing) × Q)
    → HasStatus k pending t ⊎ HasStatus k processing t
active_row k c t found (inl st) = inl (c, found, st)
active_row k c t found (inr (st, _)) = inr (c, found, st)

-- While no other process writes, a run of `execute` on a job that is `PENDING`, or that is
-- `PROCESSING` on a later attempt, either returns with the row `DONE` or `FAILED`, or raises with
-- the row `PENDING` or `PROCESSING` and with an exception that is neither a cancellation nor a
-- permanent `AppError`. This holds whatever the providers, the storage, Telegram, Redis and the
-- database driver answer.
pub execute_settles :
    (p : Ports) (s : Settings)
    → IsQuiet p
    → (k attempt : ℕ) (c : Columns) (w : World) → get_row k w.jobs.rows ≡ some c
    → (c.status ≡ pending) ⊎ ((c.status ≡ processing) × (1 < attempt))
    → Settled k (execute p s k attempt w).0 (execute p s k attempt w).1.jobs
unfolding execute
execute_settles p s quiet k attempt c w found st =
    let (read, same) = db_get_end p quiet k c w found in
    let f = run_found p s attempt in
    let unchanged = active_row k c (db_get p k w).1.jobs (rw same found) st in
    elim read [
      | inl (m, n, f', e) ↦
          rw (bind_raised (db_get p k) f w e) (unchanged, driver_failure-IsRetried m)
      | inr e ↦ rw (bind_returned (db_get p k) f w e) (
          run-Settled p s quiet k (to_entity k c) attempt (db_get p k w).1 (refl, rw same found) st)
    ]
