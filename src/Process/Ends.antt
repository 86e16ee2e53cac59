-- ===== src/Process/Ends.antt =====
-- How the calls that settle a job end.
use dwtgbot.Base.{ℕ, ◌+◌, ◌≡◌, refl, ◌⊎◌, inl, inr, Option, some, Text, codes}
use dwtgbot.Errors.{exc, other, Outcome, returned, raised}
use dwtgbot.Errors.Reason.{ReasonClass, ok}
use dwtgbot.Exec.{try_, ◌>>=◌, ◌>>◌}
use dwtgbot.Exec.Laws.{bind_returned, bind_raised}
use dwtgbot.Jobs.Entity.{
  JobStatus, processing, done, failed, Columns, DownloadJob, mark_done, mark_failed,
}
use dwtgbot.Jobs.Rows.{get_row}
use dwtgbot.Jobs.Repo.{JobsTable}
use dwtgbot.World.Values.{
  DeliveredRecord, progress_finished, job_duration, status_change, file_size_class,
}
use dwtgbot.World.Ports.{Ports, Settings, World}
use dwtgbot.World.Actions.{Action, emit, now}
use dwtgbot.Process.Store.{
  done_written, when_id, emit_transition, save_unless_terminal, after_fail, fail, after_cancel,
  handle_cancellation, persist_done, complete, completed,
}
use dwtgbot.Process.Writes.{
  IsQuiet, Holds, IsFresh, Wrote, db_update-Wrote, save-Wrote, IsSilent, bind-IsSilent,
  emit-IsSilent, when_id-IsSilent, after_fail-IsSilent, after_cancel-IsSilent,
}

-- A call that began on the table `t` has stored `status` and returned, or the driver failed and
-- the table is `t`.
abbrev pub Ended : Ports → ℕ → JobStatus → JobsTable → Outcome (Unit {0}) → JobsTable → Type 0
Ended p k status t r t' =
    ((m : Text) × (n : ℕ) × (p.db_failure n ≡ some m) × (r ≡ raised (exc other m)) × (t' ≡ t))
    ⊎ ((r ≡ returned tt) × ((c : Columns) × (get_row k t'.rows ≡ some c) × (c.status ≡ status)))

module _ (p : Ports) (s : Settings) (quiet : IsQuiet p) (k : ℕ) where
  -- A write followed by a silent call.
  saved-Ended :
      (job : DownloadJob) (after : Option DownloadJob → Action (Unit {0}))
      → ((saved : DownloadJob) → IsSilent (after (some saved)))
      → (w : World) → IsFresh k job w.jobs
      → Ended p k job.status w.jobs
          ((save_unless_terminal p s job >>= after) w).0
          ((save_unless_terminal p s job >>= after) w).1.jobs
  saved-Ended job after silent w fresh = elim (save-Wrote p quiet k s job w fresh) [
    | inl (m, n, f', e, same) ↦
        rw (bind_raised (save_unless_terminal p s job) after w e) (inl (m, n, f', refl, same))
    | inr (saved, e, st, holds) ↦
        let w' = (save_unless_terminal p s job w).1 in
        rw (bind_returned (save_unless_terminal p s job) after w e)
          (inr ((silent saved w').0, (saved.columns, rw (silent saved w').1 holds.1, st)))
  ]

  pub fail-Ended :
      (job : DownloadJob) (text message : Text) (reason : ReasonClass) (w : World)
      → Holds k job w.jobs
      → Ended p k failed w.jobs
          (fail p s job text message reason w).0
          (fail p s job text message reason w).1.jobs
  unfolding fail now ◌>>=◌ mark_failed
  fail-Ended job text message reason w (keyed, found) =
      saved-Ended (mark_failed (p.clock w.moment) message job)
        (after_fail p s job.status text reason)
        (λ saved. after_fail-IsSilent p s job.status text reason saved)
        (record w { moment = w.moment + 1 }) (job.columns, keyed, found, refl)

  pub handle_cancellation-Ended :
      (job : DownloadJob) (w : World)
      → Holds k job w.jobs
      → Ended p k failed w.jobs
          (handle_cancellation p s job w).0
          (handle_cancellation p s job w).1.jobs
  unfolding handle_cancellation now ◌>>=◌ mark_failed
  handle_cancellation-Ended job w (keyed, found) =
      saved-Ended (mark_failed (p.clock w.moment) (codes "cancelled by user") job)
        (after_cancel p s job.status) (λ saved. after_cancel-IsSilent p s job.status saved)
        (record w { moment = w.moment + 1 }) (job.columns, keyed, found, refl)

  persist-Wrote :
      (job : DownloadJob) (w : World)
      → IsFresh k job w.jobs
      → Wrote p k job.status w.jobs (persist_done p s job w).0 (persist_done p s job w).1.jobs
  unfolding persist_done ◌>>=◌ try_
  persist-Wrote job w fresh = elim (db_update-Wrote p quiet k job w fresh) [
    | inl (m, n, f', e, same) ↦ inl (m, n, f', rw (e, done_written) refl, rw (e, done_written) same)
    | inr (saved, e, st, holds) ↦
        inr (saved, rw (e, done_written) refl, st, rw (e, done_written) holds)
  ]

  -- What follows the write in `_complete`.
  abbrev recorded : DeliveredRecord → DownloadJob → Action (Unit {0})
  recorded d job = do
    when_id job (λ k. emit (progress_finished k))
    emit (job_duration (file_size_class (some d.file_size)))
    emit_transition processing done ok

  recorded-IsSilent : (d : DeliveredRecord) (job : DownloadJob) → IsSilent (recorded d job)
  unfolding emit_transition
  recorded-IsSilent d job = bind-IsSilent _ _ (when_id-IsSilent job progress_finished) (
      bind-IsSilent _ _ (emit-IsSilent (job_duration (file_size_class (some d.file_size))))
        (emit-IsSilent (status_change processing done ok)))

  pub complete-Ended :
      (job : DownloadJob) (d : DeliveredRecord) (w : World)
      → Holds k job w.jobs
      → Ended p k done w.jobs (complete p s job d w).0 (complete p s job d w).1.jobs
  unfolding complete now mark_done
  complete-Ended job d w (keyed, found) =
      let w' = record w { moment = w.moment + 1 } in
      let job' = completed p s (p.clock w.moment) d job in
      let m = persist_done p s job' in
      rw
        (bind_returned (now p) (λ at. persist_done p s (completed p s at d job) >>= recorded d) w
          refl)
        (elim (persist-Wrote job' w' (job.columns, keyed, found, refl)) [
          | inl (text, n, f', e, same) ↦
              rw (bind_raised m (recorded d) w' e) (inl (text, n, f', refl, same))
          | inr (saved, e, st, holds) ↦ rw (bind_returned m (recorded d) w' e) (
              inr (
                (recorded-IsSilent d saved (m w').1).0,
                (saved.columns, rw (recorded-IsSilent d saved (m w').1).1 holds.1, st),
              ))
        ])
