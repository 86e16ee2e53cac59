-- ===== src/Process/Store.antt =====
-- The part of `ProcessDownloadUseCase` that writes the job row, the metrics and the notices.
use dwtgbot.Base.{ℕ, Bool, true, false, Option, none, some, [], ◌∷◌, Text, codes, if◌then◌else◌}
use dwtgbot.Errors.{Exc, job_concurrent_update, is_instance, Outcome, returned, raised}
use dwtgbot.Errors.Reason.{ReasonClass, ok, user_error}
use dwtgbot.Exec.{pure, raise, try_, ◌>>=◌, ◌>>◌}
use dwtgbot.Jobs.Entity.{
  JobStatus, pending, processing, done, failed, is_terminal, DownloadJob, DoneFields,
  mark_processing, mark_done, mark_failed,
}
use dwtgbot.World.Values.{
  DeliveredRecord, status_change, replay_ignored, job_duration, progress_finished, progress_failed,
  sent_text, cancel_cleared, file_size_class,
}
use dwtgbot.World.Ports.{Ports, Settings}
use dwtgbot.World.Actions.{Action, call, emit, now, db_get, db_update}

-- `job.id or 0`.
abbrev pub id_or_zero : DownloadJob → ℕ
id_or_zero job = elim (job.id) [ none ↦ 0 | some k ↦ k ]

-- `except JobConcurrentUpdateError`.
abbrev pub is_conflict : Exc → Bool
is_conflict e = is_instance e.cls (job_concurrent_update ∷ [])

-- A side effect on a job that has an id.
abbrev pub when_id : DownloadJob → (ℕ → Action (Unit {0})) → Action (Unit {0})
when_id job f = elim (job.id) [ none ↦ pure tt | some k ↦ f k ]

-- `_guard_replay`; the status is matched as in `reason_map`.
abbrev pub guarded : JobStatus → Action Bool
guarded pending = pure false
guarded s = emit (replay_ignored s) >> pure true

unfoldable pub guard_replay : DownloadJob → Action Bool
unfolding emit
guard_replay job = guarded job.status

-- `_emit_transition`.
unfoldable pub emit_transition : JobStatus → JobStatus → ReasonClass → Action (Unit {0})
unfolding emit
emit_transition previous to reason = emit (status_change previous to reason)

module _ (p : Ports) (s : Settings) where
  -- `_transition_to` after the write: a conflict with a replayed task ends the run quietly.
  unfoldable pub moved_on : Exc → Option DownloadJob → Action (Option DownloadJob)
  moved_on e none = pure none
  moved_on e (some latest) = do replay ← guard_replay latest; if replay then pure none else raise e

  unfoldable pub transition_written :
      JobStatus → DownloadJob → Outcome DownloadJob → Action (Option DownloadJob)
  unfolding moved_on
  transition_written previous job (returned saved) =
      emit_transition previous processing ok >> pure (some saved)
  transition_written previous job (raised e) =
      if is_conflict e then db_get p (id_or_zero job) >>= moved_on e else raise e

  unfoldable pub transition_to_processing : DownloadJob → Action (Option DownloadJob)
  unfolding transition_written
  transition_to_processing job = do
    at ← now p
    let job' = mark_processing at job
    r ← try_ (db_update p job')
    transition_written job.status job' r

  -- `_save_unless_terminal`: `None` when a concurrent writer already made the row terminal.
  unfoldable pub already_terminal : Exc → Option DownloadJob → Action (Option DownloadJob)
  already_terminal e none = raise e
  already_terminal e (some latest) = if is_terminal latest.status then pure none else raise e

  unfoldable pub saved_unless : DownloadJob → Outcome DownloadJob → Action (Option DownloadJob)
  unfolding already_terminal
  saved_unless job (returned saved) = pure (some saved)
  saved_unless job (raised e) =
      if is_conflict e then db_get p (id_or_zero job) >>= already_terminal e else raise e

  unfoldable pub save_unless_terminal : DownloadJob → Action (Option DownloadJob)
  unfolding saved_unless
  save_unless_terminal job = do r ← try_ (db_update p job); saved_unless job r

  -- The warning to the user; `RecipientUnavailableError` and any other failure are swallowed.
  unfoldable pub notify : ℕ → Text → Action (Unit {0})
  notify chat text = do
    r ← try_ (call (λ n. p.send_text n chat text []))
    elim r [ returned _ ↦ emit (sent_text chat text []) | raised _ ↦ pure tt ]

  -- `_fail`; the notice begins with the warning sign and a space.
  unfoldable pub after_fail :
      JobStatus → Text → ReasonClass → Option DownloadJob → Action (Unit {0})
  unfolding notify
  after_fail previous user_text reason none = pure tt
  after_fail previous user_text reason (some job) = do
    emit_transition previous failed reason
    when_id job (λ k. emit (progress_failed k user_text))
    notify job.chat_id (0x26a0 ∷ 0xfe0f ∷ 32 ∷ user_text)

  unfoldable pub fail : DownloadJob → Text → Text → ReasonClass → Action (Unit {0})
  unfolding after_fail
  fail job user_text error_repr reason = do
    at ← now p
    saved ← save_unless_terminal (mark_failed at error_repr job)
    after_fail job.status user_text reason saved

  -- `_handle_cancellation`.
  unfoldable pub after_cancel : JobStatus → Option DownloadJob → Action (Unit {0})
  after_cancel previous none = pure tt
  after_cancel previous (some job) = do
    emit_transition previous failed user_error
    if s.has_cancellation then when_id job (λ k. emit (cancel_cleared k)) else pure tt

  unfoldable pub handle_cancellation : DownloadJob → Action (Unit {0})
  unfolding after_cancel
  handle_cancellation job = do
    at ← now p
    saved ← save_unless_terminal (mark_failed at (codes "cancelled by user") job)
    after_cancel job.status saved

  -- `_persist_done`: a row that another writer failed meanwhile becomes `DONE` after all.
  abbrev pub done_fields_of : DownloadJob → DoneFields
  done_fields_of job = record {
    file_path = job.file_path;
    file_size = job.file_size;
    mime_type = job.mime_type;
    telegram_file_id = job.telegram_file_id;
    public_url = job.public_url;
  }

  abbrev pub with_names : DownloadJob → DownloadJob → DownloadJob
  with_names latest job = record latest {
    columns = record (latest.columns) {
      title = job.title;
      media_id = job.media_id;
      selected_format = job.selected_format;
    };
  }

  unfoldable pub overwrite : JobStatus → Exc → DownloadJob → DownloadJob → Action DownloadJob
  overwrite done e job latest = pure latest
  overwrite failed e job latest = do
    at ← now p
    db_update p (mark_done at (done_fields_of job) (with_names latest job))
  overwrite _ e job latest = raise e

  unfoldable pub done_conflict : Exc → DownloadJob → Option DownloadJob → Action DownloadJob
  unfolding overwrite
  done_conflict e job none = raise e
  done_conflict e job (some latest) = overwrite latest.status e job latest

  unfoldable pub done_written : DownloadJob → Outcome DownloadJob → Action DownloadJob
  unfolding done_conflict
  done_written job (returned saved) = pure saved
  done_written job (raised e) =
      if is_conflict e then db_get p (id_or_zero job) >>= done_conflict e job else raise e

  unfoldable pub persist_done : DownloadJob → Action DownloadJob
  unfolding done_written
  persist_done job = do r ← try_ (db_update p job); done_written job r

  -- `_complete`, with `_finish_progress` and `_record_done`.
  abbrev pub completed : ℕ → DeliveredRecord → DownloadJob → DownloadJob
  completed at d job =
      mark_done at
        (record {
          file_path = some d.delivered_path;
          file_size = some d.file_size;
          mime_type = d.mime_type;
          telegram_file_id = d.primary_telegram_file_id;
          public_url = d.public_url;
        })
        (record job {
          columns = record (job.columns) {
            title = some d.title;
            media_id = some d.media_id;
            selected_format = d.selected_format;
          };
        })

  unfoldable pub complete : DownloadJob → DeliveredRecord → Action (Unit {0})
  unfolding file_size_class
  complete job d = do
    at ← now p
    job' ← persist_done (completed at d job)
    when_id job' (λ k. emit (progress_finished k))
    emit (job_duration (file_size_class (some d.file_size)))
    emit_transition processing done ok
