-- ===== src/Process/Silent.antt =====
-- What the worker does around a job's end sends no media.
use dwtgbot.Base.{
  ℕ, ◌≡◌, refl, Bool, true, false, Option, none, some, Text, arith, count, Option-cases, inl, inr,
}
use dwtgbot.Errors.{Exc, Outcome, returned, raised, user_message}
use dwtgbot.Errors.Reason.{ReasonClass, classify_exception}
use dwtgbot.Exec.{pure, raise, handled}
use dwtgbot.Exec.Keeps.{
  Keeps, keeps_rules, Keeps-pure, Keeps-raise, Keeps-option, Keeps-result, Keeps-bind, Keeps-try_,
}
use dwtgbot.Jobs.Entity.{JobStatus, pending, processing, done, failed, DownloadJob}
use dwtgbot.Jobs.Repo.{JobsTable}
use dwtgbot.World.Values.{Event, upload_tried, sent_media, DeliveredRecord}
use dwtgbot.World.Ports.{Ports, Settings, World}
use dwtgbot.World.Actions.{Action, emit, call, now, reached, on_jobs, db_get, db_update}
use dwtgbot.Process.Store.{
  when_id, emit_transition, already_terminal, saved_unless, save_unless_terminal, notify,
  after_fail, fail, after_cancel, handle_cancellation, overwrite, done_conflict, done_written,
  persist_done, complete,
}
use dwtgbot.Process.UseCase.{cancel, permanent, propagate, verdict, handle}

-- An upload of media, tried or confirmed.
abbrev pub is_upload : Event → Bool
is_upload (upload_tried _ _ _) = true
is_upload (sent_media _ _ _) = true
is_upload _ = false

-- So many uploads have been tried or confirmed.
abbrev pub SentIs : ℕ → World → Type 0
SentIs n w = count is_upload w.log ≡ n

module _ (n : ℕ) where
  emit-silent : (e : Event) → is_upload e ≡ false → Keeps (SentIs n) (emit e)
  unfolding emit
  emit-silent e quiet = record { at = λ w h. ground (arith, h, quiet) }

  call-silent : {A : Type 0} (f : ℕ → Outcome A) → Keeps (SentIs n) (call f)
  unfolding call
  call-silent f = record { at = λ w h. h }

  now-silent : (p : Ports) → Keeps (SentIs n) (now p)
  unfolding now
  now-silent p = record { at = λ w h. h }

  on_jobs-silent :
      {A : Type 0} (p : Ports) (op : ℕ → JobsTable → Outcome A × JobsTable)
      → Keeps (SentIs n) (on_jobs p op)
  unfolding on_jobs reached
  on_jobs-silent p op = record {
    at = λ w h. elim (Option-cases (p.db_failure w.moment)) [
      | inl up ↦ rw up h
      | inr (m, down) ↦ rw down h
    ];
  }

  pub db_get-silent : (p : Ports) (k : ℕ) → Keeps (SentIs n) (db_get p k)
  unfolding db_get
  db_get-silent p k = on_jobs-silent p _

  db_update-silent : (p : Ports) (job : DownloadJob) → Keeps (SentIs n) (db_update p job)
  unfolding db_update
  db_update-silent p job = on_jobs-silent p _

  ruleset silent_rules =
      (keeps_rules, emit-silent, call-silent, now-silent, db_get-silent, db_update-silent)

  transition-silent : (a b : JobStatus) (r : ReasonClass) → Keeps (SentIs n) (emit_transition a b r)
  unfolding emit_transition
  transition-silent a b r = emit-silent _ refl

  when_id-silent :
      (job : DownloadJob) (f : ℕ → Action (Unit {0}))
      → ((k : ℕ) → Keeps (SentIs n) (f k))
      → Keeps (SentIs n) (when_id job f)
  when_id-silent job f h = Keeps-option job.id (pure tt) f (Keeps-pure tt) h

  module _ (p : Ports) (s : Settings) where
    overwrite-silent :
        (status : JobStatus) (e : Exc) (job latest : DownloadJob)
        → Keeps (SentIs n) (overwrite p s status e job latest)
    unfolding overwrite
    overwrite-silent done e job latest = Keeps-pure latest
    overwrite-silent failed e job latest = search silent_rules
    overwrite-silent pending e job latest = Keeps-raise e
    overwrite-silent processing e job latest = Keeps-raise e

    done_conflict-silent :
        (e : Exc) (job : DownloadJob) (latest : Option DownloadJob)
        → Keeps (SentIs n) (done_conflict p s e job latest)
    unfolding done_conflict
    done_conflict-silent e job none = Keeps-raise e
    done_conflict-silent e job (some latest) = overwrite-silent latest.status e job latest

    done_written-silent :
        (job : DownloadJob) (r : Outcome DownloadJob) → Keeps (SentIs n) (done_written p s job r)
    unfolding done_written
    done_written-silent job (returned saved) = Keeps-pure saved
    done_written-silent job (raised e) = search (silent_rules, done_conflict-silent)

    persist_done-silent : (job : DownloadJob) → Keeps (SentIs n) (persist_done p s job)
    unfolding persist_done
    persist_done-silent job = search (silent_rules, done_written-silent)

    pub complete-silent :
        (job : DownloadJob) (d : DeliveredRecord) → Keeps (SentIs n) (complete p s job d)
    unfolding complete
    complete-silent job d =
        search (silent_rules, persist_done-silent, when_id-silent, transition-silent) depth 9

    already_terminal-silent :
        (e : Exc) (latest : Option DownloadJob) → Keeps (SentIs n) (already_terminal p s e latest)
    unfolding already_terminal
    already_terminal-silent e none = search silent_rules
    already_terminal-silent e (some latest) = search silent_rules

    saved_unless-silent :
        (job : DownloadJob) (r : Outcome DownloadJob) → Keeps (SentIs n) (saved_unless p s job r)
    unfolding saved_unless
    saved_unless-silent job (returned saved) = search silent_rules
    saved_unless-silent job (raised e) = search (silent_rules, already_terminal-silent)

    save_unless_terminal-silent :
        (job : DownloadJob) → Keeps (SentIs n) (save_unless_terminal p s job)
    unfolding save_unless_terminal
    save_unless_terminal-silent job = search (silent_rules, saved_unless-silent)

    notify-silent : (chat : ℕ) (text : Text) → Keeps (SentIs n) (notify p s chat text)
    unfolding notify
    notify-silent chat text =
        Keeps-bind _ _ (Keeps-try_ _ (call-silent _))
          λ r. Keeps-result r _ _ (λ _. emit-silent _ refl) (λ e. Keeps-pure tt)

    after_fail-silent :
        (previous : JobStatus) (text : Text) (r : ReasonClass) (saved : Option DownloadJob)
        → Keeps (SentIs n) (after_fail p s previous text r saved)
    unfolding after_fail
    after_fail-silent previous text r none = Keeps-pure tt
    after_fail-silent previous text r (some job) =
        search (silent_rules, notify-silent, when_id-silent, transition-silent)

    fail-silent :
        (job : DownloadJob) (text error : Text) (r : ReasonClass)
        → Keeps (SentIs n) (fail p s job text error r)
    unfolding fail
    fail-silent job text error r =
        search (silent_rules, save_unless_terminal-silent, after_fail-silent)

    after_cancel-silent :
        (previous : JobStatus) (saved : Option DownloadJob)
        → Keeps (SentIs n) (after_cancel p s previous saved)
    unfolding after_cancel
    after_cancel-silent previous none = Keeps-pure tt
    after_cancel-silent previous (some job) =
        search (silent_rules, when_id-silent, transition-silent)

    handle_cancellation-silent :
        (job : DownloadJob) → Keeps (SentIs n) (handle_cancellation p s job)
    unfolding handle_cancellation
    handle_cancellation-silent job =
        search (silent_rules, save_unless_terminal-silent, after_cancel-silent)

    handle-silent : (job : DownloadJob) (e : Exc) → Keeps (SentIs n) (handle p s job e)
    unfolding handle
    handle-silent job e =
        elim (verdict e)
          as (λ v. Keeps (SentIs n) (elim v [
            | cancel ↦ handle_cancellation p s job
            | permanent ↦ fail p s job (user_message e) e.message (classify_exception e.cls)
            | propagate ↦ raise e
          ])) [
            | cancel ↦ handle_cancellation-silent job
            | permanent ↦ fail-silent job (user_message e) e.message (classify_exception e.cls)
            | propagate ↦ Keeps-raise e
          ]

    pub handled-silent :
        (job : DownloadJob) (r : Outcome (Unit {0})) (w : World)
        → SentIs n w
        → SentIs n (handled r (handle p s job) w).1
    handled-silent job (returned _) w h = h
    handled-silent job (raised e) w h = (handle-silent job e).at w h
