-- ===== src/Process/UseCase.antt =====
-- `ProcessDownloadUseCase.execute` and `mark_terminally_failed`.
use dwtgbot.Base.{
  ℕ, Bool, true, false, ◌&&◌, Option, none, some, [], ◌∷◌, codes, ltb, if◌then◌else◌,
}
use dwtgbot.Errors.{Exc, app, job_cancelled, is_instance, is_retryable, user_message}
use dwtgbot.Errors.Reason.{classify_exception}
use dwtgbot.Exec.{pure, raise, catch, ◌>>=◌, ◌>>◌}
use dwtgbot.Jobs.Entity.{processing, status_eq, is_terminal, DownloadJob}
use dwtgbot.World.Values.{DeliveredRecord}
use dwtgbot.World.Ports.{Ports, Settings}
use dwtgbot.World.Actions.{Action, db_get}
use dwtgbot.Process.Store.{
  guard_replay, transition_to_processing, fail, handle_cancellation, complete,
}
use dwtgbot.Process.Phases.{deliver_phases, ledger_get}

-- What the `except` clauses of `_run` do with an exception.
pub data Verdict : Type 0 where
  cancel permanent propagate : Verdict

unfoldable pub verdict : Exc → Verdict
verdict e =
    if is_instance e.cls (job_cancelled ∷ [])
    then cancel
    else if is_instance e.cls (app ∷ [])
    then if is_retryable e.cls then propagate else permanent
    else propagate

module _ (p : Ports) (s : Settings) where
  -- `_download_and_deliver`. What `complete` does to the job object is not seen by the handlers:
  -- nothing that it raises reaches one that uses the object.
  unfoldable pub download_and_deliver : DownloadJob → Action (Unit {0})
  unfolding deliver_phases complete
  download_and_deliver job = deliver_phases p s job >>= complete p s job

  -- `_finish_if_delivered`.
  unfoldable pub finish_with : DownloadJob → Option DeliveredRecord → Action Bool
  finish_with job none = pure false
  finish_with job (some d) = complete p s job d >> pure true

  unfoldable pub finish_if_delivered : DownloadJob → Action Bool
  unfolding finish_with ledger_get
  finish_if_delivered job =
      if s.has_ledger
      then elim (job.id) [ none ↦ pure false | some k ↦ ledger_get p s k >>= finish_with job ]
      else pure false

  -- The body of the `try` in `_run`.
  unfoldable pub attempt_body : ℕ → DownloadJob → Action (Unit {0})
  unfolding finish_if_delivered download_and_deliver
  attempt_body attempt job = do
    finished ← (if ltb 1 attempt then finish_if_delivered job else pure false)
    if finished then pure tt else download_and_deliver job

  -- Its handlers, in their order.
  unfoldable pub handle : DownloadJob → Exc → Action (Unit {0})
  unfolding verdict
  handle job e = elim (verdict e) [
    | cancel ↦ handle_cancellation p s job
    | permanent ↦ fail p s job (user_message e) e.message (classify_exception e.cls)
    | propagate ↦ raise e
  ]

  unfoldable pub guarded_body : ℕ → DownloadJob → Action (Unit {0})
  unfolding attempt_body handle
  guarded_body attempt job = catch (attempt_body attempt job) (handle job)

  unfoldable pub after_transition : ℕ → Option DownloadJob → Action (Unit {0})
  unfolding guarded_body
  after_transition attempt none = pure tt
  after_transition attempt (some job) = guarded_body attempt job

  unfoldable pub start : ℕ → DownloadJob → Action (Unit {0})
  unfolding after_transition
  start attempt job = do
    replay ← guard_replay job
    if replay then pure tt else (transition_to_processing p s job >>= after_transition attempt)

  -- `_run`.
  unfoldable pub run : ℕ → DownloadJob → Action (Unit {0})
  unfolding start guarded_body
  run attempt job =
      if ltb 1 attempt && status_eq job.status processing
      then guarded_body attempt job
      else start attempt job

  unfoldable pub run_found : ℕ → Option DownloadJob → Action (Unit {0})
  unfolding run
  run_found attempt none = pure tt
  run_found attempt (some job) = run attempt job

  -- `execute` of a job id and an attempt number.
  unfoldable pub execute : ℕ → ℕ → Action (Unit {0})
  unfolding run_found
  execute k attempt = db_get p k >>= run_found attempt

  unfoldable pub fail_found : Exc → Option DownloadJob → Action (Unit {0})
  fail_found e none = pure tt
  fail_found e (some job) =
      if is_terminal job.status
      then pure tt
      else fail p s job
          (if is_instance e.cls (app ∷ [])
            then user_message e
            else codes "Не удалось обработать запрос.")
          (p.exc_repr e) (classify_exception e.cls)

  unfoldable pub mark_terminally_failed : ℕ → Exc → Action (Unit {0})
  unfolding fail_found
  mark_terminally_failed k e = db_get p k >>= fail_found e
