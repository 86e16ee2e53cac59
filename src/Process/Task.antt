-- ===== src/Process/Task.antt =====
-- app/infrastructure/queue/tasks.py, and the queue's loop around it.
use dwtgbot.Base.{ℕ, zero, suc, ◌+◌, ◌*◌, leb, max, if◌then◌else◌}
use dwtgbot.Errors.{Exc, Outcome, returned, raised}
use dwtgbot.Exec.{pure, try_, ◌>>=◌, ◌>>◌}
use dwtgbot.Jobs
use dwtgbot.World.Values.{worker_active, worker_idle}
use dwtgbot.World.Ports.{Ports, Settings}
use dwtgbot.World.Actions.{Action, emit, on_jobs}
use dwtgbot.Process.UseCase.{execute, mark_terminally_failed}

-- How the task function ends: it returns, raises arq's `Retry`, or raises for good.
pub data TaskEnd : Type 0 where
  finished : TaskEnd
  retry : ℕ → TaskEnd
  aborted : Exc → TaskEnd

abbrev pub retry_base_delay_s : ℕ
retry_base_delay_s = 20

abbrev pub retry_delay_s : ℕ → ℕ
retry_delay_s attempt = retry_base_delay_s * max 1 attempt

module _ (p : Ports) (s : Settings) where
  -- The `except` clause: both bookkeeping calls are best-effort.
  unfoldable pub after_failure : ℕ → ℕ → ℕ → Outcome (Unit {0}) → Action TaskEnd
  unfolding on_jobs
  after_failure try_id max_tries k (returned _) = pure finished
  after_failure try_id max_tries k (raised e) = do
    try_ (on_jobs p (λ at t. Jobs.Repo.increment_retries at k t))
    if leb max_tries try_id
        then (try_ (mark_terminally_failed p s k e) >> pure (aborted e))
        else pure (retry (retry_delay_s try_id))

  -- `process_download_job` with the `job_try` and `max_tries` of the context.
  unfoldable pub process_download_job : ℕ → ℕ → ℕ → Action TaskEnd
  unfolding after_failure
  process_download_job try_id max_tries k = do
    emit worker_active
    r ← try_ (execute p s k try_id)
    end ← after_failure try_id max_tries k r
    emit worker_idle
    pure end

  -- arq: a task that raises `Retry` is run again with the next `job_try`; `rounds` are the tries
  -- left, `max_tries - job_try + 1` of them.
  unfoldable pub rerun : Action TaskEnd → TaskEnd → Action TaskEnd
  rerun again finished = pure finished
  rerun again (aborted e) = pure (aborted e)
  rerun again (retry delay) = again

  unfoldable pub run_tries : ℕ → ℕ → ℕ → ℕ → Action TaskEnd
  unfolding process_download_job rerun
  run_tries zero try_id max_tries k = pure (retry 0)
  run_tries (suc rounds) try_id max_tries k =
      let again = run_tries rounds (try_id + 1) max_tries k in
      process_download_job try_id max_tries k >>= rerun again
