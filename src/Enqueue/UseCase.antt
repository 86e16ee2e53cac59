-- ===== src/Enqueue/UseCase.antt =====
-- app/application/use_cases/enqueue_download.py.
use dwtgbot.Base.{ℕ, Option, none, some, Text, codes, ◌++◌, decimal}
use dwtgbot.Errors.{Exc, exc, too_many_jobs}
use dwtgbot.Exec.{pure, raise, ◌>>=◌, ◌>>◌}
use dwtgbot.Jobs.Entity.{Platform, pending, DownloadJob}
use dwtgbot.World.Values.{job_created}
use dwtgbot.World.Actions.{Action, emit, db_create_if_under_cap}
use dwtgbot.Process.Store.{id_or_zero}
use dwtgbot.Enqueue.Release.{EnqueuePorts, enqueue_or_release}

-- `EnqueueDownloadInput`.
pub record EnqueueInput : Type 0 where
  pub user_id : ℕ
  pub chat_id : ℕ
  pub source_url : Text
  pub platform : Platform
  pub selected_option_key : Text
  pub correlation_id : Text

-- `DownloadJob(id=None, …)` with the defaults of the other fields, the times among them.
abbrev pub fresh_job : ℕ → EnqueueInput → DownloadJob
fresh_job at payload = record {
  id = none;
  columns = record {
    user_id = payload.user_id;
    chat_id = payload.chat_id;
    source_url = payload.source_url;
    platform = payload.platform;
    media_id = none;
    title = none;
    selected_option_key = some payload.selected_option_key;
    selected_format = none;
    status = pending;
    file_path = none;
    file_size = none;
    mime_type = none;
    telegram_file_id = none;
    public_url = none;
    error_message = none;
    retries_count = 0;
    status_version = 0;
    extra = codes "{}";
    created_at = at;
    updated_at = at;
    completed_at = none;
  };
}

abbrev pub cap_error : ℕ → ℕ → Exc
cap_error user cap = exc too_many_jobs (
    codes "user "
    ++ (decimal user ++ (codes " is at the per-user cap (" ++ (decimal cap ++ codes ")"))))

module _ (p : EnqueuePorts) (max_per_user : ℕ) where
  -- From the row to the metric.
  unfoldable pub handed_over : EnqueueInput → Option DownloadJob → Action DownloadJob
  unfolding enqueue_or_release emit
  handed_over payload none = raise (cap_error payload.user_id max_per_user)
  handed_over payload (some created) = do
    enqueue_or_release p created payload.correlation_id
    emit (job_created payload.platform)
    pure created

  -- The times of the new object are overwritten by the row's, so that any two serve.
  unfoldable pub enqueue : ℕ → EnqueueInput → Action DownloadJob
  unfolding handed_over
  enqueue at payload =
      db_create_if_under_cap p.base max_per_user (fresh_job at payload) >>= handed_over payload

  -- `EnqueueDownloadUseCase.execute`: the new job's id.
  unfoldable pub enqueue_download : ℕ → EnqueueInput → Action ℕ
  unfolding enqueue
  enqueue_download at payload = do created ← enqueue at payload; pure (id_or_zero created)
