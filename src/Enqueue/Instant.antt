-- ===== src/Enqueue/Instant.antt =====
-- app/application/use_cases/auto_enqueue_download.py.
use dwtgbot.Base.{
  ℕ, Bool, Option, none, some, codes, ◌++◌, decimal, Text, leb, length, if◌then◌else◌,
}
use dwtgbot.Strings.Trim.{strip}
use dwtgbot.Errors.{Exc, exc, too_many_jobs, returned, raised}
use dwtgbot.Jobs.Entity.{pending, DownloadJob}
use dwtgbot.Exec.{pure, raise, lift, try_, ◌>>=◌, ◌>>◌}
use dwtgbot.World.Values.{
  DownloadOption, MediaInfo, job_created, progress_started, post_text_stored,
}
use dwtgbot.World.Actions.{Action, call, emit, db_create_if_under_cap}
use dwtgbot.Process.Store.{id_or_zero}
use dwtgbot.Enqueue.Release.{EnqueuePorts, enqueue_or_release}

-- `AutoEnqueueInput`, with the `info` of the analysed media.
pub record InstantInput : Type 0 where
  pub user_id : ℕ
  pub chat_id : ℕ
  pub info : MediaInfo
  pub source_url : Text
  pub placeholder_message_id : ℕ
  pub correlation_id : Text

-- `AutoEnqueueResult`.
pub record InstantResult : Type 0 where
  pub job_id : ℕ
  pub selected : DownloadOption
  pub has_description : Bool

-- `DownloadJob(id=None, …)` with the defaults of the other fields, the times among them, which the
-- insert overwrites.
abbrev pub instant_job : ℕ → InstantInput → DownloadOption → DownloadJob
instant_job at payload selected = record {
  id = none;
  columns = record {
    user_id = payload.user_id;
    chat_id = payload.chat_id;
    source_url = payload.source_url;
    platform = payload.info.platform;
    media_id = none;
    title = none;
    selected_option_key = some selected.key;
    selected_format = none;
    status = pending;
    file_path = none;
    file_size = none;
    mime_type = none;
    telegram_file_id = none;
    public_url = none;
    error_message = none;
    retries_count = 0;
    status_version = 0;
    extra = codes "{}";
    created_at = at;
    updated_at = at;
    completed_at = none;
  };
}

abbrev pub instant_cap_error : ℕ → ℕ → Exc
instant_cap_error user cap = exc too_many_jobs (
    codes "user "
    ++ (decimal user ++ (codes " is at the per-user cap (" ++ (decimal cap ++ codes ")"))))

-- `has_post_text`: the text is worth a button.
unfoldable pub has_post_text : ℕ → Text → Bool
has_post_text post_text_min_chars description = leb post_text_min_chars (length (strip description))

module _ (p : EnqueuePorts) where
  -- `ProgressReporter.start`, whose failure is swallowed.
  unfoldable pub register : ℕ → InstantInput → Action (Unit {0})
  unfolding emit
  register k payload = do
    r ← try_ (call (λ n. p.start_progress n k))
    elim r [
      | returned _ ↦ emit (
          progress_started k payload.chat_id payload.placeholder_message_id
            payload.info.thumbnail_url)
      | raised _ ↦ pure tt
    ]

  unfoldable pub keep_text : ℕ → Text → Action (Unit {0})
  unfolding emit
  keep_text k text = do
    r ← try_ (call (λ n. p.put_post_text n k text))
    elim r [ returned _ ↦ emit (post_text_stored k text) | raised _ ↦ pure tt ]

module _ (p : EnqueuePorts) (post_text_min_chars : ℕ) where
  unfoldable pub side_channels : ℕ → InstantInput → Action (Unit {0})
  unfolding register keep_text
  side_channels k payload = do
    register p k payload
    (if has_post_text post_text_min_chars payload.info.description
        then keep_text p k (strip payload.info.description)
        else pure tt)

module _ (p : EnqueuePorts) (max_per_user post_text_min_chars : ℕ) where
  -- What follows the insert: the cap's error, or the queue, the metric and the side channels.
  unfoldable pub after_create :
      InstantInput → DownloadOption → Option DownloadJob → Action InstantResult
  unfolding enqueue_or_release emit side_channels has_post_text
  after_create payload selected none = raise (instant_cap_error payload.user_id max_per_user)
  after_create payload selected (some created) = do
    enqueue_or_release p created payload.correlation_id
    emit (job_created payload.info.platform)
    side_channels p post_text_min_chars (id_or_zero created) payload
    pure (record {
      job_id = id_or_zero created;
      selected = selected;
      has_description = has_post_text post_text_min_chars payload.info.description;
    })

  -- `AutoEnqueueDownloadUseCase.execute`.
  unfoldable pub auto_execute : ℕ → InstantInput → Action InstantResult
  unfolding after_create
  auto_execute at payload = do
    selected ← lift (p.default_option payload.info.platform payload.info)
    created ← db_create_if_under_cap p.base max_per_user (instant_job at payload selected)
    after_create payload selected created
