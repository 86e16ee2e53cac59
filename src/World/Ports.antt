-- ===== src/World/Ports.antt =====
-- The ports of app/application/ports and app/application/services, the settings that the worker
-- reads, and the state that the coroutines share.
use dwtgbot.Base.{ℕ, Bool, Option, List, Text}
use dwtgbot.Errors.{Exc, Outcome}
use dwtgbot.Jobs.Entity.{Platform, MediaKind}
use dwtgbot.Jobs.Rows.{Rows}
use dwtgbot.Jobs.Repo.{JobsTable}
use dwtgbot.Links.Repo.{LinksTable}
use dwtgbot.World.Values.{
  DownloadOption, MediaInfo, DownloadResult, DeliveredRecord, Keyboard, Event,
}

-- Sizes in bytes, times in seconds. A collaborator that the constructor may leave out has a flag.
pub record Settings : Type 0 where
  pub max_file_size_bytes : ℕ
  pub telegram_max_upload_bytes : ℕ
  pub min_free_bytes : ℕ
  pub temp_link_ttl_seconds : ℕ
  pub temp_link_max_downloads : ℕ
  pub public_base_url : Text
  pub brand_footer : Text
  pub job_timeout_seconds : ℕ
  pub job_max_retries : ℕ
  pub has_ledger : Bool
  pub has_cancellation : Bool
  pub has_storage : Bool
  pub has_media_cache : Bool
  pub has_post_text : Bool

-- What the program does not decide. The first argument of each is the moment of the call, a number
-- that grows with every call, so that the answer to a repeated call may be another one.
pub record Ports : Type 0 where
  -- The clock, and the writes of other processes before the access at this moment.
  pub clock : ℕ → ℕ
  pub others : ℕ → JobsTable → JobsTable
  -- The database driver's failure of the access at this moment, by its message.
  pub db_failure : ℕ → Option Text
  pub redis_up : ℕ → Bool
  -- The provider of a platform, and the analysis that the bot cached.
  pub get_fresh : ℕ → Text → Outcome (Option Text)
  pub info_from_cache : Text → Platform → Outcome MediaInfo
  pub get_info : ℕ → Platform → Text → Outcome MediaInfo
  pub build_options : Platform → MediaInfo → Outcome (List DownloadOption)
  pub probe_size : ℕ → Platform → Text → MediaInfo → DownloadOption → Outcome (Option ℕ)
  pub download : ℕ → Platform → Text → DownloadOption → Text → MediaInfo → Outcome DownloadResult
  -- The storage: free bytes where the file system tells them, and file operations.
  pub free_bytes : ℕ → Option ℕ
  pub reset_job_dir : ℕ → ℕ → Outcome Text
  pub file_size : ℕ → Text → Outcome ℕ
  pub package_zip : ℕ → List Text → ℕ → Text → Outcome Text
  -- Telegram: `send_media` stands for `send_video`, `send_audio`, `send_photo` and
  -- `send_document`, by the kind.
  pub send_media : ℕ → MediaKind → ℕ → Text → Option Text → Keyboard → Outcome (Option Text)
  pub send_text : ℕ → ℕ → Text → Keyboard → Outcome (Unit {0})
  -- The cancellation flag, the post text, a fresh token, and Python's `repr` of an exception.
  pub is_cancelled : ℕ → ℕ → Bool
  pub post_text_exists : ℕ → ℕ → Outcome Bool
  pub token_urlsafe : ℕ → Text
  pub exc_repr : Exc → Text

-- Both tables, the delivery ledger with the expiry of each entry, what was emitted (newest first),
-- and the number of calls made so far.
pub record World : Type 0 where
  pub jobs : JobsTable
  pub links : LinksTable
  pub ledger : Rows (DeliveredRecord × ℕ)
  pub log : List Event
  pub moment : ℕ
