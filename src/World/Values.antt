-- ===== src/World/Values.antt =====
-- app/domain/entities/media_info.py, app/application/services/delivery_ledger.py,
-- app/application/ports and app/domain/observability.py: the values that the worker passes.
use dwtgbot.Base.{ℕ, Bool, true, false, Option, none, some, List, Text, ltb, if◌then◌else◌}
use dwtgbot.Jobs.Entity.{Platform, JobStatus, MediaKind, DeliveryMethod}
use dwtgbot.Errors.Reason.{ReasonClass}

pub data ProgressStage : Type 0 where
  analyzing downloading processing uploading done cancelled failed : ProgressStage

abbrev pub is_terminal_stage : ProgressStage → Bool
is_terminal_stage done = true
is_terminal_stage cancelled = true
is_terminal_stage failed = true
is_terminal_stage _ = false

pub record DownloadOption : Type 0 where
  pub key : Text
  pub label : Text
  pub kind : MediaKind
  pub height : Option ℕ
  pub bitrate_kbps : Option ℕ
  pub container : Option Text
  pub estimated_size_bytes : Option ℕ

-- `raw` is the dictionary by its keys, with the JSON text of each value. The gallery items and the
-- duration are the providers' business and are not read here.
pub record MediaInfo : Type 0 where
  pub platform : Platform
  pub media_id : Text
  pub title : Text
  pub kind : MediaKind
  pub thumbnail_url : Option Text
  pub description : Text
  pub raw : List (Text × Text)

pub record DownloadResult : Type 0 where
  pub files : List Text
  pub total_size_bytes : ℕ
  pub primary_mime : Text
  pub title : Text
  pub kind : MediaKind

pub record DeliveryOutcome : Type 0 where
  pub method : DeliveryMethod
  pub public_url : Option Text
  pub primary_telegram_file_id : Option Text
  pub delivered_path : Text
  pub file_size : ℕ

pub record DeliveredRecord : Type 0 where
  pub method : DeliveryMethod
  pub public_url : Option Text
  pub primary_telegram_file_id : Option Text
  pub delivered_path : Text
  pub file_size : ℕ
  pub mime_type : Option Text
  pub title : Text
  pub media_id : Text
  pub selected_format : Option Text

pub data Button : Type 0 where
  url_button callback_button : Text → Text → Button

-- `InlineKeyboard.rows`.
abbrev pub Keyboard : Type 0
Keyboard = List (List Button)

pub data FileSizeClass : Type 0 where
  lt_50mb lt_200mb gt_200mb : FileSizeClass

abbrev pub boundary_50mb : ℕ
boundary_50mb = 52428800

abbrev pub boundary_200mb : ℕ
boundary_200mb = 209715200

unfoldable pub file_size_class : Option ℕ → FileSizeClass
file_size_class none = lt_50mb
file_size_class (some n) =
    if ltb n boundary_50mb then lt_50mb else if ltb n boundary_200mb then lt_200mb else gt_200mb

-- What the outside sees of a run: metrics, progress frames, jobs and texts handed over through
-- Redis, removed files, and messages. `upload_tried` is a call that uploads media, which Telegram
-- may accept even where its answer is lost; `sent_media` is one that was answered.
pub data Event : Type 0 where
  status_change : JobStatus → JobStatus → ReasonClass → Event
  replay_ignored : JobStatus → Event
  job_duration : FileSizeClass → Event
  worker_active worker_idle : Event
  progress : ℕ → ℕ → ProgressStage → Event
  progress_finished : ℕ → Event
  progress_failed : ℕ → Text → Event
  upload_tried sent_media : ℕ → Text → MediaKind → Event
  sent_text : ℕ → Text → Keyboard → Event
  slept : ℕ → Event
  cancel_cleared : ℕ → Event
  queued : ℕ → Text → Event
  job_created : Platform → Event
  progress_started : ℕ → ℕ → ℕ → Option Text → Event
  post_text_stored : ℕ → Text → Event
  dir_removed file_removed : Text → Event
  orphan_dirs_removed : ℕ → Event
