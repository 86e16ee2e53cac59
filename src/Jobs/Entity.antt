-- ===== src/Jobs/Entity.antt =====
-- app/domain/enums.py and app/domain/entities/download_job.py.
use dwtgbot.Base.{ℕ, Bool, true, false, Option, some, Text, take, ◌||◌}

pub data Platform : Type 0 where
  youtube instagram : Platform

pub data JobStatus : Type 0 where
  pending processing done failed : JobStatus

pub data MediaKind : Type 0 where
  video audio photo gallery : MediaKind

pub data DeliveryMethod : Type 0 where
  telegram_upload temp_link : DeliveryMethod

-- `self.status is other`.
abbrev pub status_eq : JobStatus → JobStatus → Bool
status_eq pending pending = true
status_eq processing processing = true
status_eq done done = true
status_eq failed failed = true
status_eq _ _ = false

-- `status in (JobStatus.DONE, JobStatus.FAILED)`.
abbrev pub is_terminal : JobStatus → Bool
is_terminal s = status_eq s done || status_eq s failed

-- `status.in_((JobStatus.PENDING, JobStatus.PROCESSING))`.
abbrev pub is_active : JobStatus → Bool
is_active s = status_eq s pending || status_eq s processing

-- The fields of `DownloadJob` behind `id`, which are also the columns of `DownloadJobModel` behind
-- the key. Times are numbers on one clock, `extra` is its JSON text.
pub record Columns : Type 0 where
  pub user_id : ℕ
  pub chat_id : ℕ
  pub source_url : Text
  pub platform : Platform
  pub media_id : Option Text
  pub title : Option Text
  pub selected_option_key : Option Text
  pub selected_format : Option Text
  pub status : JobStatus
  pub file_path : Option Text
  pub file_size : Option ℕ
  pub mime_type : Option Text
  pub telegram_file_id : Option Text
  pub public_url : Option Text
  pub error_message : Option Text
  pub retries_count : ℕ
  pub status_version : ℕ
  pub extra : Text
  pub created_at : ℕ
  pub updated_at : ℕ
  pub completed_at : Option ℕ

pub record DownloadJob : Type 0 where
  pub id : Option ℕ
  pub columns : Columns
  pub open columns use *

unfoldable pub mark_processing : ℕ → DownloadJob → DownloadJob
mark_processing now job = record job {
  columns = record (job.columns) { status = processing; updated_at = now };
}

-- The keyword arguments of `mark_done`.
pub record DoneFields : Type 0 where
  pub file_path : Option Text
  pub file_size : Option ℕ
  pub mime_type : Option Text
  pub telegram_file_id : Option Text
  pub public_url : Option Text

unfoldable pub mark_done : ℕ → DoneFields → DownloadJob → DownloadJob
mark_done now f job = record job {
  columns = record (job.columns) {
    status = done;
    file_path = f.file_path;
    file_size = f.file_size;
    mime_type = f.mime_type;
    telegram_file_id = f.telegram_file_id;
    public_url = f.public_url;
    updated_at = now;
    completed_at = some now;
  };
}

unfoldable pub mark_failed : ℕ → Text → DownloadJob → DownloadJob
mark_failed now error_message job = record job {
  columns = record (job.columns) {
    status = failed;
    error_message = some (take 1000 error_message);
    updated_at = now;
    completed_at = some now;
  };
}
