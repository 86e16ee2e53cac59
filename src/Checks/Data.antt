-- ===== src/Checks/Data.antt =====
-- Concrete values for the checks.
use dwtgbot.Base.{
  ℕ, zero, suc, text_eq, if◌then◌else◌, ◌+◌, true, false, Option, none, some, [], ◌∷◌, ◌++◌, Text,
  codes,
}
use dwtgbot.Errors.{exc, delivery_transient, Outcome, returned, raised}
use dwtgbot.Jobs.Entity.{youtube, JobStatus, pending, processing, video, Columns, DownloadJob}
use dwtgbot.Jobs.Repo.{JobsTable}
use dwtgbot.Links.Entity.{LinkColumns}
use dwtgbot.Links.Repo.{LinksTable}
use dwtgbot.Links.Serve.{ServePorts, ServeSettings, Request}
use dwtgbot.World.Values.{DownloadOption, MediaInfo, DownloadResult}
use dwtgbot.World.Ports.{Ports, Settings, World}

abbrev pub row : ℕ → JobStatus → ℕ → Columns
row user status updated = record {
  user_id = user;
  chat_id = 900;
  source_url = codes "https://youtu.be/x";
  platform = youtube;
  media_id = none;
  title = none;
  selected_option_key = some (codes "720");
  selected_format = none;
  status = status;
  file_path = none;
  file_size = none;
  mime_type = none;
  telegram_file_id = none;
  public_url = none;
  error_message = none;
  retries_count = 0;
  status_version = 4;
  extra = codes "{}";
  created_at = 10;
  updated_at = updated;
  completed_at = none;
}

abbrev pub job_of : ℕ → Columns → DownloadJob
job_of k c = record { id = some k; columns = c }

-- One pending job of user 7, and one of user 8 that a worker left behind.
abbrev pub two_jobs : JobsTable
two_jobs = record { rows = (2, row 8 processing 20) ∷ (1, row 7 pending 50) ∷ []; next_id = 3 }

abbrev pub link_columns : ℕ → LinkColumns
link_columns used = record {
  token = codes "tok";
  job_id = 1;
  file_path = codes "/data/1/a.mp4";
  expires_at = 500;
  max_downloads = 2;
  downloads_count = used;
  is_active = true;
  created_at = 10;
  updated_at = 10;
}

abbrev pub one_link : LinksTable
one_link = record { rows = (1, link_columns 1) ∷ []; next_id = 2 }

abbrev pub files : ServePorts
files = record {
  clock = λ n. 100 + n;
  join = λ base name. base ++ (codes "/" ++ name);
  parts = λ path. codes "data" ∷ [];
  resolve = λ path.
      if text_eq path (codes "/data")
      then codes "data" ∷ []
      else codes "data" ∷ codes "1" ∷ codes "a.mp4" ∷ [];
  is_file = λ path. true;
}

abbrev pub serve_settings : ServeSettings
serve_settings = record { storage_path = codes "/data"; xaccel_enabled = false }

abbrev pub get_request : Request
get_request = record { is_get = true; range = some (codes "bytes=0-99"); internal_xaccel = none }

abbrev pub choice : DownloadOption
choice = record {
  key = codes "720";
  label = codes "720p";
  kind = video;
  height = some 720;
  bitrate_kbps = none;
  container = some (codes "mp4");
  estimated_size_bytes = some 1000;
}

abbrev pub info : MediaInfo
info = record {
  platform = youtube;
  media_id = codes "x";
  title = codes "A clip";
  kind = video;
  thumbnail_url = none;
  description = [];
  raw = [];
}

abbrev pub result : DownloadResult
result = record {
  files = codes "/data/1/a.mp4" ∷ [];
  total_size_bytes = 1000;
  primary_mime = codes "video/mp4";
  title = codes "A clip";
  kind = video;
}

-- Telegram refuses the first calls for a moment, and takes what comes later.
abbrev pub flaky : ℕ → Outcome (Option Text)
flaky zero = raised (exc delivery_transient (codes "timed out"))
flaky (suc _) = returned (some (codes "id"))

abbrev pub ports : Ports
ports = record {
  clock = λ n. 100 + n;
  others = λ _ t. t;
  db_failure = λ _. none;
  redis_up = λ _. true;
  get_fresh = λ _ _. returned none;
  info_from_cache = λ _ _. returned info;
  get_info = λ _ _ _. returned info;
  build_options = λ _ _. returned (choice ∷ []);
  probe_size = λ _ _ _ _ _. returned (some 1000);
  download = λ _ _ _ _ _ _. returned result;
  free_bytes = λ _. some 5000000000;
  reset_job_dir = λ _ _. returned (codes "/data/1");
  file_size = λ _ _. returned 1000;
  package_zip = λ _ _ _ name. returned name;
  send_media = λ n _ _ _ _ _. flaky n;
  send_text = λ _ _ _ _. returned tt;
  is_cancelled = λ _ _. false;
  post_text_exists = λ _ _. returned false;
  token_urlsafe = λ _. codes "token";
  exc_repr = λ _. codes "error";
}

abbrev pub settings : Settings
settings = record {
  max_file_size_bytes = 2000000000;
  telegram_max_upload_bytes = 50000000;
  min_free_bytes = 1000;
  temp_link_ttl_seconds = 3600;
  temp_link_max_downloads = 5;
  public_base_url = codes "https://example.org";
  brand_footer = [];
  job_timeout_seconds = 600;
  job_max_retries = 3;
  has_ledger = true;
  has_cancellation = true;
  has_storage = true;
  has_media_cache = true;
  has_post_text = false;
}

abbrev pub world : World
world = record { jobs = two_jobs; links = one_link; ledger = []; log = []; moment = 0 }
