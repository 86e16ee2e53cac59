-- ===== src/Progress/Updater.antt =====
-- `ProgressUpdater` of app/bot/services/progress_updater.py: the registry of placeholder messages,
-- the handler of an event, the watchdog and the recovery scan. The updater counts as started, each
-- handler runs without another in between, times are in milliseconds on the monotonic clock, and
-- percents in tenths.
use dwtgbot.Base.{
  ℕ, suc, ◌+◌, Bool, true, false, ◌||◌, Option, none, some, List, [], ◌∷◌, Text, codes, text_eq,
  is_some, ◌==◌, if◌then◌else◌,
}
use dwtgbot.Strings.Digits.{Number, parse_int}
use dwtgbot.Downloader.Results.{contains}
use dwtgbot.Jobs.Rows.{Rows, update_where}
use dwtgbot.World.Values.{ProgressStage, failed}
use dwtgbot.Progress.Channel.{Hash, field}
use dwtgbot.Progress.Reporter.{without, stage_eq}

pub record UpdaterSettings : Type 0 where
  pub stale_warn_ms : ℕ
  pub stale_drop_ms : ℕ
  pub redraw_interval_ms : ℕ
  pub debounce_tenths : ℕ

-- `_ActiveJob`. The percent is read only where the stage is set, so the initial −1.0 is 0 here.
pub record ActiveJob : Type 0 where
  pub job_id : ℕ
  pub chat_id : Number
  pub message_id : Number
  pub has_photo : Bool
  pub last_event_at : ℕ
  pub last_apply_at : ℕ
  pub last_percent : ℕ
  pub last_stage : Option ProgressStage
  pub last_caption : Text
  pub stale_notified : Bool
  pub terminated : Bool

-- A call of the Bot API: an edit of a caption or of a text, or a deletion; chat and message first.
pub data BotCall : Type 0 where
  edit_caption edit_text : Number → Number → Text → BotCall
  delete_message : Number → Number → BotCall

pub data EditAnswer : Type 0 where
  edited rate_limited telegram_error : EditAnswer
  bad_request : Text → EditAnswer

-- The registry and the tombstones are dictionaries in the order of insertion. `calls` are the calls
-- so far, newest first, and `moment` counts the waits.
pub record Updater : Type 0 where
  pub active : Rows ActiveJob
  pub tombstones : Rows ℕ
  pub calls : List BotCall
  pub moment : ℕ

-- The collaborators, asked at a moment: the clock, the two hashes of the feed (`none` is
-- `ProgressFeedError`), the scan of the metas with its failure at the end, the answer to an edit;
-- `float`, the digits beyond ASCII that `int` reads, and `str.lower`.
pub record UpdaterPorts : Type 0 where
  pub clock : ℕ → ℕ
  pub read_progress : ℕ → ℕ → Option Hash
  pub read_meta : ℕ → ℕ → Option Hash
  pub placeholders : ℕ → List (ℕ × Hash)
  pub edit : ℕ → BotCall → EditAnswer
  pub read_float : Text → Option ℕ
  pub wide_digit : ℕ → Option ℕ
  pub lower : Text → Text

abbrev pub tombstone_ttl_ms : ℕ
tombstone_ttl_ms = 60000

-- `d[k] = v`: a new key goes to the end.
abbrev pub dict_set {ℓ} : {A : Type ℓ} → ℕ → A → Rows A → Rows A
dict_set k a [] = (k, a) ∷ []
dict_set k a ((j, b) ∷ r) = if k == j then (k, a) ∷ r else (j, b) ∷ dict_set k a r

-- A change of the object that the registry holds under `k`.
abbrev pub modify : ℕ → (ActiveJob → ActiveJob) → Updater → Updater
modify k set u = record u { active = update_where (λ row. k == row.0) set u.active }

-- `job.terminated = True`.
abbrev pub terminate : ActiveJob → Updater → Updater
terminate job = modify job.job_id (λ j. record j { terminated = true })

abbrev pub later : Updater → Updater
later u = record u { moment = suc u.moment }

abbrev attached : ℕ → ℕ → Bool → Option Number → Option Number → Option ActiveJob
attached now job_id has_photo (some chat_id) (some message_id) = some (record {
  job_id = job_id;
  chat_id = chat_id;
  message_id = message_id;
  has_photo = has_photo;
  last_event_at = now;
  last_apply_at = 0;
  last_percent = 0;
  last_stage = none;
  last_caption = [];
  stale_notified = false;
  terminated = false;
})
attached now job_id has_photo _ _ = none

abbrev int_field : (Text → Option Number) → Option Text → Option Number
int_field read none = none
int_field read (some value) = read value

module _ (p : UpdaterPorts) where
  abbrev pub now : Updater → ℕ
  now u = p.clock u.moment

  -- `_ActiveJob.from_meta`.
  unfoldable pub from_meta : ℕ → ℕ → Hash → Option ActiveJob
  unfolding parse_int
  from_meta at job_id meta =
      attached at job_id (is_some (field (codes "thumbnail_url") meta))
        (int_field (parse_int p.wide_digit) (field (codes "chat_id") meta))
        (int_field (parse_int p.wide_digit) (field (codes "message_id") meta))

  -- `_forget`; the flag is `drop_immediately`.
  abbrev pub forget : ℕ → Bool → Updater → Updater
  forget k drop_immediately u = record u {
    active = without k u.active;
    tombstones =
        if drop_immediately
        then dict_set k (now u + tombstone_ttl_ms) u.tombstones
        else u.tombstones;
  }

  abbrev pub edit_call : ActiveJob → Text → BotCall
  edit_call job caption =
      if job.has_photo
      then edit_caption job.chat_id job.message_id caption
      else edit_text job.chat_id job.message_id caption

  abbrev pub is_gone : Text → Bool
  is_gone message =
      contains (codes "message to edit not found") message
      || contains (codes "can't be edited") message

  abbrev pub after_edit : ActiveJob → EditAnswer → Updater → Bool × Updater
  after_edit job edited u = (true, u)
  after_edit job rate_limited u = (false, u)
  after_edit job telegram_error u = (false, u)
  after_edit job (bad_request message) u =
      if contains (codes "not modified") (p.lower message)
      then (false, u)
      else if is_gone (p.lower message)
      then (false, forget job.job_id true (terminate job u))
      else (false, u)

  -- `_apply_caption`.
  unfoldable pub apply_caption : ActiveJob → Text → Updater → Bool × Updater
  unfolding contains
  apply_caption job caption u =
      if text_eq caption job.last_caption
      then (false, u)
      else after_edit job (p.edit u.moment (edit_call job caption))
          (later (record u { calls = edit_call job caption ∷ u.calls }))

  -- `_delete_message`; a `TelegramError` is only logged.
  abbrev pub delete_call : ActiveJob → Updater → Updater
  delete_call job u =
      later (record u { calls = delete_message job.chat_id job.message_id ∷ u.calls })

  -- `_finalize`; the hold of two seconds is a wait.
  unfoldable pub finalize : ActiveJob → ProgressStage → Updater → Updater
  finalize job stage u =
      if stage_eq stage failed
      then forget job.job_id false (terminate job u)
      else forget job.job_id true (delete_call job (later (terminate job u)))
