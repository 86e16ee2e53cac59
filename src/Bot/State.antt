-- ===== src/Bot/State.antt =====
-- What the bot does for a message, as a log, and the collaborators that it asks.
use dwtgbot.Base.{ℕ, suc, Bool, Option, List, ◌∷◌, Text}
use dwtgbot.Errors.{Exc, Outcome}
use dwtgbot.Exec.{Exec}
use dwtgbot.Jobs.Entity.{Platform}
use dwtgbot.World.Values.{DownloadOption, MediaInfo, Keyboard}
use dwtgbot.Limits.Window.{LimitDecision}
use dwtgbot.Utils.Urls.{UrlParser}

-- `AnalyzedMedia`, and `AnalyzeLinkOutput` with the id under which it is stashed.
pub record Analyzed : Type 0 where
  pub info : MediaInfo
  pub options : List DownloadOption

pub record Analysis : Type 0 where
  pub request_id : Text
  pub analyzed : Analyzed

-- A call that goes out: to Telegram the chat action, the replies, the edits of a placeholder (its
-- message and whether it is a photo) and its cancel button; to a provider, to the media cache and to
-- the store of requests; and to the use case that enqueues, for a placeholder.
pub data Effect : Type 0 where
  typing : Effect
  reply_text : Text → Effect
  reply_options : Text → Keyboard → Effect
  reply_photo : Text → Text → Effect
  edit_placeholder : ℕ → Bool → Text → Effect
  attach_cancel : ℕ → Text → Effect
  fetch_info : Platform → Text → Effect
  cache_info : Text → MediaInfo → Effect
  save_request : Text → Analyzed → Effect
  enqueue_instant : Analyzed → ℕ → Effect

-- The log is newest first; each call takes one moment.
pub record BotState : Type 0 where
  pub log : List Effect
  pub moment : ℕ

-- `telegram` answers a call with the id of the message, or raises a `TelegramError`. `platforms`
-- are those with a provider. `is_backend_down` is `is_backend_unavailable`, which looks at the
-- drivers' classes.
pub record BotPorts : Type 0 where
  pub urls : UrlParser
  pub evaluate : ℕ → ℕ → ℕ → Option Text → LimitDecision
  pub should_notify : ℕ → Text → Bool
  pub telegram : ℕ → Effect → Outcome ℕ
  pub has_cache : Bool
  pub platforms : Platform → Bool
  pub get_fresh : ℕ → Text → Outcome (Option Text)
  pub info_from_cache : Text → Platform → Outcome MediaInfo
  pub get_info : ℕ → Platform → Text → Outcome MediaInfo
  pub upsert : ℕ → Text → MediaInfo → Outcome (Unit {0})
  pub build_options : Platform → MediaInfo → Outcome (List DownloadOption)
  pub token_urlsafe : ℕ → Text
  pub save : ℕ → Text → Analyzed → Outcome (Unit {0})
  pub auto_enqueue : ℕ → Analyzed → ℕ → Outcome ℕ
  pub is_backend_down : Exc → Bool
  pub instant_enabled : Bool

abbrev pub BotAction : Type 0 → Type 0
BotAction A = Exec BotState A

-- A call that leaves a trace whatever its answer is.
unfoldable pub act : {A : Type 0} → Effect → (ℕ → Outcome A) → BotAction A
act e f w = (f w.moment, record { log = e ∷ w.log; moment = suc w.moment })

-- A call that only reads.
unfoldable pub ask : {A : Type 0} → (ℕ → Outcome A) → BotAction A
ask f w = (f w.moment, record w { moment = suc w.moment })
