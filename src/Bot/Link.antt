-- ===== src/Bot/Link.antt =====
-- app/bot/handlers/links.py. Metrics and log lines are left out.
use dwtgbot.Base.{
  ℕ, ◌+◌, ◌/◌, Bool, true, false, not, ◌&&◌, Option, none, some, List, [], ◌∷◌, ◌++◌, Text, codes,
  decimal, is_empty, leb, ◌==◌, max, if◌then◌else◌,
}
use dwtgbot.Errors.{Exc, app, is_instance, user_message, Outcome, returned, raised}
use dwtgbot.Exec.{pure, lift, try_, ◌>>=◌, ◌>>◌}
use dwtgbot.Jobs.Entity.{Platform, youtube, instagram}
use dwtgbot.World.Values.{DownloadOption}
use dwtgbot.Limits.Window.{
  LimitLayer, user_burst, user_hourly, chat_burst, global_burst, domain_burst, LimitDecision,
}
use dwtgbot.Utils.Urls.{extract_first_url}
use dwtgbot.Utils.Routing.{normalize_domain}
use dwtgbot.Callbacks.Codec.{encode_job, prefix_cancel_job}
use dwtgbot.Delivery.Format.{escape}
use dwtgbot.Bot.Keyboard.{build_options_keyboard}
use dwtgbot.Bot.State.{
  Analyzed, Analysis, Effect, typing, reply_text, reply_options, reply_photo, edit_placeholder,
  attach_cancel, enqueue_instant, BotPorts, BotAction, act, ask,
}
use dwtgbot.Bot.Analysis.{analyze_link}

-- A message with a user, a chat and its text.
pub record IncomingMessage : Type 0 where
  pub user_id : ℕ
  pub chat_id : ℕ
  pub text : Text

-- `_format_retry_after`.
unfoldable pub format_retry_after : ℕ → ℕ × Text
format_retry_after seconds =
    if leb seconds 5
    then (5, codes "секунд")
    else if leb seconds 30
    then (30, codes "секунд")
    else if leb seconds 60
    then (60, codes "секунд")
    else let minutes = max 1 ((seconds + 59) / 60) in
      (minutes, if minutes == 1 then codes "минуту" else codes "минут")

-- `user_facing_category`; without a layer it is the personal one.
abbrev pub category : Option LimitLayer → Text
category none = codes "personal"
category (some user_burst) = codes "personal"
category (some user_hourly) = codes "personal"
category (some chat_burst) = codes "chat"
category (some global_burst) = codes "service-wide"
category (some domain_burst) = codes "platform"

-- `_format_user_message`.
unfoldable pub format_user_message : LimitDecision → Text
unfolding format_retry_after decimal
format_user_message decision =
    let (n, unit) = format_retry_after decision.retry_after_s in
    codes "⏳ Слишком много запросов. Попробуйте снова через "
    ++ (decimal n
        ++ (codes " " ++ (unit ++ (codes ".\n(лимит: " ++ (category decision.layer ++ codes ")")))))

abbrev pub analyze_caption : Text
analyze_caption = codes "Анализирую ссылку…"

abbrev pub is_youtube : Platform → Bool
is_youtube youtube = true
is_youtube instagram = false

abbrev pub title_or_media : Text → Text
title_or_media title = if is_empty title then codes "медиа" else title

module _ (p : BotPorts) where
  -- `unexpected_error_text` of app/bot/services/fallback_text.py.
  unfoldable pub unexpected_error_text : Exc → Text → Text
  unexpected_error_text e default_ =
      if p.is_backend_down e
      then codes
          "Сервис временно недоступен — идут технические работы. Попробуйте через пару минут."
      else default_

  -- The text for an exception: an `AppError` brings its own.
  abbrev pub error_text : Exc → Text → Text
  error_text e default_ =
      if is_instance e.cls (app ∷ []) then user_message e else unexpected_error_text e default_

  abbrev pub tell : Effect → BotAction ℕ
  tell e = act e (λ n. p.telegram n e)

  -- The domain that the limits count.
  unfoldable pub domain_in : Text → Option Text
  unfolding extract_first_url normalize_domain
  domain_in text = elim (extract_first_url text) [
    | none ↦ none
    | some url ↦ if is_empty url then none else normalize_domain p.urls url
  ]

  -- `_edit_placeholder_text`.
  unfoldable pub edit_placeholder_text : ℕ → Bool → Text → BotAction (Unit {0})
  unfolding act
  edit_placeholder_text id has_photo text =
      try_ (tell (edit_placeholder id has_photo text)) >> pure tt

  abbrev pub or_no_placeholder : Outcome ℕ → BotAction (Option (ℕ × Bool))
  or_no_placeholder (returned id) = pure (some (id, false))
  or_no_placeholder (raised _) = pure none

  abbrev pub text_placeholder : BotAction (Option (ℕ × Bool))
  text_placeholder = try_ (tell (reply_text analyze_caption)) >>= or_no_placeholder

  abbrev pub or_text_placeholder : Outcome ℕ → BotAction (Option (ℕ × Bool))
  or_text_placeholder (returned id) = pure (some (id, true))
  or_text_placeholder (raised _) = text_placeholder

  -- `_send_placeholder`: the message and whether it is a photo.
  unfoldable pub send_placeholder : Option Text → BotAction (Option (ℕ × Bool))
  unfolding act
  send_placeholder none = text_placeholder
  send_placeholder (some url) =
      if is_empty url
      then text_placeholder
      else try_ (tell (reply_photo url analyze_caption)) >>= or_text_placeholder

  abbrev pub after_enqueue : ℕ → Bool → Outcome ℕ → BotAction (Unit {0})
  after_enqueue id has_photo (raised e) =
      edit_placeholder_text id has_photo
        (error_text e (codes "Не удалось поставить задачу в очередь."))
  after_enqueue id has_photo (returned job_id) =
      lift (encode_job prefix_cancel_job job_id) >>= λ data_.
      (try_ (tell (attach_cancel id data_)) >> pure tt)

  unfoldable pub enqueue_behind : Analyzed → Option (ℕ × Bool) → BotAction (Unit {0})
  unfolding edit_placeholder_text encode_job act
  enqueue_behind analyzed none = pure tt
  enqueue_behind analyzed (some (id, has_photo)) =
      try_ (act (enqueue_instant analyzed id) (λ n. p.auto_enqueue n analyzed id))
      >>= after_enqueue id has_photo

  -- `_handle_instant_download`.
  unfoldable pub handle_instant_download : Analyzed → BotAction (Unit {0})
  unfolding send_placeholder enqueue_behind
  handle_instant_download analyzed =
      send_placeholder analyzed.info.thumbnail_url >>= enqueue_behind analyzed

  unfoldable pub offer_options : Analysis → BotAction (Unit {0})
  unfolding build_options_keyboard escape act
  offer_options result = do
    keyboard ← lift (build_options_keyboard result.request_id result.analyzed.options)
    tell (
        reply_options
          (codes "<b>"
            ++ (escape (title_or_media result.analyzed.info.title)
                ++ codes "</b>\nВыберите вариант:"))
          keyboard)
    pure tt

  unfoldable pub on_options : Analysis → List DownloadOption → BotAction (Unit {0})
  unfolding handle_instant_download offer_options act
  on_options result [] =
      tell (reply_text (codes "Не удалось получить ни одного варианта скачивания для этого медиа."))
      >> pure tt
  on_options result (_ ∷ _) =
      if p.instant_enabled && not (is_youtube result.analyzed.info.platform)
      then handle_instant_download result.analyzed
      else offer_options result

  unfoldable pub after_analysis : Outcome Analysis → BotAction (Unit {0})
  unfolding on_options unexpected_error_text act
  after_analysis (raised e) =
      tell (reply_text (error_text e (codes "Не удалось обработать ссылку. Попробуйте позже.")))
      >> pure tt
  after_analysis (returned result) = on_options result result.analyzed.options

  unfoldable pub admitted_link : Text → BotAction (Unit {0})
  unfolding analyze_link after_analysis act
  admitted_link text = do tell typing; r ← try_ (analyze_link p text); after_analysis r

  unfoldable pub denied_link : ℕ → LimitDecision → BotAction (Unit {0})
  unfolding format_user_message decimal act ask
  denied_link user_id decision = do
    should_speak ← ask (λ n. returned (p.should_notify n (codes "u:" ++ decimal user_id)))
    if should_speak then (tell (reply_text (format_user_message decision)) >> pure tt) else pure tt

  unfoldable pub limited_link : IncomingMessage → LimitDecision → BotAction (Unit {0})
  unfolding admitted_link denied_link
  limited_link m decision =
      if decision.allowed then admitted_link m.text else denied_link m.user_id decision

  -- `handle_link`; `none` is an update without a message, a user or a chat.
  unfoldable pub handle_link : Option IncomingMessage → BotAction (Unit {0})
  unfolding limited_link domain_in ask
  handle_link none = pure tt
  handle_link (some m) =
      if is_empty m.text
      then pure tt
      else ask (λ n. returned (p.evaluate n m.user_id m.chat_id (domain_in m.text)))
        >>= limited_link m
