-- ===== src/Bot/Silent.antt =====
-- What app/bot/handlers/links.py and app/application/use_cases/analyze_link.py do without an enqueue.
use dwtgbot.Base.{ℕ, ◌≡◌, Bool, true, false, Option, none, some, Text, arith, count}
use dwtgbot.Errors.{Outcome, returned, raised}
use dwtgbot.Exec.Keeps.{Keeps, keeps_rules}
use dwtgbot.Jobs.Entity.{Platform}
use dwtgbot.World.Values.{MediaInfo}
use dwtgbot.Utils.Routing.{DetectedUrl}
use dwtgbot.Bot.State.{
  Analysis, Effect, reply_text, reply_photo, enqueue_instant, BotState, BotPorts, act, ask,
}
use dwtgbot.Bot.Analysis.{
  or_miss, read_cache, candidate_of, cached_media, upsert_cache, media_or_fetch, analyze_link,
}
use dwtgbot.Bot.Link.{offer_options}

abbrev pub is_instant : Effect → Bool
is_instant (enqueue_instant _ _) = true
is_instant _ = false

abbrev pub is_placeholder : Effect → Bool
is_placeholder (reply_text _) = true
is_placeholder (reply_photo _ _) = true
is_placeholder _ = false

abbrev pub instants : BotState → ℕ
instants w = count is_instant w.log

-- So many downloads have been enqueued.
abbrev pub InstantsAre : ℕ → BotState → Type 0
InstantsAre n w = instants w ≡ n

module _ (n : ℕ) where
  pub act-silent :
      {A : Type 0} (e : Effect) (f : ℕ → Outcome A)
      → is_instant e ≡ false
      → Keeps (InstantsAre n) (act e f)
  unfolding act
  act-silent e f quiet = record { at = λ w h. ground (arith, h, quiet) }

  pub ask-silent : {A : Type 0} (f : ℕ → Outcome A) → Keeps (InstantsAre n) (ask f)
  unfolding ask
  ask-silent f = record { at = λ w h. h }

pub ruleset bot_rules = (keeps_rules, act-silent, ask-silent)

module _ (n : ℕ) (p : BotPorts) where
  or_miss-silent : (r : Outcome (Option Text)) → Keeps (InstantsAre n) (or_miss p r)
  or_miss-silent (returned row) = search bot_rules
  or_miss-silent (raised _) = search bot_rules

  read_cache-silent : (source_url : Text) → Keeps (InstantsAre n) (read_cache p source_url)
  unfolding read_cache
  read_cache-silent source_url = search (bot_rules, or_miss-silent)

  candidate_of-silent :
      (platform : Platform) (row : Option Text)
      → Keeps (InstantsAre n) (candidate_of p platform row)
  candidate_of-silent platform none = search bot_rules
  candidate_of-silent platform (some row) = search bot_rules

  cached_media-silent : (detected : DetectedUrl) → Keeps (InstantsAre n) (cached_media p detected)
  unfolding cached_media
  cached_media-silent detected = search (bot_rules, read_cache-silent, candidate_of-silent)

  upsert_cache-silent :
      (source_url : Text) (info : MediaInfo)
      → Keeps (InstantsAre n) (upsert_cache p source_url info)
  unfolding upsert_cache
  upsert_cache-silent source_url info = search bot_rules

  media_or_fetch-silent :
      (detected : DetectedUrl) (cached : Option MediaInfo)
      → Keeps (InstantsAre n) (media_or_fetch p detected cached)
  media_or_fetch-silent detected (some info) = search bot_rules
  media_or_fetch-silent detected none = search (bot_rules, upsert_cache-silent)

  pub analyze_link-silent : (text : Text) → Keeps (InstantsAre n) (analyze_link p text)
  unfolding analyze_link
  analyze_link-silent text = search (bot_rules, cached_media-silent, media_or_fetch-silent) depth 12

  pub offer_options-silent : (result : Analysis) → Keeps (InstantsAre n) (offer_options p result)
  unfolding offer_options
  offer_options-silent result = search bot_rules
