-- ===== src/Bot/Analysis.antt =====
-- app/application/use_cases/analyze_link.py.
use dwtgbot.Base.{Option, none, some, Text, codes, if◌then◌else◌}
use dwtgbot.Errors.{exc, unsupported_platform, Outcome, returned, raised}
use dwtgbot.Exec.{pure, raise, lift, try_, ◌>>=◌, ◌>>◌}
use dwtgbot.Jobs.Entity.{Platform}
use dwtgbot.World.Values.{MediaInfo}
use dwtgbot.Utils.Routing.{DetectedUrl, detect}
use dwtgbot.Process.Phases.{is_stale_youtube_cache}
use dwtgbot.Bot.State.{
  Analysis, BotPorts, BotAction, act, ask, fetch_info, cache_info, save_request,
}

module _ (p : BotPorts) where
  -- `_read_cache`: a failing read counts as a miss.
  abbrev pub or_miss : Outcome (Option Text) → BotAction (Option Text)
  or_miss (returned row) = pure row
  or_miss (raised _) = pure none

  unfoldable pub read_cache : Text → BotAction (Option Text)
  unfolding ask
  read_cache source_url = try_ (ask (λ n. p.get_fresh n source_url)) >>= or_miss

  abbrev pub candidate_of : Platform → Option Text → BotAction (Option MediaInfo)
  candidate_of platform none = pure none
  candidate_of platform (some row) = do
    candidate ← lift (p.info_from_cache row platform)
    if is_stale_youtube_cache candidate then pure none else pure (some candidate)

  unfoldable pub cached_media : DetectedUrl → BotAction (Option MediaInfo)
  unfolding read_cache
  cached_media detected =
      if p.has_cache
      then read_cache detected.normalized >>= candidate_of detected.platform
      else pure none

  -- `_upsert_cache`: a failing write is swallowed.
  unfoldable pub upsert_cache : Text → MediaInfo → BotAction (Unit {0})
  unfolding act
  upsert_cache source_url info =
      try_ (act (cache_info source_url info) (λ n. p.upsert n source_url info)) >> pure tt

  abbrev pub media_or_fetch : DetectedUrl → Option MediaInfo → BotAction MediaInfo
  media_or_fetch detected (some info) = pure info
  media_or_fetch detected none = do
    info ←
        act (fetch_info detected.platform detected.normalized)
          (λ n. p.get_info n detected.platform detected.normalized)
    (if p.has_cache then upsert_cache detected.normalized info else pure tt)
    pure info

  -- `providers.get`.
  abbrev pub with_provider : Platform → BotAction (Unit {0})
  with_provider platform =
      if p.platforms platform
      then pure tt
      else raise (exc unsupported_platform (codes "No provider"))

  -- `AnalyzeLinkUseCase.execute`.
  unfoldable pub analyze_link : Text → BotAction Analysis
  unfolding cached_media upsert_cache act ask
  analyze_link raw_input = do
    detected ← lift (detect p.urls raw_input)
    with_provider detected.platform
    cached ← cached_media detected
    info ← media_or_fetch detected cached
    options ← lift (p.build_options detected.platform info)
    request_id ← ask (λ n. returned (p.token_urlsafe n))
    act (save_request request_id (record { info = info; options = options }))
        (λ n. p.save n request_id (record { info = info; options = options }))
    pure (record { request_id = request_id; analyzed = record { info = info; options = options } })
