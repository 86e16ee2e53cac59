-- ===== src/Downloader/Guard.antt =====
-- `_guarded` of app/infrastructure/downloader/ytdlp_runner.py, with the breaker on Redis.
use dwtgbot.Base.{
  ℕ, ◌≡◌, refl, ◌∙◌, Bool, true, false, not, ◌&&◌, none, Text, codes, ◌++◌, is_empty, text_eq_refl,
  if◌then◌else◌,
}
use dwtgbot.Redis.{Redis}
use dwtgbot.Errors.{Exc, exc, upstream_unavailable, same_class, Outcome, returned, raised}
use dwtgbot.Limits.Admission.{IsAnswering}
use dwtgbot.Breaker.Calls.{
  BreakerConfig, failures_key, open_key, is_open, held_or_failed, record_success, deleted_or_failed,
  record_failure,
}
use dwtgbot.Downloader.Results.{
  looks_like_throttle, classify_error, classify_error-looks_like_throttle,
}

-- How a call of yt-dlp ends: an answer, the `TimeoutError`, yt-dlp's own error by its text, or any
-- other exception.
pub data Attempt {ℓ} (A : Type ℓ) : Type ℓ where
  answered : A → Attempt A
  timed_out : Exc → Attempt A
  ytdlp_error : Text → Attempt A
  unexpected : Exc → Attempt A

-- The times of the commands on Redis that a guarded call may make.
pub record GuardTimes : Type 0 where
  pub asked : ℕ
  pub noted : ℕ
  pub expired : ℕ
  pub opened : ℕ

module _ {ℓ} {A : Type ℓ} (redis : Redis) (c : BreakerConfig) (lower : Text → Text)
    (wrap_unexpected : Exc → Exc) where
  -- The end of a call that was made; the flag tells that it was.
  unfoldable pub concluded :
      GuardTimes → Bool → Text → Attempt A → redis.Store → Outcome A × Bool × redis.Store
  concluded t tracked host (answered a) r =
      (returned a, true, (if tracked then record_success redis c t.noted host r else r))
  concluded t tracked host (timed_out e) r = (raised e, true, r)
  concluded t tracked host (ytdlp_error text) r = (
    raised (classify_error lower text),
    true,
    (if tracked && looks_like_throttle lower text
        then (record_failure redis c t.noted t.expired t.opened host r).1
        else r),
  )
  concluded t tracked host (unexpected e) r = (raised (wrap_unexpected e), true, r)

  unfoldable pub unless_open :
      GuardTimes → Text → Attempt A → Bool × redis.Store → Outcome A × Bool × redis.Store
  unfolding concluded
  unless_open t host attempt (true, r) =
      (raised (exc upstream_unavailable (codes "breaker open for " ++ host)), false, r)
  unless_open t host attempt (false, r) = concluded t true host attempt r

  -- `_guarded` of a host, with or without a breaker, where the call would end as `attempt`.
  unfoldable pub guarded_call :
      GuardTimes → Bool → Text → Attempt A → redis.Store → Outcome A × Bool × redis.Store
  unfolding unless_open concluded
  guarded_call t has_breaker host attempt r =
      if has_breaker && not (is_empty host)
      then unless_open t host attempt (is_open redis c t.asked host r)
      else concluded t false host attempt r

  -- What a call that was made has done with the store.
  abbrev pub MadeOutcome :
      GuardTimes → Text → Attempt A → redis.Store → Outcome A → redis.Store → Type ℓ
  MadeOutcome t host (answered a) r answer r' =
      (answer ≡ returned a) × (redis.entry (failures_key c host) r' ≡ none)
  MadeOutcome t host (timed_out e) r answer r' = (answer ≡ raised e) × (r' ≡ r)
  MadeOutcome t host (unexpected e) r answer r' = (answer ≡ raised (wrap_unexpected e)) × (r' ≡ r)
  MadeOutcome t host (ytdlp_error text) r answer r' =
      (e : Exc) × (answer ≡ raised e)
      × (r' ≡ (
          if same_class e.cls upstream_unavailable
          then (record_failure redis c t.noted t.expired t.opened host r).1
          else r))

  made :
      (t : GuardTimes) (host : Text) (attempt : Attempt A) (r : redis.Store)
      → IsAnswering redis
      → is_empty host ≡ false
      → let (answer, called, r') = concluded t true host attempt r in
        (called ≡ true) × MadeOutcome t host attempt r answer r'
  unfolding concluded record_success deleted_or_failed
  made t host (answered a) r up named = (
    refl,
    (
      refl,
      rw (named, up t.noted r)
          (redis.delete_entry t.noted (failures_key c host) (failures_key c host) r
            ∙ rw (text_eq_refl (failures_key c host)) refl),
    ),
  )
  made t host (timed_out e) r up named = (refl, (refl, refl))
  made t host (ytdlp_error text) r up named = (
    refl,
    (classify_error lower text, refl, rw (classify_error-looks_like_throttle lower text) refl),
  )
  made t host (unexpected e) r up named = (refl, (refl, refl))

  -- What a guarded call has done, where `rejects` is the breaker's answer.
  abbrev pub GuardOutcome :
      GuardTimes → Text → Attempt A → redis.Store → Bool → Outcome A × Bool × redis.Store → Type ℓ
  GuardOutcome t host attempt r true (answer, called, r') =
      (called ≡ false)
      × (r' ≡ r)
      × (answer ≡ raised (exc upstream_unavailable (codes "breaker open for " ++ host)))
  GuardOutcome t host attempt r false (answer, called, r') =
      (called ≡ true) × MadeOutcome t host attempt r answer r'

  split_open :
      (t : GuardTimes) (host : Text) (attempt : Attempt A) (r : redis.Store) (rejects : Bool)
      → IsAnswering redis
      → is_empty host ≡ false
      → GuardOutcome t host attempt r rejects (unless_open t host attempt (rejects, r))
  unfolding unless_open
  split_open t host attempt r true up named = (refl, refl, refl)
  split_open t host attempt r false up named = made t host attempt r up named

  -- While Redis answers, for a host that has a name: where the breaker is open, yt-dlp is not
  -- called, the store stays and the error is `UpstreamUnavailableError`. Where it is closed, yt-
  -- dlp is called; an answer clears the host's failures, a timeout or an unexpected exception
  -- leaves the store as it is, and an error of yt-dlp counts as a failure exactly where the class
  -- that the caller sees is `UpstreamUnavailableError`.
  pub guarded_call_exact :
      (t : GuardTimes) (host : Text) (attempt : Attempt A) (r : redis.Store)
      → IsAnswering redis
      → is_empty host ≡ false
      → GuardOutcome t host attempt r
          (redis.is_held t.asked (open_key c host) r)
          (guarded_call t true host attempt r)
  unfolding guarded_call is_open held_or_failed
  guarded_call_exact t host attempt r up named =
      rw (named, up t.asked r)
        (split_open t host attempt r (redis.is_held t.asked (open_key c host) r) up named)
