-- ===== src/Limits/Gate.antt =====
-- app/infrastructure/cache/redis_rate_limit_gate.py: the script on Redis, and `check`; and
-- `evaluate` of app/application/services/rate_limit.py. Times are in milliseconds.
use dwtgbot.Base.{
  ℕ, ◌+◌, ◌*◌, ◌/◌, Bool, true, false, Option, none, some, List, [], ◌∷◌, ◌++◌, Text, codes,
  decimal, is_empty, ltb, leb, ◌==◌, if◌then◌else◌, max,
}
use dwtgbot.Redis.{Redis}
use dwtgbot.Limits.Window.{
  LimitLayer, user_burst, user_hourly, chat_burst, global_burst, domain_burst, LimitWindow,
  LimitDecision, allow, deny, Windows,
}

-- `math.ceil(ms / 1000)`.
abbrev pub ceil_s : ℕ → ℕ
ceil_s ms = (ms + 999) / 1000

abbrev pub retry_ms : ℕ → Option ℕ → ℕ
retry_ms window_s none = window_s * 1000
retry_ms window_s (some pttl) = if ltb 0 pttl then pttl else window_s * 1000

unfoldable pub decide : LimitWindow → Bool × Option ℕ → LimitDecision
decide w (true, pttl) = allow
decide w (false, pttl) = deny w.layer (max 1 (ceil_s (retry_ms w.window_s pttl)))

abbrev pub on_failure : Bool → LimitDecision
on_failure true = allow
on_failure false = deny global_burst 60

module _ (redis : Redis) where
  -- `_LUA_INCR_AND_CHECK`: whether the request is within the limit, and the time left.
  unfoldable pub incr_and_check : ℕ → Text → ℕ → ℕ → redis.Store → (Bool × Option ℕ) × redis.Store
  incr_and_check now key limit window_s r =
      let (current, r') = redis.incr now key r in
      let r'' = if current == 1 then redis.expire now key window_s r' else r' in
      ((leb current limit, redis.pttl now key r''), r'')

  unfoldable pub checked :
      Bool → ℕ → Text → LimitWindow → redis.Store → Option redis.Store → LimitDecision × redis.Store
  unfolding incr_and_check decide
  checked fail_open now key w r (some r') = (on_failure fail_open, r')
  checked fail_open now key w r none =
      let (raw, r') = incr_and_check now key w.limit w.window_s r in (decide w raw, r')

  -- `RedisRateLimitGate.check`.
  unfoldable pub check : Bool → ℕ → Text → LimitWindow → redis.Store → LimitDecision × redis.Store
  unfolding checked
  check fail_open now key w r = checked fail_open now key w r (redis.call_fails now r)

  -- The loop of `evaluate`, each check at its own time.
  unfoldable pub first_denial :
      Bool → (ℕ → ℕ) → ℕ → List (Text × LimitWindow) → redis.Store → LimitDecision × redis.Store
  unfolding check
  first_denial fail_open clock n [] r = (allow, r)
  first_denial fail_open clock n ((key, w) ∷ layers) r =
      let (decision, r') = check fail_open (clock n) key w r in
      let rest = first_denial fail_open clock (n + 1) layers r' in
      if decision.allowed then rest else (decision, r')

-- The tuple's layer with the limit and the window of the settings.
abbrev layered : LimitLayer → LimitWindow → LimitWindow
layered layer w = record w { layer = layer }

-- The check that only a message with a domain has.
unfoldable pub domain_check : Option Text → Windows → List (Text × LimitWindow)
domain_check none windows = []
domain_check (some d) windows =
    if is_empty d
    then []
    else (
      codes "rl:domain:" ++ (d ++ codes ":burst"),
      layered domain_burst windows.domain_burst_window,
    )
      ∷ []

-- `checks`, in their order.
unfoldable pub layers_of : ℕ → ℕ → Option Text → Windows → List (Text × LimitWindow)
unfolding decimal domain_check
layers_of user_id chat_id domain windows =
    let user = codes "rl:user:" ++ decimal user_id in
    (user ++ codes ":burst", layered user_burst windows.user_burst_window)
    ∷ (user ++ codes ":hourly", layered user_hourly windows.user_hourly_window)
    ∷ (
      codes "rl:chat:" ++ (decimal chat_id ++ codes ":burst"),
      layered chat_burst windows.chat_burst_window,
    )
    ∷ (codes "rl:global:burst", layered global_burst windows.global_burst_window)
    ∷ domain_check domain windows

module _ (redis : Redis) where
  unfoldable pub evaluate :
      Bool → (ℕ → ℕ) → ℕ → ℕ → Option Text → Windows → redis.Store → LimitDecision × redis.Store
  unfolding first_denial layers_of
  evaluate fail_open clock user_id chat_id domain windows r =
      first_denial redis fail_open clock 0 (layers_of user_id chat_id domain windows) r
