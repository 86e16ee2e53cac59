-- ===== src/Limits/Admission.antt =====
-- How many requests a window of the gate admits, and what a denied one is told.
use dwtgbot.Base.{
  ℕ, suc, ◌+◌, ◌-◌, ◌*◌, ◌≤◌, ◌<◌, ◌≡◌, refl, ◌∙◌, ap, Bool, true, false, Option, none, some, List,
  [], ◌∷◌, Text, text_eq_refl, leb, ◌==◌, if◌then◌else◌, min, length, arith,
}
use dwtgbot.Limits.Window.{LimitWindow, deny}
use dwtgbot.Redis.{Entry, live_at, incremented_entry, time_left, Redis}
use dwtgbot.Limits.Gate.{incr_and_check, ceil_s, decide, checked, check}

live_before : (now n e : ℕ) → now < e → live_at now (some (n, some e)) ≡ some (n, some e)
live_before now n e h = ground arith

module _ (redis : Redis) where
  abbrev pub IsAnswering : Type 0
  IsAnswering = (now : ℕ) (r : redis.Store) → redis.call_fails now r ≡ none

  -- The checks of one key at these times: how many are admitted, and the store behind them.
  unfoldable pub admitted : Bool → Text → LimitWindow → List ℕ → redis.Store → ℕ × redis.Store
  unfolding check
  admitted fail_open key w [] r = (0, r)
  admitted fail_open key w (now ∷ times) r =
      let (decision, r') = check redis fail_open now key w r in
      let (n, r'') = admitted fail_open key w times r' in
      ((if decision.allowed then 1 else 0) + n, r'')

  abbrev pub AllBefore : ℕ → List ℕ → Type 0
  AllBefore e [] = Unit
  AllBefore e (t ∷ times) = (t < e) × AllBefore e times

  pub check_script :
      (fail_open : Bool) (now : ℕ) (key : Text) (w : LimitWindow) (r : redis.Store)
      → IsAnswering
      → let (raw, r') = incr_and_check redis now key w.limit w.window_s r in
        check redis fail_open now key w r ≡ (decide w raw, r')
  unfolding check checked
  check_script fail_open now key w r up = rw (up now r) refl

  decide_allowed :
      (w : LimitWindow) (ok : Bool) (pttl : Option ℕ) → (decide w (ok, pttl)).allowed ≡ ok
  unfolding decide
  decide_allowed w true pttl = refl
  decide_allowed w false pttl = refl

  answer_of :
      (now : ℕ) (key : Text) (r : redis.Store) (e : Entry)
      → live_at now (redis.entry key r) ≡ e
      → let (n, r') = redis.incr now key r in
        (n ≡ (incremented_entry e).0) × (redis.entry key r' ≡ some (incremented_entry e))
  answer_of now key r e h = (
    redis.incr_answer now key r ∙ rw h refl,
    redis.incr_entry now key key r ∙ rw (text_eq_refl key, h) refl,
  )

  -- What the script does to a window that counts already.
  script_live :
      (now n e limit window_s : ℕ) (key : Text) (r : redis.Store)
      → redis.entry key r ≡ some (n, some e)
      → now < e
      → 0 < n
      → let (raw, r') = incr_and_check redis now key limit window_s r in
        (raw ≡ (leb (n + 1) limit, some (e - now))) × (redis.entry key r' ≡ some (n + 1, some e))
  unfolding incr_and_check
  script_live now n e limit window_s key r found before pos =
      let r1 = (redis.incr now key r).1 in
      let (answer, stored) =
        answer_of now key r (some (n, some e)) (rw found (live_before now n e before)) in
      let left : redis.pttl now key r1 ≡ some (e - now) =
        redis.pttl_answer now key r1
        ∙ rw stored (ap (time_left now) (live_before now (n + 1) e before)) in
      let counting : (n + 1 == 1) ≡ false = ground arith in
      (rw (answer, counting, left) refl, rw (answer, counting) stored)

  -- And to one that has ended or never began.
  script_fresh :
      (now limit window_s : ℕ) (key : Text) (r : redis.Store)
      → live_at now (redis.entry key r) ≡ none
      → let (raw, r') = incr_and_check redis now key limit window_s r in
        (raw.0 ≡ leb 1 limit) × (redis.entry key r' ≡ some (1, some (now + window_s * 1000)))
  unfolding incr_and_check
  script_fresh now limit window_s key r ended =
      let r1 = (redis.incr now key r).1 in
      let (answer, stored) = answer_of now key r none ended in
      (
        rw answer refl,
        rw answer (redis.expire_entry now key key window_s r1 ∙ rw (text_eq_refl key, stored) refl),
      )

  counting_window :
      (fail_open : Bool) (key : Text) (w : LimitWindow) (n e : ℕ) (times : List ℕ) (r : redis.Store)
      → IsAnswering
      → redis.entry key r ≡ some (n, some e)
      → 0 < n
      → AllBefore e times
      → (admitted fail_open key w times r).0 ≡ min (length times) (w.limit - n)
  unfolding admitted
  counting_window fail_open key w n e [] r up found pos before = omega arith
  counting_window fail_open key w n e (now ∷ times) r up found pos (b, before) =
      let raw = (incr_and_check redis now key w.limit w.window_s r).0 in
      let r' = (incr_and_check redis now key w.limit w.window_s r).1 in
      let (verdict, stored) = script_live now n e w.limit w.window_s key r found b pos in
      let rest =
        counting_window fail_open key w (n + 1) e times r' up stored (omega arith) before in
      rw
        (
          check_script fail_open now key w r up,
          decide_allowed w raw.0 raw.1,
          ap (λ x. x.0) verdict,
          rest,
        )
        (ground arith)

ceil_bounds : (ms : ℕ) → (ms ≤ ceil_s ms * 1000) × (ceil_s ms * 1000 < ms + 1000)
ceil_bounds ms = (omega arith, omega arith)

-- While Redis answers, of any checks of a key that fall within one window the first `limit` are
-- admitted and no other: the window begins with the first check, on a key that no longer counts,
-- and lasts `window_s` seconds.
pub admitted_exact :
    (redis : Redis) (fail_open : Bool) (key : Text) (w : LimitWindow) (begin : ℕ) (times : List ℕ)
    (r : redis.Store)
    → IsAnswering redis
    → live_at begin (redis.entry key r) ≡ none
    → AllBefore redis (begin + w.window_s * 1000) times
    → (admitted redis fail_open key w (begin ∷ times) r).0 ≡ min (suc (length times)) w.limit
unfolding admitted
admitted_exact redis fail_open key w begin times r up ended before =
    let raw = (incr_and_check redis begin key w.limit w.window_s r).0 in
    let r' = (incr_and_check redis begin key w.limit w.window_s r).1 in
    let (verdict, stored) = script_fresh redis begin w.limit w.window_s key r ended in
    let rest =
      counting_window redis fail_open key w 1 (begin + w.window_s * 1000) times r' up stored
        (omega arith) before in
    rw
      (
        check_script redis fail_open begin key w r up,
        decide_allowed redis w raw.0 raw.1,
        verdict,
        rest,
      )
      (ground arith)

decide_denied :
    (w : LimitWindow) (ms : ℕ) → 0 < ms → decide w (false, some ms) ≡ deny w.layer (ceil_s ms)
unfolding decide
decide_denied w ms h = ground (arith, ceil_bounds ms)

-- A denied request is told to wait for the end of the window, rounded up to seconds: while a
-- window that already counts its limit runs until `e`, the decision is a denial of the layer whose
-- wait of at least one second ends at `e` or less than a second behind it, and the key counts
-- nothing any more then.
pub retry_after_exact :
    (redis : Redis) (fail_open : Bool) (key : Text) (w : LimitWindow) (now n e : ℕ)
    (r : redis.Store)
    → IsAnswering redis
    → redis.entry key r ≡ some (n, some e)
    → now < e
    → 0 < n
    → w.limit ≤ n
    → let (decision, r') = check redis fail_open now key w r in
      let later = now + decision.retry_after_s * 1000 in
      (decision.allowed ≡ false)
      × (decision.layer ≡ some w.layer)
      × (1 ≤ decision.retry_after_s)
      × (e ≤ later)
      × (later < e + 1000)
      × (live_at later (redis.entry key r') ≡ none)
retry_after_exact redis fail_open key w now n e r up found before pos full =
    let over : leb (n + 1) w.limit ≡ false = ground arith in
    let wait = ceil_bounds (e - now) in
    let (verdict, stored) = script_live redis now n e w.limit w.window_s key r found before pos in
    rw
      (
        check_script redis fail_open now key w r up,
        verdict,
        over,
        decide_denied w (e - now) (omega arith),
        stored,
      )
      (
        refl,
        refl,
        ground (arith, wait),
        ground (arith, wait),
        ground (arith, wait),
        ground (arith, wait),
      )
