-- ===== src/Limits/Layers.antt =====
-- The layers of `evaluate` (app/application/services/rate_limit.py): which of them decides, by the
-- counts that Redis has at the start.
use dwtgbot.Base.{
  sym, ℕ, ◌+◌, ◌≡◌, refl, ◌∙◌, ◌⊎◌, inl, inr, Bool, true, false, Option, none, some, List, [], ◌∷◌,
  Text, text_eq, leb, ltb, ◌==◌, ◌||◌, if◌then◌else◌, any, Bool-cases, arith,
}
use mathlib.Core.Path.{subst}
use dwtgbot.Limits.Window.{LimitLayer, LimitWindow, LimitDecision, allow, Windows}
use dwtgbot.Redis.{live_at, incremented_entry, Redis}
use dwtgbot.Limits.Gate.{incr_and_check, decide, first_denial, layers_of, evaluate}
use dwtgbot.Limits.Keys.{ordered_layers, layers_of-ordered_layers, AreOther, AreApart, layers_apart}
use dwtgbot.Limits.Admission.{IsAnswering, check_script}

either_key : {E : Type 0} (b rest : Bool) → (b ≡ false → (rest ≡ true) ⊎ E) → (b || rest ≡ true) ⊎ E
either_key true rest h = inl refl
either_key false rest h = h refl

above_limit : (a b : ℕ) → ltb b a ≡ true → leb a b ≡ false
above_limit a b h = ground arith

within_limit : (a b : ℕ) → ltb b a ≡ false → leb a b ≡ true
within_limit a b h = ground arith

decide_denied_layer :
    (w : LimitWindow) (ok : Bool) (pttl : Option ℕ)
    → ok ≡ false
    → ((decide w (ok, pttl)).allowed ≡ false) × ((decide w (ok, pttl)).layer ≡ some w.layer)
unfolding decide
decide_denied_layer w true pttl h = absurd (cc)
decide_denied_layer w false pttl h = (refl, refl)

decide_ok :
    (w : LimitWindow) (ok : Bool) (pttl : Option ℕ) → ok ≡ true → decide w (ok, pttl) ≡ allow
unfolding decide
decide_ok w true pttl h = refl
decide_ok w false pttl h = absurd (cc)

module _ (redis : Redis) where
  -- The script's answer, and the keys that it leaves.
  script_count :
      (now : ℕ) (key : Text) (limit window_s : ℕ) (r : redis.Store)
      → (incr_and_check redis now key limit window_s r).0.0
        ≡ leb (incremented_entry (live_at now (redis.entry key r))).0 limit
  unfolding incr_and_check
  script_count now key limit window_s r = rw (redis.incr_answer now key r) refl

  script_apart :
      (now : ℕ) (key j : Text) (limit window_s : ℕ) (r : redis.Store)
      → text_eq j key ≡ false
      → redis.entry j (incr_and_check redis now key limit window_s r).1 ≡ redis.entry j r
  unfolding incr_and_check
  script_apart now key j limit window_s r apart =
      let (n, r1) = redis.incr now key r in
      let counted : redis.entry j r1 ≡ redis.entry j r =
        redis.incr_entry now key j r ∙ rw apart refl in
      elim (Bool-cases (n == 1)) [
        | inr later ↦ rw later counted
        | inl first ↦ rw first (redis.expire_entry now key j window_s r1 ∙ rw apart counted)
      ]

module _ (redis : Redis) (clock : ℕ → ℕ) where
  -- Whether the count of the layer's key, raised by one, is above the layer's limit at the time of
  -- this check.
  abbrev pub is_over : ℕ → Text × LimitWindow → redis.Store → Bool
  is_over n (key, w) r = ltb w.limit (incremented_entry (live_at (clock n) (redis.entry key r))).0

  abbrev pub first_over : ℕ → List (Text × LimitWindow) → redis.Store → Option LimitLayer
  first_over n [] r = none
  first_over n (x ∷ layers) r =
      if is_over n x r then some x.1.layer else first_over (n + 1) layers r

  -- The keys of the layers up to the first that is over its limit.
  abbrev pub counted_keys : ℕ → List (Text × LimitWindow) → redis.Store → List Text
  counted_keys n [] r = []
  counted_keys n (x ∷ layers) r =
      x.0 ∷ (if is_over n x r then [] else counted_keys (n + 1) layers r)

  -- The decision is that of the layer, if one is over its limit, and only the keys have changed.
  abbrev pub IsDecided :
      Option LimitLayer → List Text → redis.Store → LimitDecision × redis.Store → Type 0
  IsDecided over keys r (decision, r') =
      elim over [
        | none ↦ decision ≡ allow
        | some layer ↦ (decision.allowed ≡ false) × (decision.layer ≡ some layer)
      ]
      × ((j : Text) → (any (text_eq j) keys ≡ true) ⊎ (redis.entry j r' ≡ redis.entry j r))

  abbrev pub LayersOutcome :
      ℕ → List (Text × LimitWindow) → redis.Store → LimitDecision × redis.Store → Type 0
  LayersOutcome n layers r = IsDecided (first_over n layers r) (counted_keys n layers r) r

  -- A layer within its limit leaves the decision to the others.
  passed_on :
      (b : Bool) (layer : LimitLayer) (over : Option LimitLayer) (key : Text) (keys : List Text)
      (r r1 : redis.Store) (o o' : LimitDecision × redis.Store)
      → b ≡ false
      → ((j : Text) → text_eq j key ≡ false → redis.entry j r1 ≡ redis.entry j r)
      → o ≡ o'
      → IsDecided over keys r1 o'
      → IsDecided (if b then some layer else over) (key ∷ (if b then [] else keys)) r o
  passed_on true layer over key keys r r1 o o' h kept e decided = absurd (cc)
  passed_on false layer over key keys r r1 o o' h kept e (decision, others) =
      subst (IsDecided over (key ∷ keys) r) (sym e) (
        decision,
        λ j. either_key (text_eq j key) (any (text_eq j) keys) (λ other. elim (others j) [
          | inl counted ↦ inl counted
          | inr same ↦ inr (same ∙ kept j other)
        ]),
      )

  other_head :
      (k key : Text) (w : LimitWindow) (layers : List (Text × LimitWindow))
      → AreOther key ((k, w) ∷ layers)
      → (text_eq k key ≡ false) × AreOther key layers
  other_head k key w layers h = ground arith

  same_over :
      (n : ℕ) (key : Text) (layers : List (Text × LimitWindow)) (r r1 : redis.Store)
      → AreOther key layers
      → ((j : Text) → text_eq j key ≡ false → redis.entry j r1 ≡ redis.entry j r)
      → (first_over n layers r1 ≡ first_over n layers r)
        × (counted_keys n layers r1 ≡ counted_keys n layers r)
  same_over n key [] r r1 other same = (refl, refl)
  same_over n key ((k, w) ∷ layers) r r1 other same =
      let (here, there) = other_head k key w layers other in
      let (a, b) = same_over (n + 1) key layers r r1 there same in
      rw (same k here, a, b) (refl, refl)

  module _ (fail_open : Bool) (up : IsAnswering redis) where
    layers_lem :
        (n : ℕ) (layers : List (Text × LimitWindow)) (r : redis.Store)
        → AreApart layers
        → LayersOutcome n layers r (first_denial redis fail_open clock n layers r)
    unfolding first_denial
    layers_lem n [] r h = (refl, λ j. inr refl)
    layers_lem n ((key, w) ∷ layers) r (other, apart) =
        let ran = check_script redis fail_open (clock n) key w r up in
        let raw = (incr_and_check redis (clock n) key w.limit w.window_s r).0 in
        let r1 = (incr_and_check redis (clock n) key w.limit w.window_s r).1 in
        let answer = script_count redis (clock n) key w.limit w.window_s r in
        let kept = λ (j : Text) (h : text_eq j key ≡ false).
          script_apart redis (clock n) key j w.limit w.window_s r h in
        elim (Bool-cases (is_over n (key, w) r)) [
          | inl over ↦
              let denied =
                decide_denied_layer w raw.0 raw.1 (answer ∙ above_limit _ w.limit over) in
              rw (over, ran, denied.0)
                (denied, λ j. either_key (text_eq j key) false (λ h. inr (kept j h)))
          | inr within ↦
              let passed = decide_ok w raw.0 raw.1 (answer ∙ within_limit _ w.limit within) in
              let ih = layers_lem (n + 1) layers r1 apart in
              let (a, b) = same_over (n + 1) key layers r r1 other kept in
              let rest = first_denial redis fail_open clock (n + 1) layers r1 in
              let step : first_denial redis fail_open clock n ((key, w) ∷ layers) r ≡ rest =
                rw (ran, passed) refl in
              passed_on (is_over n (key, w) r) w.layer _ key _ r r1 _ rest within kept step
                (rw (a, b) at ih)
        ]

-- While Redis answers, `evaluate` allows a request exactly when no layer's count, raised by one, is
-- above its limit, in the order user burst, user hourly, chat, global, domain; else it denies it by
-- the first layer whose count is. No counter is touched but those of the layers up to that one.
pub evaluate_exact :
    (redis : Redis) (fail_open : Bool) (clock : ℕ → ℕ) (user_id chat_id : ℕ) (domain : Option Text)
    (windows : Windows) (r : redis.Store)
    → IsAnswering redis
    → LayersOutcome redis clock 0
        (ordered_layers user_id chat_id domain windows)
        r
        (evaluate redis fail_open clock user_id chat_id domain windows r)
unfolding evaluate
evaluate_exact redis fail_open clock user_id chat_id domain windows r up =
    let decided =
      layers_lem redis clock fail_open up 0 (layers_of user_id chat_id domain windows) r
        (layers_apart user_id chat_id domain windows) in
    subst
      (λ l.
        LayersOutcome redis clock 0 l r
          (evaluate redis fail_open clock user_id chat_id domain windows r))
      (layers_of-ordered_layers user_id chat_id domain windows) decided
