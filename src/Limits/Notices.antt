-- ===== src/Limits/Notices.antt =====
-- The notice throttles: `InMemoryNoticeThrottle` of app/application/services/rate_limit.py and
-- app/infrastructure/cache/redis_notice_throttle.py.
use dwtgbot.Base.{
  ℕ, ◌+◌, ◌-◌, ◌*◌, ◌<◌, ◌≡◌, refl, ap, ◌∙◌, inl, inr, Bool, true, false, Option, none, some, List,
  [], ◌∷◌, ◌++◌, Text, text_eq, text_eq_refl, text_eq→eq, is_some, ltb, arith, Bool-cases,
  if◌then◌else◌,
}
use dwtgbot.Redis.{Redis, Entry, live_at, claimed}
use dwtgbot.Limits.Admission.{IsAnswering}

-- `_seen_at`, a dictionary whose newest entry of a key counts. Times are in milliseconds.
abbrev pub Seen : Type 0
Seen = List (Text × ℕ)

abbrev pub seen_at : Text → Seen → Option ℕ
seen_at key [] = none
seen_at key ((k, at) ∷ seen) = if text_eq key k then some at else seen_at key seen

abbrev is_recent : ℕ → ℕ → Option ℕ → Bool
is_recent now ttl_s none = false
is_recent now ttl_s (some last) = ltb (now - last) (ttl_s * 1000)

-- `InMemoryNoticeThrottle.should_notify`.
unfoldable pub should_notify : ℕ → Text → ℕ → Seen → Bool × Seen
should_notify now scope_key ttl_s seen =
    if is_recent now ttl_s (seen_at scope_key seen)
    then (false, seen)
    else (true, (scope_key, now) ∷ seen)

module _ (redis : Redis) (key_prefix : Text) where
  unfoldable pub claim_or_failed :
      ℕ → Text → ℕ → redis.Store → Option redis.Store → Bool × redis.Store
  claim_or_failed now scope_key ttl_s r (some r') = (true, r')
  claim_or_failed now scope_key ttl_s r none = redis.set_nx now (key_prefix ++ scope_key) ttl_s r

  -- `RedisNoticeThrottle.should_notify`.
  unfoldable pub claims : ℕ → Text → ℕ → redis.Store → Bool × redis.Store
  unfolding claim_or_failed
  claims now scope_key ttl_s r = claim_or_failed now scope_key ttl_s r (redis.call_fails now r)

  -- The answers of a sequence of calls, by their times and keys.
  unfoldable pub claimed_answers : ℕ → List (ℕ × Text) → redis.Store → List Bool
  unfolding claims
  claimed_answers ttl_s [] r = []
  claimed_answers ttl_s ((now, key) ∷ calls) r =
      let (answer, r') = claims now key ttl_s r in answer ∷ claimed_answers ttl_s calls r'

unfoldable pub notify_answers : ℕ → List (ℕ × Text) → Seen → List Bool
unfolding should_notify
notify_answers ttl_s [] seen = []
notify_answers ttl_s ((now, key) ∷ calls) seen =
    let (answer, seen') = should_notify now key ttl_s seen in
    answer ∷ notify_answers ttl_s calls seen'

text_eq-append : (p s t : Text) → text_eq (p ++ s) (p ++ t) ≡ text_eq s t
text_eq-append [] s t = refl
text_eq-append (c ∷ p) s t = ground (arith, text_eq-append p s t)

text_eq_flip : (s t : Text) → text_eq s t ≡ false → text_eq t s ≡ false
text_eq_flip [] [] h = h
text_eq_flip [] (_ ∷ _) h = refl
text_eq_flip (_ ∷ _) [] h = refl
text_eq_flip (a ∷ s) (b ∷ t) h = ground (arith, text_eq_flip s t)

abbrev pub until : ℕ → Option ℕ → Entry
until ttl_s none = none
until ttl_s (some last) = some (1, some (last + ttl_s * 1000))

held_until_recent :
    (now ttl_s : ℕ) (o : Option ℕ)
    → 0 < ttl_s
    → is_some (live_at now (until ttl_s o)) ≡ is_recent now ttl_s o
held_until_recent now ttl_s none pos = refl
held_until_recent now ttl_s (some last) pos = ground arith

claimed-until_recent :
    (now ttl_s : ℕ) (o : Option ℕ)
    → 0 < ttl_s
    → claimed (now + ttl_s * 1000) (live_at now (until ttl_s o))
      ≡ until ttl_s (if is_recent now ttl_s o then o else some now)
claimed-until_recent now ttl_s none pos = refl
claimed-until_recent now ttl_s (some last) pos = ground arith

module _ (redis : Redis) (key_prefix : Text) (ttl_s : ℕ) (up : IsAnswering redis)
    (pos : 0 < ttl_s) where
  -- The store holds of every scope what the dictionary holds.
  abbrev Holds : redis.Store → Seen → Type 0
  Holds r seen = (key : Text) → redis.entry (key_prefix ++ key) r ≡ until ttl_s (seen_at key seen)

  seen_until :
      (now : ℕ) (other key : Text) (seen : Seen)
      → 0 < ttl_s
      → (if text_eq other key
          then claimed (now + ttl_s * 1000) (live_at now (until ttl_s (seen_at key seen)))
          else until ttl_s (seen_at other seen))
        ≡ until ttl_s (seen_at other (should_notify now key ttl_s seen).1)
  unfolding should_notify
  seen_until now other key seen pos = elim (Bool-cases (text_eq other key)) [
    | inl e ↦
        rw (e, text_eq→eq other key e)
          (claimed-until_recent now ttl_s (seen_at key seen) pos
            ∙ ap (until ttl_s) (elim (Bool-cases (is_recent now ttl_s (seen_at key seen))) [
              | inl r ↦ rw r refl
              | inr r ↦ rw r (ground (arith, text_eq_refl key))
            ]))
    | inr e ↦ rw e (
        ap (until ttl_s) (elim (Bool-cases (is_recent now ttl_s (seen_at key seen))) [
          | inl r ↦ rw r refl
          | inr r ↦ rw r (ground (arith, text_eq_flip other key e))
        ]))
  ]

  claim_lem :
      (now : ℕ) (key : Text) (r : redis.Store) (seen : Seen)
      → Holds r seen
      → let (answer, r') = claims redis key_prefix now key ttl_s r in
        let (answer', seen') = should_notify now key ttl_s seen in
        (answer ≡ answer') × Holds r' seen'
  unfolding claims claim_or_failed should_notify
  claim_lem now key r seen h =
      let o = seen_at key seen in
      let k = key_prefix ++ key in
      rw (up now r) (
        redis.set_answer now k ttl_s r
            ∙ rw (h key, held_until_recent now ttl_s o pos)
                (elim (Bool-cases (is_recent now ttl_s o)) [
                  | inl e ↦ rw e refl
                  | inr e ↦ rw e refl
                ]),
        λ other.
            redis.set_entry now k (key_prefix ++ other) ttl_s r
            ∙ rw (text_eq-append key_prefix other key, h key, h other)
                (seen_until now other key seen pos),
      )

  answers_agree :
      (calls : List (ℕ × Text)) (r : redis.Store) (seen : Seen)
      → Holds r seen
      → claimed_answers redis key_prefix ttl_s calls r ≡ notify_answers ttl_s calls seen
  unfolding claimed_answers notify_answers
  answers_agree [] r seen h = refl
  answers_agree ((now, key) ∷ calls) r seen h =
      let (same, h') = claim_lem now key r seen h in
      ap
        (λ (b : Bool).
          b
          ∷ claimed_answers redis key_prefix ttl_s calls
              (claims redis key_prefix now key ttl_s r).1)
        same
      ∙ ap (λ (l : List Bool). (should_notify now key ttl_s seen).0 ∷ l)
          (answers_agree calls _ _ h')

-- While Redis answers, and with one TTL of at least a second, the throttle on Redis gives every
-- sequence of calls, at any times and under any keys, the answers of the throttle in memory: both
-- start with none of the scopes held.
pub claimed_answers-notify_answers :
    (redis : Redis) (key_prefix : Text) (ttl_s : ℕ) (calls : List (ℕ × Text)) (r : redis.Store)
    → IsAnswering redis
    → 0 < ttl_s
    → ((key : Text) → redis.entry (key_prefix ++ key) r ≡ none)
    → claimed_answers redis key_prefix ttl_s calls r ≡ notify_answers ttl_s calls []
claimed_answers-notify_answers redis key_prefix ttl_s calls r up pos free =
    answers_agree redis key_prefix ttl_s up pos calls r [] free
