-- ===== src/Breaker/Effects.antt =====
-- What the breaker's calls touch, and what a lost command leaves behind.
use dwtgbot.Base.{
  ℕ, ◌≡◌, ◌≢◌, refl, ◌∙◌, inl, inr, false, Option, none, some, Text, is_empty, text_eq_refl, leb,
  ◌==◌, Bool-cases,
}
use dwtgbot.Redis.{Redis}
use dwtgbot.Limits.Admission.{IsAnswering}
use dwtgbot.Breaker.Calls.{
  BreakerConfig, open_key, failures_key, deleted_or_failed, record_success, opened_or_failed,
  open_at, expired_or_failed, windowed, counted_or_failed, finish_failure, record_failure,
}
use dwtgbot.Breaker.Hosts.{
  open_key-failures_key, failures_key-open_key, open_key_apart, failures_key_apart,
}

module _ (redis : Redis) (c : BreakerConfig) (host' : Text) where
  -- The other host's two keys hold the same in both stores.
  abbrev pub SameKeys : redis.Store → redis.Store → Type 0
  SameKeys r r' =
      (redis.entry (failures_key c host') r' ≡ redis.entry (failures_key c host') r)
      × (redis.entry (open_key c host') r' ≡ redis.entry (open_key c host') r)

  SameKeys-trans : (r r1 r2 : redis.Store) → SameKeys r r1 → SameKeys r1 r2 → SameKeys r r2
  SameKeys-trans r r1 r2 (a, b) (a', b') = (a' ∙ a, b' ∙ b)

module _ (redis : Redis) (c : BreakerConfig) (host host' : Text) (other : host' ≢ host) where
  success-SameKeys :
      (now : ℕ) (r : redis.Store)
      → IsAnswering redis
      → SameKeys redis c host' r (record_success redis c now host r)
  unfolding record_success deleted_or_failed
  success-SameKeys now r up = elim (Bool-cases (is_empty host)) [
    | inl none_named ↦ rw none_named (refl, refl)
    | inr named ↦
        let fk = failures_key c host in
        rw (named, up now r)
          (
            redis.delete_entry now fk (failures_key c host') r
                ∙ rw (failures_key_apart c host' host other) refl,
            redis.delete_entry now fk (open_key c host') r
                ∙ rw (open_key-failures_key c host' host) refl,
          )
  ]

  windowed-SameKeys :
      (t1 n : ℕ) (r : redis.Store)
      → IsAnswering redis
      → SameKeys redis c host' r (windowed redis c t1 host n r).1
  unfolding windowed expired_or_failed
  windowed-SameKeys t1 n r up = elim (Bool-cases (n == 1)) [
    | inr later ↦ rw later (refl, refl)
    | inl first ↦
        let fk = failures_key c host in
        rw (first, up t1 r)
          (
            redis.expire_entry t1 fk (failures_key c host') c.window_seconds r
                ∙ rw (failures_key_apart c host' host other) refl,
            redis.expire_entry t1 fk (open_key c host') c.window_seconds r
                ∙ rw (open_key-failures_key c host' host) refl,
          )
  ]

  open_at-SameKeys :
      (t2 n : ℕ) (r : redis.Store)
      → IsAnswering redis
      → SameKeys redis c host' r (open_at redis c t2 host n r)
  unfolding open_at opened_or_failed
  open_at-SameKeys t2 n r up = elim (Bool-cases (leb c.failure_threshold n)) [
    | inr few ↦ rw few (refl, refl)
    | inl many ↦
        let ok = open_key c host in
        rw (many, up t2 r)
          (
            redis.set_entry t2 ok (failures_key c host') c.cooldown_seconds r
                ∙ rw (failures_key-open_key c host' host) refl,
            redis.set_entry t2 ok (open_key c host') c.cooldown_seconds r
                ∙ rw (open_key_apart c host' host other) refl,
          )
  ]

  incr-SameKeys :
      (t0 : ℕ) (r : redis.Store)
      → SameKeys redis c host' r (redis.incr t0 (failures_key c host) r).1
  incr-SameKeys t0 r =
      let fk = failures_key c host in
      (
        redis.incr_entry t0 fk (failures_key c host') r
            ∙ rw (failures_key_apart c host' host other) refl,
        redis.incr_entry t0 fk (open_key c host') r ∙ rw (open_key-failures_key c host' host) refl,
      )

  finish-SameKeys :
      (t2 : ℕ) (counted : Option ℕ) (r : redis.Store)
      → IsAnswering redis
      → SameKeys redis c host' r (finish_failure redis c t2 host (counted, r)).1
  unfolding finish_failure
  finish-SameKeys t2 none r up = (refl, refl)
  finish-SameKeys t2 (some n) r up = open_at-SameKeys t2 n r up

  counted-SameKeys :
      (t0 t1 : ℕ) (r : redis.Store)
      → IsAnswering redis
      → SameKeys redis c host' r (counted_or_failed redis c t0 t1 host r none).1
  unfolding counted_or_failed
  counted-SameKeys t0 t1 r up =
      let (n, r1) = redis.incr t0 (failures_key c host) r in
      SameKeys-trans redis c host' r r1 _ (incr-SameKeys t0 r) (windowed-SameKeys t1 n r1 up)

-- While Redis answers, no call for a host changes what the store holds for another host.
pub hosts_apart :
    (redis : Redis) (c : BreakerConfig) (host host' : Text) (t0 t1 t2 : ℕ) (r : redis.Store)
    → IsAnswering redis
    → host' ≢ host
    → SameKeys redis c host' r (record_success redis c t0 host r)
      × SameKeys redis c host' r (record_failure redis c t0 t1 t2 host r).1
unfolding record_failure
hosts_apart redis c host host' t0 t1 t2 r up other = (
  success-SameKeys redis c host host' other t0 r up,
  elim (Bool-cases (is_empty host)) [
    | inl none_named ↦ rw none_named (refl, refl)
    | inr named ↦
        let (n, r2) = counted_or_failed redis c t0 t1 host r none in
        rw (named, up t0 r)
          (SameKeys-trans redis c host' r r2 _
            (counted-SameKeys redis c host host' other t0 t1 r up)
            (finish-SameKeys redis c host host' other t2 n r2 up))
  ],
)

-- Where the `EXPIRE` behind a host's first failure is lost and the store is as the `INCR` left it,
-- the call answers 0 and the count has no end: a failure at any later time is counted as the
-- second one.
pub lost_expiry :
    (redis : Redis) (c : BreakerConfig) (host : Text) (t0 t1 t2 later : ℕ) (r : redis.Store)
    → is_empty host ≡ false
    → redis.entry (failures_key c host) r ≡ none
    → redis.call_fails t0 r ≡ none
    → (let r1 = (redis.incr t0 (failures_key c host) r).1 in redis.call_fails t1 r1 ≡ some r1)
    → let (answer, r') = record_failure redis c t0 t1 t2 host r in
      (answer ≡ 0) × ((redis.incr later (failures_key c host) r').0 ≡ 2)
unfolding record_failure counted_or_failed windowed expired_or_failed finish_failure
lost_expiry redis c host t0 t1 t2 later r named empty up lost =
    let fk = failures_key c host in
    let r1 = (redis.incr t0 fk r).1 in
    let one : (redis.incr t0 fk r).0 ≡ 1 = redis.incr_answer t0 fk r ∙ rw empty refl in
    let stored : redis.entry fk r1 ≡ some (1, none) =
      redis.incr_entry t0 fk fk r ∙ rw (text_eq_refl fk, empty) refl in
    let runs : record_failure redis c t0 t1 t2 host r ≡ (0, r1) = rw (named, up, one, lost) refl in
    rw runs (refl, redis.incr_answer later fk r1 ∙ rw stored refl)
