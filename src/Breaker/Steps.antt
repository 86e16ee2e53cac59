-- ===== src/Breaker/Steps.antt =====
-- The calls of the breaker, one by one, against the machine.
use dwtgbot.Base.{
  ℕ, ◌+◌, ◌*◌, ◌<◌, ◌≡◌, refl, ap, ◌∙◌, inl, inr, false, not, ◌&&◌, Option, none, some, Text,
  is_empty, is_some, text_eq_refl, ltb, leb, ◌==◌, arith, Bool-cases, if◌then◌else◌,
}
use dwtgbot.Redis.{Entry, live_at, incremented_entry, claimed, Redis}
use dwtgbot.Limits.Admission.{IsAnswering}
use dwtgbot.Breaker.Calls.{
  BreakerConfig, open_key, failures_key, held_or_failed, is_open, deleted_or_failed, record_success,
  opened_or_failed, open_at, expired_or_failed, windowed, counted_or_failed, finish_failure,
  record_failure,
}
use dwtgbot.Breaker.Machine.{Machine, rejects, succeed, window_count, fail_at}
use dwtgbot.Breaker.Hosts.{open_key-failures_key, failures_key-open_key}

-- The entry of a number that expires at an instant; the instant 0 is that of none.
abbrev pub entry_until : ℕ → ℕ → Entry
entry_until n e = if e == 0 then none else some (n, some e)

held_until : (now n e : ℕ) → is_some (live_at now (entry_until n e)) ≡ ltb now e
held_until now n e = ground arith

incremented_until :
    (now n e : ℕ)
    → incremented_entry (live_at now (entry_until n e))
      ≡ (if ltb now e then (n + 1, some e) else (1, none))
incremented_until now n e = ground arith

claimed_until :
    (now e cooldown : ℕ)
    → 0 < cooldown
    → claimed (now + cooldown * 1000) (live_at now (entry_until 1 e))
      ≡ entry_until 1 (if ltb now e then e else now + cooldown * 1000)
claimed_until now e cooldown pos = ground arith

until_nonzero : (n e : ℕ) → 0 < e → some (n, some e) ≡ entry_until n e
until_nonzero n e h = ground arith

module _ (redis : Redis) (c : BreakerConfig) (host : Text) where
  -- The two keys of the host hold what the machine says.
  abbrev pub Represents : redis.Store → Machine → Type 0
  Represents r m =
      (redis.entry (failures_key c host) r ≡ entry_until m.failures m.window_end)
      × (redis.entry (open_key c host) r ≡ entry_until 1 m.open_until)
      × (0 < m.window_end → 0 < m.failures)

  pub is_open_lem :
      (now : ℕ) (r : redis.Store) (m : Machine)
      → IsAnswering redis
      → is_empty host ≡ false
      → Represents r m
      → is_open redis c now host r ≡ (rejects now m, r)
  unfolding is_open held_or_failed
  is_open_lem now r m up named (f, o, p) =
      let held = redis.held_answer now (open_key c host) r in
      rw (named, up now r, held, o, held_until now 1 m.open_until) refl

  pub success_lem :
      (now : ℕ) (r : redis.Store) (m : Machine)
      → IsAnswering redis
      → is_empty host ≡ false
      → Represents r m
      → Represents (record_success redis c now host r) (succeed m)
  unfolding record_success deleted_or_failed
  success_lem now r m up named (f, o, p) =
      let fk = failures_key c host in
      let ok = open_key c host in
      rw (named, up now r)
        (
          redis.delete_entry now fk fk r ∙ rw (text_eq_refl fk) refl,
          redis.delete_entry now fk ok r ∙ rw (open_key-failures_key c host host) o,
          λ pos. pos,
        )

  -- A first failure gets its window, a later one keeps it.
  windowed_lem :
      (t1 n e : ℕ) (r : redis.Store)
      → IsAnswering redis
      → redis.entry (failures_key c host) r ≡ some (n, if n == 1 then none else some e)
      → let (count, r') = windowed redis c t1 host n r in
        (count ≡ some n)
        × (redis.entry (failures_key c host) r'
            ≡ some (n, some (if n == 1 then t1 + c.window_seconds * 1000 else e)))
        × (redis.entry (open_key c host) r' ≡ redis.entry (open_key c host) r)
  unfolding windowed expired_or_failed
  windowed_lem t1 n e r up f =
      let fk = failures_key c host in
      let ok = open_key c host in
      elim (Bool-cases (n == 1)) [
        | inr later ↦ rw later (refl, f ∙ rw later refl, refl)
        | inl first ↦
            rw (first, up t1 r)
              (
                refl,
                redis.expire_entry t1 fk fk c.window_seconds r
                    ∙ rw (text_eq_refl fk, f, first) refl,
                redis.expire_entry t1 fk ok c.window_seconds r
                    ∙ rw (open_key-failures_key c host host) refl,
              )
      ]

  incr_lem :
      (t0 : ℕ) (r : redis.Store) (m : Machine)
      → Represents r m
      → let (count, r') = redis.incr t0 (failures_key c host) r in
        let n = window_count t0 m in
        (count ≡ n)
        × (redis.entry (failures_key c host) r'
            ≡ some (n, if n == 1 then none else some m.window_end))
        × (redis.entry (open_key c host) r' ≡ redis.entry (open_key c host) r)
  incr_lem t0 r m (f, o, p) =
      let fk = failures_key c host in
      let ok = open_key c host in
      let e : incremented_entry (live_at t0 (redis.entry fk r))
          ≡ (window_count t0 m, if window_count t0 m == 1 then none else some m.window_end) =
        rw f (incremented_until t0 m.failures m.window_end ∙ ground (arith, p)) in
      (
        redis.incr_answer t0 fk r ∙ ap (λ x. x.0) e,
        redis.incr_entry t0 fk fk r ∙ rw (text_eq_refl fk) (ap some e),
        redis.incr_entry t0 fk ok r ∙ rw (open_key-failures_key c host host) refl,
      )

  -- The second `try`.
  open_at_lem :
      (t2 n u : ℕ) (r : redis.Store)
      → IsAnswering redis
      → 0 < c.cooldown_seconds
      → redis.entry (open_key c host) r ≡ entry_until 1 u
      → let r' = open_at redis c t2 host n r in
        (redis.entry (failures_key c host) r' ≡ redis.entry (failures_key c host) r)
        × (redis.entry (open_key c host) r'
            ≡ entry_until 1 (
                if leb c.failure_threshold n && not (ltb t2 u)
                then t2 + c.cooldown_seconds * 1000
                else u))
  unfolding open_at opened_or_failed
  open_at_lem t2 n u r up pos o =
      let fk = failures_key c host in
      let ok = open_key c host in
      elim (Bool-cases (leb c.failure_threshold n)) [
        | inr few ↦ rw few (refl, o)
        | inl many ↦
            rw (many, up t2 r)
              (
                redis.set_entry t2 ok fk c.cooldown_seconds r
                    ∙ rw (failures_key-open_key c host host) refl,
                redis.set_entry t2 ok ok c.cooldown_seconds r
                    ∙ rw (text_eq_refl ok, o, claimed_until t2 u c.cooldown_seconds pos)
                        (ground arith),
              )
      ]

  finish_lem :
      (t2 n : ℕ) (window_count : Option ℕ × redis.Store)
      → window_count.0 ≡ some n
      → finish_failure redis c t2 host window_count ≡ (n, open_at redis c t2 host n window_count.1)
  unfolding finish_failure
  finish_lem t2 n window_count e = rw e refl

  counted_lem :
      (t0 t1 n : ℕ) (r : redis.Store)
      → IsAnswering redis
      → (redis.incr t0 (failures_key c host) r).0 ≡ n
      → counted_or_failed redis c t0 t1 host r (redis.call_fails t0 r)
        ≡ windowed redis c t1 host n (redis.incr t0 (failures_key c host) r).1
  unfolding counted_or_failed
  counted_lem t0 t1 n r up e = rw (up t0 r, e) refl

  record_lem :
      (t0 t1 t2 : ℕ) (r : redis.Store)
      → is_empty host ≡ false
      → record_failure redis c t0 t1 t2 host r
        ≡ finish_failure redis c t2 host
            (counted_or_failed redis c t0 t1 host r (redis.call_fails t0 r))
  unfolding record_failure
  record_lem t0 t1 t2 r named = rw named refl

  pub failure_lem :
      (t0 t1 t2 : ℕ) (r : redis.Store) (m : Machine)
      → IsAnswering redis
      → 0 < c.window_seconds
      → 0 < c.cooldown_seconds
      → is_empty host ≡ false
      → Represents r m
      → let (count, r') = record_failure redis c t0 t1 t2 host r in
        (count ≡ window_count t0 m) × Represents r' (fail_at c t0 t1 t2 m)
  failure_lem t0 t1 t2 r m up wide long named rep =
      let n = window_count t0 m in
      let r1 = (redis.incr t0 (failures_key c host) r).1 in
      let (count, f1, o1) = incr_lem t0 r m rep in
      let r2 = (windowed redis c t1 host n r1).1 in
      let (kept, f2, o2) = windowed_lem t1 n m.window_end r1 up f1 in
      let (f3, o3) = open_at_lem t2 n m.open_until r2 up long (o2 ∙ (o1 ∙ rep.1)) in
      let runs =
        record_lem t0 t1 t2 r named
        ∙ (ap (finish_failure redis c t2 host) (counted_lem t0 t1 n r up count)
            ∙ finish_lem t2 n (windowed redis c t1 host n r1) kept) in
      rw runs (
        refl,
        (
          f3
              ∙ (f2
                  ∙ until_nonzero n (if n == 1 then t1 + c.window_seconds * 1000 else m.window_end)
                      (ground (arith, rep.2))),
          o3,
          ground (arith, rep.2),
        ),
      )
