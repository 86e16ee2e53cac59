-- ===== src/Breaker/Refines.antt =====
-- While Redis answers, the breaker of a host is the machine.
use dwtgbot.Base.{◌<◌, ◌≡◌, refl, ap, false, none, List, [], ◌∷◌, Text, is_empty, arith}
use dwtgbot.Redis.{Redis}
use dwtgbot.Limits.Admission.{IsAnswering}
use dwtgbot.Breaker.Calls.{
  BreakerConfig, open_key, failures_key, is_open, record_success, record_failure,
}
use dwtgbot.Breaker.Machine.{
  Machine, closed, rejects, succeed, window_count, fail_at, BreakerCall, asks, succeeds, fails,
  Answer, open_is, count_is, nothing, run_machine,
}
use dwtgbot.Breaker.Steps.{Represents, is_open_lem, success_lem, failure_lem}

module _ (redis : Redis) (c : BreakerConfig) (host : Text) where
  -- The calls on the store, with what each answers.
  unfoldable pub run_redis : List BreakerCall → redis.Store → List Answer
  unfolding is_open record_success record_failure
  run_redis [] r = []
  run_redis (asks t ∷ calls) r =
      let (answer, r') = is_open redis c t host r in open_is answer ∷ run_redis calls r'
  run_redis (succeeds t ∷ calls) r = nothing ∷ run_redis calls (record_success redis c t host r)
  run_redis (fails t0 t1 t2 ∷ calls) r =
      let (count, r') = record_failure redis c t0 t1 t2 host r in
      count_is count ∷ run_redis calls r'

  runs_alike :
      (calls : List BreakerCall) (r : redis.Store) (m : Machine)
      → IsAnswering redis
      → 0 < c.window_seconds
      → 0 < c.cooldown_seconds
      → is_empty host ≡ false
      → Represents redis c host r m
      → run_redis calls r ≡ run_machine c calls m
  unfolding run_redis run_machine
  runs_alike [] r m up wide long named rep = refl
  runs_alike (asks t ∷ calls) r m up wide long named rep =
      let e = is_open_lem redis c host t r m up named rep in
      rw e (ap (λ l. open_is (rejects t m) ∷ l) (runs_alike calls r m up wide long named rep))
  runs_alike (succeeds t ∷ calls) r m up wide long named rep =
      ap (λ l. nothing ∷ l)
        (runs_alike calls _ (succeed m) up wide long named
          (success_lem redis c host t r m up named rep))
  runs_alike (fails t0 t1 t2 ∷ calls) r m up wide long named rep =
      let (count, next) = failure_lem redis c host t0 t1 t2 r m up wide long named rep in
      rw count (
        ap (λ l. count_is (window_count t0 m) ∷ l)
          (runs_alike calls _ (fail_at c t0 t1 t2 m) up wide long named next))

-- While Redis answers, any sequence of calls for one host, on a store that holds none of the host's
-- keys, answers what the machine answers from its closed state: whether the breaker rejects, and
-- the count of failures. The window and the cooldown are of at least one second.
pub breaker_refines :
    (redis : Redis) (c : BreakerConfig) (host : Text) (calls : List BreakerCall) (r : redis.Store)
    → IsAnswering redis
    → 0 < c.window_seconds
    → 0 < c.cooldown_seconds
    → is_empty host ≡ false
    → redis.entry (failures_key c host) r ≡ none
    → redis.entry (open_key c host) r ≡ none
    → run_redis redis c host calls r ≡ run_machine c calls closed
breaker_refines redis c host calls r up wide long named f o =
    runs_alike redis c host calls r closed up wide long named (f, o, λ h. absurd (omega arith))
