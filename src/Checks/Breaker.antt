-- ===== src/Checks/Breaker.antt =====
-- The breaker and the downloader's guard on a store that is a function.
use dwtgbot.Base.{true, ℕ, false, ◌≡◌, refl, [], ◌∷◌, codes, arith, ◌≢◌}
use dwtgbot.Checks.Store.{keys, keys_failing_at, nothing}
use dwtgbot.Breaker.Calls.{BreakerConfig, record_failure, failures_key}
use dwtgbot.Breaker.Machine.{asks, fails, closed, run_machine}
use dwtgbot.Breaker.Refines.{run_redis, breaker_refines}
use dwtgbot.Downloader.Guard.{
  Attempt, ytdlp_error, GuardTimes, GuardOutcome, guarded_call, guarded_call_exact,
}
use dwtgbot.Breaker.Effects.{lost_expiry}

abbrev two_strikes : BreakerConfig
two_strikes = record {
  failure_threshold = 2;
  window_seconds = 60;
  cooldown_seconds = 30;
  key_prefix = codes "cb:";
}

breaker_refines_example :
    let calls = fails 1000 1001 1002 ∷ fails 2000 2001 2002 ∷ asks 3000 ∷ asks 40000 ∷ [] in
    run_redis keys two_strikes (codes "h") calls nothing ≡ run_machine two_strikes calls closed
breaker_refines_example =
    breaker_refines keys two_strikes (codes "h")
      (fails 1000 1001 1002 ∷ fails 2000 2001 2002 ∷ asks 3000 ∷ asks 40000 ∷ []) nothing
      (λ now r. refl) (omega arith) (omega arith) refl refl refl

b_not_a : codes "b" ≢ codes "a"
b_not_a e = ground (arith, e)

lost_expiry_example :
    let redis = keys_failing_at 6 in
    let (answer, r') = record_failure redis two_strikes 5 6 7 (codes "h") nothing in
    (answer ≡ 0) × ((redis.incr 900000 (failures_key two_strikes (codes "h")) r').0 ≡ 2)
lost_expiry_example =
    lost_expiry (keys_failing_at 6) two_strikes (codes "h") 5 6 7 900000 nothing refl refl refl refl

abbrev times : GuardTimes
times = record { asked = 5; noted = 6; expired = 7; opened = 8 }

abbrev too_many : Attempt ℕ
too_many = ytdlp_error (codes "http error 429")

guarded_call_exact_example :
    GuardOutcome keys two_strikes
      (λ s. s)
      (λ e. e)
      times
      (codes "h")
      too_many
      nothing
      false
      (guarded_call keys two_strikes (λ s. s) (λ e. e) times true (codes "h") too_many nothing)
guarded_call_exact_example =
    guarded_call_exact keys two_strikes (λ s. s) (λ e. e) times (codes "h") too_many nothing
      (λ now r. refl) refl
