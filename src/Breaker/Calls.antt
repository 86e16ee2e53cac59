-- ===== src/Breaker/Calls.antt =====
-- `RedisCircuitBreaker`. Each command runs at its own time; one that fails leaves the store that
-- the parameter gives.
use dwtgbot.Base.{
  ℕ, Bool, false, Option, none, some, Text, codes, is_empty, leb, ◌++◌, ◌==◌, if◌then◌else◌,
}
use dwtgbot.Redis.{Redis}

pub record BreakerConfig : Type 0 where
  pub failure_threshold : ℕ
  pub window_seconds : ℕ
  pub cooldown_seconds : ℕ
  pub key_prefix : Text

abbrev pub open_key : BreakerConfig → Text → Text
open_key c host = c.key_prefix ++ (host ++ codes ":open_until")

abbrev pub failures_key : BreakerConfig → Text → Text
failures_key c host = c.key_prefix ++ (host ++ codes ":failures")

module _ (redis : Redis) (c : BreakerConfig) where
  unfoldable pub held_or_failed : ℕ → Text → redis.Store → Option redis.Store → Bool × redis.Store
  held_or_failed now host r (some r') = (false, r')
  held_or_failed now host r none = (redis.is_held now (open_key c host) r, r)

  unfoldable pub is_open : ℕ → Text → redis.Store → Bool × redis.Store
  unfolding held_or_failed
  is_open now host r =
      if is_empty host then (false, r) else held_or_failed now host r (redis.call_fails now r)

  unfoldable pub deleted_or_failed : ℕ → Text → redis.Store → Option redis.Store → redis.Store
  deleted_or_failed now host r (some r') = r'
  deleted_or_failed now host r none = redis.delete now (failures_key c host) r

  unfoldable pub record_success : ℕ → Text → redis.Store → redis.Store
  unfolding deleted_or_failed
  record_success now host r =
      if is_empty host then r else deleted_or_failed now host r (redis.call_fails now r)

  -- The second `try` of `record_failure`.
  unfoldable pub opened_or_failed : ℕ → Text → redis.Store → Option redis.Store → redis.Store
  opened_or_failed now host r (some r') = r'
  opened_or_failed now host r none = (redis.set_nx now (open_key c host) c.cooldown_seconds r).1

  unfoldable pub open_at : ℕ → Text → ℕ → redis.Store → redis.Store
  unfolding opened_or_failed
  open_at now host count r =
      if leb c.failure_threshold count
      then opened_or_failed now host r (redis.call_fails now r)
      else r

  -- The first `try`: the count, or `none` where a command failed.
  unfoldable pub expired_or_failed :
      ℕ → Text → ℕ → redis.Store → Option redis.Store → Option ℕ × redis.Store
  expired_or_failed now host count r (some r') = (none, r')
  expired_or_failed now host count r none =
      (some count, redis.expire now (failures_key c host) c.window_seconds r)

  unfoldable pub windowed : ℕ → Text → ℕ → redis.Store → Option ℕ × redis.Store
  unfolding expired_or_failed
  windowed now host count r =
      if count == 1
      then expired_or_failed now host count r (redis.call_fails now r)
      else (some count, r)

  unfoldable pub counted_or_failed :
      ℕ → ℕ → Text → redis.Store → Option redis.Store → Option ℕ × redis.Store
  unfolding windowed
  counted_or_failed now later host r (some r') = (none, r')
  counted_or_failed now later host r none =
      let (count, r') = redis.incr now (failures_key c host) r in windowed later host count r'

  unfoldable pub finish_failure : ℕ → Text → Option ℕ × redis.Store → ℕ × redis.Store
  unfolding open_at
  finish_failure now host (none, r) = (0, r)
  finish_failure now host (some count, r) = (count, open_at now host count r)

  -- `record_failure`, with the times of its three commands.
  unfoldable pub record_failure : ℕ → ℕ → ℕ → Text → redis.Store → ℕ × redis.Store
  unfolding counted_or_failed finish_failure
  record_failure t0 t1 t2 host r =
      let counted = counted_or_failed t0 t1 host r (redis.call_fails t0 r) in
      if is_empty host then (0, r) else finish_failure t2 host counted
