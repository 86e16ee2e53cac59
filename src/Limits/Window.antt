-- ===== src/Limits/Window.antt =====
-- app/domain/rate_limit.py, and the two settings of a layer. Windows are in seconds.
use dwtgbot.Base.{ℕ, Bool, true, false, Option, none, some, max}

pub data LimitLayer : Type 0 where
  user_burst user_hourly chat_burst global_burst domain_burst : LimitLayer

pub record LimitWindow : Type 0 where
  pub layer : LimitLayer
  pub limit : ℕ
  pub window_s : ℕ

pub record LimitDecision : Type 0 where
  pub allowed : Bool
  pub layer : Option LimitLayer
  pub retry_after_s : ℕ

abbrev pub allow : LimitDecision
allow = record { allowed = true; layer = none; retry_after_s = 0 }

abbrev pub deny : LimitLayer → ℕ → LimitDecision
deny layer retry_after_s = record {
  allowed = false;
  layer = some layer;
  retry_after_s = max 1 retry_after_s;
}

-- `RateLimitWindows` of app/config.py, by the layer.
pub record Windows : Type 0 where
  pub user_burst_window : LimitWindow
  pub user_hourly_window : LimitWindow
  pub chat_burst_window : LimitWindow
  pub global_burst_window : LimitWindow
  pub domain_burst_window : LimitWindow
