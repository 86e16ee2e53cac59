-- ===== src/Checks/Limits.antt =====
-- The gate on a store that is a function from keys to entries.
use dwtgbot.Base.{
  ℕ, List, decimal, ◌++◌, ◌+◌, ◌*◌, ◌≤◌, ◌<◌, ◌≡◌, refl, true, false, none, some, [], ◌∷◌, Text,
  codes, arith,
}
use dwtgbot.Limits.Window.{LimitWindow, Windows, user_burst, user_hourly}
use dwtgbot.Redis.{Entry, live_at}
use dwtgbot.Checks.Store.{keys, nothing}
use dwtgbot.Limits.Gate.{check, evaluate}
use dwtgbot.Limits.Admission.{admitted, admitted_exact, retry_after_exact}
use dwtgbot.Limits.Notices.{claimed_answers, notify_answers, claimed_answers-notify_answers}
use dwtgbot.Limits.Config.{WindowOutcome, parse_rl_window, parse_rl_window-decimal}
use dwtgbot.Limits.Layers.{LayersOutcome, evaluate_exact}
use dwtgbot.Limits.Keys.{ordered_layers}

abbrev burst : LimitWindow
burst = record { layer = user_burst; limit = 2; window_s = 10 }

abbrev full : Text → Entry
full key = some (2, some 9500)

abbrev windows : Windows
windows = record {
  user_burst_window = burst;
  user_hourly_window = burst;
  chat_burst_window = burst;
  global_burst_window = burst;
  domain_burst_window = burst;
}

admitted_exact_example :
    (admitted keys true (codes "k") burst (1000 ∷ 2000 ∷ 3000 ∷ []) nothing).0 ≡ 2
admitted_exact_example =
    admitted_exact keys true (codes "k") burst 1000 (2000 ∷ 3000 ∷ []) nothing (λ now r. refl) refl
      (omega arith, (omega arith, tt))

retry_after_exact_example :
    let (decision, r') = check keys true 1000 (codes "k") burst full in
    let later = 1000 + decision.retry_after_s * 1000 in
    (decision.allowed ≡ false)
    × (decision.layer ≡ some user_burst)
    × (1 ≤ decision.retry_after_s)
    × (9500 ≤ later)
    × (later < 10500)
    × (live_at later (r' (codes "k")) ≡ none)
retry_after_exact_example =
    retry_after_exact keys true (codes "k") burst 1000 2 9500 full (λ now r. refl) refl
      (omega arith) (omega arith) (omega arith)

evaluate_exact_example :
    LayersOutcome keys
      (λ n. 1000 + n)
      0
      (ordered_layers 7 900 (some (codes "youtu.be")) windows)
      full
      (evaluate keys true (λ n. 1000 + n) 7 900 (some (codes "youtu.be")) windows full)
evaluate_exact_example =
    evaluate_exact keys true (λ n. 1000 + n) 7 900 (some (codes "youtu.be")) windows full
      (λ now r. refl)

abbrev four_links : List (ℕ × Text)
four_links = (1000, codes "a") ∷ (1500, codes "b") ∷ (2000, codes "a") ∷ (9000, codes "a") ∷ []

claimed_answers-notify_answers_example :
    claimed_answers keys (codes "n:") 5 four_links nothing ≡ notify_answers 5 four_links []
claimed_answers-notify_answers_example =
    claimed_answers-notify_answers keys (codes "n:") 5 four_links nothing (λ now r. refl)
      (omega arith) (λ key. refl)

parse_rl_window-decimal_example :
    WindowOutcome user_hourly 20 3600
      (parse_rl_window (λ t. t) (λ c. none) (decimal 20 ++ (b'/' ∷ decimal 3600)) user_hourly)
unfolding decimal
parse_rl_window-decimal_example =
    parse_rl_window-decimal (λ t. t) (λ c. none) user_hourly 20 3600 (omega arith) (omega arith)
