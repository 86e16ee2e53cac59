-- ===== src/Breaker/Machine.antt =====
-- What the breaker of one host promises: consecutive failures are window_count in a window that
-- begins with the first of them, and at the threshold the breaker opens for the cooldown.
use dwtgbot.Base.{ℕ, ◌+◌, ◌*◌, Bool, not, ◌&&◌, List, [], ◌∷◌, ltb, leb, ◌==◌, if◌then◌else◌}
use dwtgbot.Breaker.Calls.{BreakerConfig}

-- No failure counts where `failures` is 0; the breaker is closed where `open_until` is 0.
pub record Machine : Type 0 where
  pub failures : ℕ
  pub window_end : ℕ
  pub open_until : ℕ

abbrev pub closed : Machine
closed = record { failures = 0; window_end = 0; open_until = 0 }

abbrev pub rejects : ℕ → Machine → Bool
rejects now m = ltb now m.open_until

abbrev pub succeed : Machine → Machine
succeed m = record m { failures = 0; window_end = 0 }

-- The failures of the running window, this one included.
abbrev pub window_count : ℕ → Machine → ℕ
window_count now m = if ltb now m.window_end then m.failures + 1 else 1

abbrev pub fail_at : BreakerConfig → ℕ → ℕ → ℕ → Machine → Machine
fail_at c t0 t1 t2 m =
    let n = window_count t0 m in
    record {
      failures = n;
      window_end = if n == 1 then t1 + c.window_seconds * 1000 else m.window_end;
      open_until =
          if leb c.failure_threshold n && not (rejects t2 m)
          then t2 + c.cooldown_seconds * 1000
          else m.open_until;
    }

-- The calls for one host, with the times of their commands.
pub data BreakerCall : Type 0 where
  asks succeeds : ℕ → BreakerCall
  fails : ℕ → ℕ → ℕ → BreakerCall

-- What each call answers.
pub data Answer : Type 0 where
  open_is : Bool → Answer
  count_is : ℕ → Answer
  nothing : Answer

unfoldable pub run_machine : BreakerConfig → List BreakerCall → Machine → List Answer
run_machine c [] m = []
run_machine c (asks t ∷ calls) m = open_is (rejects t m) ∷ run_machine c calls m
run_machine c (succeeds t ∷ calls) m = nothing ∷ run_machine c calls (succeed m)
run_machine c (fails t0 t1 t2 ∷ calls) m =
    count_is (window_count t0 m) ∷ run_machine c calls (fail_at c t0 t1 t2 m)
