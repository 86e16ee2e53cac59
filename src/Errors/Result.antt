-- ===== src/Errors/Result.antt =====
-- How a call ends: it returns a value, or raises.
use dwtgbot.Errors.Classes.{Exc}

pub data Result {ℓ} (A : Type ℓ) : Type ℓ where
  returned : A → Result A
  raised : Exc → Result A
