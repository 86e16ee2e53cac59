-- ===== src/Exec/Laws.antt =====
-- A sequence runs its rest exactly when its first part returned.
use dwtgbot.Base.{◌≡◌, refl}
use dwtgbot.Errors.{Exc, Outcome, returned, raised}
use dwtgbot.Exec.Monad.{Exec, catch, try_, ◌>>=◌}

module _ {ℓ} {S A B : Type ℓ} (m : Exec S A) (f : A → Exec S B) (s : S) where
  pub bind_returned : {a : A} → (m s).0 ≡ returned a → (m >>= f) s ≡ f a (m s).1
  unfolding ◌>>=◌
  bind_returned e = rw e

  pub bind_raised : {e : Exc} → (m s).0 ≡ raised e → (m >>= f) s ≡ (raised e, (m s).1)
  unfolding ◌>>=◌
  bind_raised e = rw e

  pub bind_try : (g : Outcome A → Exec S B) → (try_ m >>= g) s ≡ g (m s).0 (m s).1
  unfolding ◌>>=◌ try_
  bind_try g = refl

module _ {ℓ} {S A : Type ℓ} (m : Exec S A) (h : Exc → Exec S A) (s : S) where
  pub catch_returned : {a : A} → (m s).0 ≡ returned a → catch m h s ≡ (returned a, (m s).1)
  unfolding catch
  catch_returned e = rw e

  pub catch_raised : {e : Exc} → (m s).0 ≡ raised e → catch m h s ≡ h e (m s).1
  unfolding catch
  catch_raised e = rw e
