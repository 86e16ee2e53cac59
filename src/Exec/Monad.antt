-- ===== src/Exec/Monad.antt =====
-- `Exec S A`, with `try`/`except` as a handler.
use dwtgbot.Errors.{Exc, Outcome, returned, raised}

abbrev pub Exec {ℓ} : Type ℓ → Type ℓ → Type ℓ
Exec S A = S → Outcome A × S

module _ {ℓ} {S A : Type ℓ} where
  abbrev pub pure : A → Exec S A
  pure a s = (returned a, s)

  abbrev pub raise : Exc → Exec S A
  raise e s = (raised e, s)

  abbrev pub lift : Outcome A → Exec S A
  lift r s = (r, s)

  abbrev pub gets : (S → A) → Exec S A
  gets f s = (returned (f s), s)

  abbrev pub handled : Outcome A → (Exc → Exec S A) → Exec S A
  handled (returned a) h s = (returned a, s)
  handled (raised e) h s = h e s

  -- `try: m  except: h`; the handler re-raises what it does not take.
  unfoldable pub catch : Exec S A → (Exc → Exec S A) → Exec S A
  catch m h s = handled (m s).0 h (m s).1

  -- The result as a value, for a handler that also has an `else` branch.
  unfoldable pub try_ : Exec S A → Exec S (Outcome A)
  try_ m s = (returned (m s).0, (m s).1)

module _ {ℓ} {S A B : Type ℓ} where
  abbrev pub continue : Outcome A → (A → Exec S B) → Exec S B
  continue (returned a) f s = f a s
  continue (raised e) f s = (raised e, s)

  infixl 5 ◌>>=◌ ◌>>◌
  unfoldable pub ◌>>=◌ : Exec S A → (A → Exec S B) → Exec S B
  ◌>>=◌ m f s = continue (m s).0 f (m s).1

  abbrev pub ◌>>◌ : Exec S A → Exec S B → Exec S B
  m >> n = m >>= λ _. n
