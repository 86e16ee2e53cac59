-- ===== src/Exec/Keeps.antt =====
-- Invariants of coroutines, one rule for each way to build one.
use dwtgbot.Base.{Bool, true, false, Option, none, some, if◌then◌else◌}
use dwtgbot.Errors.{Exc, Outcome, returned, raised}
use dwtgbot.Exec.Monad.{Exec, pure, raise, lift, catch, try_, continue, handled, ◌>>=◌}

-- However the coroutine ends, `P` holds of its last state where it held of the first.
pub record Keeps {ℓ} {S A : Type ℓ} (P : S → Type ℓ) (body : Exec S A) : Type ℓ where
  pub at : (first : S) → P first → P (body first).1

module _ {ℓ} {S A : Type ℓ} {P : S → Type ℓ} where
  pub Keeps-if : (b : Bool) (m n : Exec S A) → Keeps P m → Keeps P n → Keeps P (if b then m else n)
  Keeps-if b m n km kn = elim b as (λ c. Keeps P (if c then m else n)) [ true ↦ km | false ↦ kn ]

  pub Keeps-option {κ} :
      {X : Type κ} (o : Option X) (m : Exec S A) (f : X → Exec S A)
      → Keeps P m
      → ((x : X) → Keeps P (f x))
      → Keeps P (elim o [ none ↦ m | some x ↦ f x ])
  Keeps-option none m f km kf = km
  Keeps-option (some x) m f km kf = kf x

  pub Keeps-result {κ} :
      {X : Type κ} (r : Outcome X) (f : X → Exec S A) (h : Exc → Exec S A)
      → ((x : X) → Keeps P (f x))
      → ((e : Exc) → Keeps P (h e))
      → Keeps P (elim r [ returned x ↦ f x | raised e ↦ h e ])
  Keeps-result (returned x) f h kf kh = kf x
  Keeps-result (raised e) f h kf kh = kh e

  pub Keeps-lift : (r : Outcome A) → Keeps P (lift r)
  Keeps-lift r = record { at = λ first held. held }

  pub Keeps-raise : (e : Exc) → Keeps P (raise {A = A} e)
  Keeps-raise e = Keeps-lift (raised e)

  pub Keeps-pure : (a : A) → Keeps P (pure a)
  Keeps-pure a = Keeps-lift (returned a)

  handled-keeps :
      (r : Outcome A) (h : Exc → Exec S A) (s : S)
      → ((e : Exc) → Keeps P (h e))
      → P s
      → P (handled r h s).1
  handled-keeps (returned a) h s kh p = p
  handled-keeps (raised e) h s kh p = (kh e).at s p

  pub Keeps-catch :
      (m : Exec S A) (h : Exc → Exec S A)
      → Keeps P m
      → ((e : Exc) → Keeps P (h e))
      → Keeps P (catch m h)
  unfolding catch
  Keeps-catch m h km kh = record { at = λ s p. handled-keeps (m s).0 h (m s).1 kh (km.at s p) }

  pub Keeps-try_ : (m : Exec S A) → Keeps P m → Keeps P (try_ m)
  unfolding try_
  Keeps-try_ m km = record { at = λ s p. km.at s p }

module _ {ℓ} {S B A : Type ℓ} {P : S → Type ℓ} where
  continue-keeps :
      (r : Outcome A) (f : A → Exec S B) (s : S)
      → ((a : A) → Keeps P (f a))
      → P s
      → P (continue r f s).1
  continue-keeps (returned a) f s kf p = (kf a).at s p
  continue-keeps (raised e) f s kf p = p

  pub Keeps-bind :
      (body : Exec S A) (next : A → Exec S B)
      → Keeps P body
      → ((a : A) → Keeps P (next a))
      → Keeps P (body >>= next)
  unfolding ◌>>=◌
  Keeps-bind body next kept later = record {
    at = λ first held. continue-keeps (body first).0 next (body first).1 later (kept.at first held);
  }

pub ruleset keeps_rules = (
  Keeps-try_, Keeps-catch, Keeps-bind, Keeps-option, Keeps-result, Keeps-if, Keeps-pure,
  Keeps-raise, Keeps-lift,
)
