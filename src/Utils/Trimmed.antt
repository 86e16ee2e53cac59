-- ===== src/Utils/Trimmed.antt =====
-- What `truncate_description` promises: a bounded text with no white space at its ends.
use dwtgbot.Base.{
  ℕ, zero, suc, ◌/◌, ◌≤◌, ◌<◌, ◌≡◌, refl, sym, Bool, true, false, not, ◌&&◌, Option, none, some, [],
  ◌∷◌, ◌++◌, Text, is_empty, leb, leb→le, length, length-append, length-take, take, if◌then◌else◌,
  arith, Bool-cases, inl, inr,
}
use dwtgbot.Strings.Trim.{is_space, lstrip, rstrip, strip, length-rstrip}
use mathlib.Core.Path.{subst}
use dwtgbot.Strings.Digits.{snoc_nonempty}
use dwtgbot.Utils.Texts.{rfind, marker, cut_at, at_word, shortened, fitted, truncate_description}

-- The first character, if there is one, is no white space.
abbrev starts_solid : Text → Bool
starts_solid [] = true
starts_solid (c ∷ s) = not (is_space c)

lstrip-solid : (s : Text) → starts_solid (lstrip s) ≡ true
unfolding lstrip
lstrip-solid [] = refl
lstrip-solid (c ∷ s) = elim (Bool-cases (is_space c)) [
  | inl e ↦ rw e (lstrip-solid s)
  | inr e ↦ rw (e, e) refl
]

lstrip_solid_id : (s : Text) → starts_solid s ≡ true → lstrip s ≡ s
unfolding lstrip
lstrip_solid_id [] h = refl
lstrip_solid_id (c ∷ s) h = elim (Bool-cases (is_space c)) [
  | inl e ↦ absurd (cc)
  | inr e ↦ rw e refl
]

rstrip-solid : (s : Text) → starts_solid s ≡ true → starts_solid (rstrip s) ≡ true
unfolding rstrip
rstrip-solid [] h = refl
rstrip-solid (c ∷ s) h = elim (Bool-cases (is_space c)) [
  | inl e ↦ absurd (cc)
  | inr e ↦ rw (e, e) refl
]

take-solid : (n : ℕ) (s : Text) → starts_solid s ≡ true → starts_solid (take n s) ≡ true
take-solid zero s h = refl
take-solid (suc n) [] h = refl
take-solid (suc n) (c ∷ s) h = h

rstrip_twice : (s : Text) → rstrip (rstrip s) ≡ rstrip s
unfolding rstrip
rstrip_twice [] = refl
rstrip_twice (c ∷ s) = elim (Bool-cases (is_space c && is_empty (rstrip s))) [
  | inl e ↦ rw e refl
  | inr e ↦ rw e (rw (rstrip_twice s, e) refl)
]

rstrip-marker : (s : Text) → rstrip (s ++ (marker ∷ [])) ≡ s ++ (marker ∷ [])
unfolding rstrip
rstrip-marker [] = refl
rstrip-marker (c ∷ s) = ground (arith, rstrip-marker s, snoc_nonempty s marker)

append-solid : (s : Text) → starts_solid s ≡ true → starts_solid (s ++ (marker ∷ [])) ≡ true
append-solid [] h = refl
append-solid (c ∷ s) h = h

length-take_of : (n : ℕ) (s : Text) → length (take n s) ≤ length s
length-take_of zero s = omega arith
length-take_of (suc n) [] = omega arith
length-take_of (suc n) (c ∷ s) = omega (arith, length-take_of n s)

-- A text of at most `n` characters with no white space at its ends.
abbrev pub IsTidy : ℕ → Text → Type 0
IsTidy n s = (length s ≤ n) × (strip s ≡ s)

cut_at_lem :
    (budget : ℕ) (window : Text) (cut : Option ℕ)
    → length window ≤ budget
    → starts_solid window ≡ true
    → (length (cut_at budget window cut) ≤ budget)
      × (starts_solid (cut_at budget window cut) ≡ true)
unfolding cut_at
cut_at_lem budget window none short solid = (short, solid)
cut_at_lem budget window (some cut) short solid = elim (Bool-cases (leb (budget / 2) cut)) [
  | inl f ↦ rw f (
    omega (arith, length-rstrip (take cut window), length-take_of cut window),
    rstrip-solid (take cut window) (take-solid cut window solid),
  )
  | inr f ↦ rw f (short, solid)
]

rstrip-solid_one : (c : ℕ) → is_space c ≡ false → rstrip (c ∷ []) ≡ c ∷ []
unfolding rstrip
rstrip-solid_one c h = rw h refl

shortened-one : (s : Text) → starts_solid s ≡ true → IsTidy 1 (take 1 s)
unfolding lstrip rstrip
shortened-one [] solid = (omega arith, refl)
shortened-one (c ∷ s) solid = elim (Bool-cases (is_space c)) [
  | inl e ↦ absurd (cc)
  | inr e ↦ (omega arith, rw (e, e) refl)
]

shortened_step :
    (b : ℕ) (s : Text)
    → shortened (suc (suc b)) s ≡ at_word (suc b) (take (suc b) s) ++ (marker ∷ [])
unfolding shortened
shortened_step b s = ground arith

marked-IsTidy :
    (b : ℕ) (text : Text)
    → length text ≤ b
    → starts_solid text ≡ true
    → IsTidy (suc b) (text ++ (marker ∷ []))
marked-IsTidy b text short solid = (
  omega (arith, length-append text (marker ∷ [])),
  rw (lstrip_solid_id (text ++ (marker ∷ [])) (append-solid text solid)) (rstrip-marker text),
)

shortened-IsTidy : (n : ℕ) (s : Text) → starts_solid s ≡ true → 0 < n → IsTidy n (shortened n s)
unfolding shortened at_word
shortened-IsTidy zero s solid pos = absurd (omega arith)
shortened-IsTidy (suc zero) s solid pos = shortened-one s solid
shortened-IsTidy (suc (suc b)) s solid pos =
    let window = take (suc b) s in
    let (short, solid') =
      cut_at_lem (suc b) window (rfind 32 window) (length-take (suc b) s)
        (take-solid (suc b) s solid) in
    subst (IsTidy (suc (suc b))) (sym (shortened_step b s))
      (marked-IsTidy (suc b) (at_word (suc b) window) short solid')

strip_twice : (s : Text) → strip (strip s) ≡ strip s
strip_twice s =
    rw (lstrip_solid_id (strip s) (rstrip-solid (lstrip s) (lstrip-solid s)))
      (rstrip_twice (lstrip s))

fitted_step :
    (n c : ℕ) (s : Text)
    → fitted (suc n) (c ∷ s)
      ≡ (if leb (length (c ∷ s)) (suc n) then c ∷ s else shortened (suc n) (c ∷ s))
unfolding fitted
fitted_step n c s = ground arith

IsTidy-if :
    (b : Bool) (n : ℕ) (s t : Text)
    → (b ≡ true → IsTidy n s)
    → IsTidy n t
    → IsTidy n (if b then s else t)
IsTidy-if true n s t hs ht = hs refl
IsTidy-if false n s t hs ht = ht

fitted-IsTidy : (n : ℕ) (s : Text) → starts_solid s ≡ true → strip s ≡ s → IsTidy n (fitted n s)
unfolding fitted lstrip rstrip
fitted-IsTidy n [] solid tidy = (omega arith, refl)
fitted-IsTidy zero (c ∷ s) solid tidy = (omega arith, refl)
fitted-IsTidy (suc n) (c ∷ s) solid tidy = subst (IsTidy (suc n)) (sym (fitted_step n c s)) (
    IsTidy-if (leb (length (c ∷ s)) (suc n)) (suc n) (c ∷ s) (shortened (suc n) (c ∷ s))
      (λ e. (leb→le (length (c ∷ s)) (suc n) e, tidy))
      (shortened-IsTidy (suc n) (c ∷ s) solid (omega arith)))

-- Whatever the source gives as a description, `None` included, and whatever the limit: the result
-- has at most `max_chars` characters and no white space at either end.
pub truncate_description-IsTidy :
    (text : Option Text) (max_chars : ℕ) → IsTidy max_chars (truncate_description text max_chars)
unfolding truncate_description lstrip rstrip
truncate_description-IsTidy none max_chars = (omega arith, refl)
truncate_description-IsTidy (some text) max_chars =
    fitted-IsTidy max_chars (strip text) (rstrip-solid (lstrip text) (lstrip-solid text))
      (strip_twice text)
