-- ===== src/Strings/Cut.antt =====
-- `str.partition`, and `str.split` with a bound on the cuts.
use dwtgbot.Base.{
  ℕ, zero, suc, ◌≡◌, refl, Bool, true, not, Option, none, some, List, [], ◌∷◌, ◌++◌, Text, arith,
  ◌==◌, all, if◌then◌else◌,
}

-- `s.partition(sep)[0]`, and `[2]` with whether the separator was there.
unfoldable pub before : ℕ → Text → Text
before sep [] = []
before sep (c ∷ s) = let rest = before sep s in if c == sep then [] else c ∷ rest

unfoldable pub behind : ℕ → Text → Option Text
behind sep [] = none
behind sep (c ∷ s) = if c == sep then some s else behind sep s

-- `s.split(sep, cuts)`.
unfoldable pub split_max : ℕ → ℕ → Text → List Text
unfolding before behind
split_max zero sep s = s ∷ []
split_max (suc cuts) sep s = elim (behind sep s) [
  | none ↦ s ∷ []
  | some rest ↦ before sep s ∷ split_max cuts sep rest
]

-- No character of the text is `sep`.
abbrev pub lacks : ℕ → Text → Bool
lacks sep s = all (λ c. not (c == sep)) s

pub before-lacks :
    (sep : ℕ) (s rest : Text) → lacks sep s ≡ true → before sep (s ++ (sep ∷ rest)) ≡ s
unfolding before
before-lacks sep [] rest h = ground arith
before-lacks sep (c ∷ s) rest h = ground (arith, before-lacks sep s rest)

pub behind-lacks :
    (sep : ℕ) (s rest : Text) → lacks sep s ≡ true → behind sep (s ++ (sep ∷ rest)) ≡ some rest
unfolding behind
behind-lacks sep [] rest h = ground arith
behind-lacks sep (c ∷ s) rest h = ground (arith, behind-lacks sep s rest)

-- One cut at the first separator.
pub split_max-lacks :
    (cuts sep : ℕ) (s rest : Text)
    → lacks sep s ≡ true
    → split_max (suc cuts) sep (s ++ (sep ∷ rest)) ≡ s ∷ split_max cuts sep rest
unfolding split_max
split_max-lacks cuts sep s rest h =
    rw (behind-lacks sep s rest h, split_max, before-lacks sep s rest h) refl

-- The two parts of a cut spell the text.
pub before-behind :
    (sep : ℕ) (s rest : Text) → behind sep s ≡ some rest → s ≡ before sep s ++ (sep ∷ rest)
unfolding before behind
before-behind sep [] rest h = cc
before-behind sep (c ∷ s) rest h = ground (arith, before-behind sep s rest)

pub split_max-none :
    (cuts sep : ℕ) (s : Text) → behind sep s ≡ none → split_max (suc cuts) sep s ≡ s ∷ []
unfolding split_max
split_max-none cuts sep s h = rw (h, split_max) refl

pub split_max-some :
    (cuts sep : ℕ) (s rest : Text)
    → behind sep s ≡ some rest
    → split_max (suc cuts) sep s ≡ before sep s ∷ split_max cuts sep rest
unfolding split_max
split_max-some cuts sep s rest h = rw (h, split_max) refl

pub split_max-zero : (sep : ℕ) (s : Text) → split_max 0 sep s ≡ s ∷ []
unfolding split_max
split_max-zero sep s = refl
