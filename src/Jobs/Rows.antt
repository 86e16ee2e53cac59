-- ===== src/Jobs/Rows.antt =====
-- A table with a numeric primary key, and the SQL statements that the repositories run on it.
use dwtgbot.Base.{
  ℕ, ◌+◌, ◌<◌, ◌≡◌, refl, Bool, true, Option, none, some, List, [], ◌∷◌, arith, ◌==◌, if◌then◌else◌,
}

abbrev pub Rows {ℓ} : Type ℓ → Type ℓ
Rows C = List (ℕ × C)

module _ {ℓ} {C : Type ℓ} where
  -- `session.get(Model, key)`.
  abbrev pub get_row : ℕ → Rows C → Option C
  get_row k [] = none
  get_row k ((j, c) ∷ r) = if k == j then some c else get_row k r

  -- `UPDATE … SET set WHERE test`.
  abbrev pub update_where : (ℕ × C → Bool) → (C → C) → Rows C → Rows C
  update_where test set [] = []
  update_where test set (x ∷ r) = (if test x then (x.0, set x.1) else x) ∷ update_where test set r

  -- Keys fall towards the end of the list: `n` bounds them, and no two rows share one.
  abbrev pub IsKeyed : ℕ → Rows C → Type 0
  IsKeyed n [] = Unit
  IsKeyed n ((k, _) ∷ r) = (k < n) × IsKeyed k r

module _ {ℓ} {C : Type ℓ} where
  pub IsKeyed-mono : (m n : ℕ) (r : Rows C) → IsKeyed m r → m < n → IsKeyed n r
  IsKeyed-mono m n [] h l = tt
  IsKeyed-mono m n (x ∷ r) h l = (omega arith, h.1)

  pub IsKeyed-update_where :
      (test : ℕ × C → Bool) (set : C → C) (n : ℕ) (r : Rows C)
      → IsKeyed n r
      → IsKeyed n (update_where test set r)
  IsKeyed-update_where test set n [] h = tt
  IsKeyed-update_where test set n (x ∷ r) h =
      ground (arith, IsKeyed-update_where test set x.0 r h.1)

  pub get_row_fresh : (n : ℕ) (r : Rows C) (k : ℕ) → IsKeyed n r → (n < k + 1) → get_row k r ≡ none
  get_row_fresh n [] k h l = refl
  get_row_fresh n (x ∷ r) k h l = ground (arith, get_row_fresh x.0 r k h.1)

  -- An update whose test looks at the key and the columns, row by row.
  pub get_row-update_where :
      (test : ℕ × C → Bool) (set : C → C) (k : ℕ) (r : Rows C)
      → get_row k (update_where test set r)
        ≡ elim (get_row k r) [ none ↦ none | some c ↦ some (if test (k, c) then set c else c) ]
  get_row-update_where test set k [] = refl
  get_row-update_where test set k (x ∷ r) = ground (arith, get_row-update_where test set k r)

  -- An update that matches one key leaves a table without that key as it is.
  pub update_where-absent :
      (k : ℕ) (test : ℕ × C → Bool) (set : C → C) (n : ℕ) (r : Rows C)
      → ((j : ℕ) (c : C) → test (j, c) ≡ true → k ≡ j)
      → IsKeyed n r
      → (n < k + 1)
      → update_where test set r ≡ r
  update_where-absent k test set n [] only h l = refl
  update_where-absent k test set n ((j, c) ∷ r) only h l =
      ground (arith, only j c, update_where-absent k test set j r only h.1)
