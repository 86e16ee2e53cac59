-- ===== src/Strings/Trim.antt =====
-- `str.strip` and its two halves, by `str.isspace`.
use dwtgbot.Base.{
  ℕ, ◌≤◌, ◌≡◌, refl, Bool, true, not, ◌&&◌, ◌||◌, [], ◌∷◌, Text, is_empty, arith, leb, ◌==◌, all,
  length, if◌then◌else◌,
}

-- The white space beyond Latin-1.
abbrev is_wide_space : ℕ → Bool
is_wide_space c =
    c == 5760
    || ((leb 8192 c && leb c 8202)
        || (c == 8232 || (c == 8233 || (c == 8239 || (c == 8287 || c == 12288)))))

-- `str.isspace` of one code point.
abbrev pub is_space : ℕ → Bool
is_space c =
    (leb 9 c && leb c 13)
    || ((leb 28 c && leb c 32) || (c == 133 || (c == 160 || (leb 5760 c && is_wide_space c))))

unfoldable pub lstrip : Text → Text
lstrip [] = []
lstrip (c ∷ s) = if is_space c then lstrip s else c ∷ s

-- Without the white space at the end.
unfoldable pub rstrip : Text → Text
rstrip [] = []
rstrip (c ∷ s) = let rest = rstrip s in if is_space c && is_empty rest then [] else c ∷ rest

abbrev pub strip : Text → Text
strip s = rstrip (lstrip s)

-- A text without white space is its own strip.
lstrip_id : (s : Text) → all (λ c. not (is_space c)) s ≡ true → lstrip s ≡ s
unfolding lstrip
lstrip_id [] h = refl
lstrip_id (c ∷ s) h = ground arith

rstrip_id : (s : Text) → all (λ c. not (is_space c)) s ≡ true → rstrip s ≡ s
unfolding rstrip
rstrip_id [] h = refl
rstrip_id (c ∷ s) h = ground (arith, rstrip_id s)

pub strip_id : (s : Text) → all (λ c. not (is_space c)) s ≡ true → strip s ≡ s
strip_id s h = rw (lstrip_id s h) (rstrip_id s h)

pub length-lstrip : (s : Text) → length (lstrip s) ≤ length s
unfolding lstrip
length-lstrip [] = omega arith
length-lstrip (c ∷ s) = ground (arith, length-lstrip s)

pub length-rstrip : (s : Text) → length (rstrip s) ≤ length s
unfolding rstrip
length-rstrip [] = omega arith
length-rstrip (c ∷ s) = ground (arith, length-rstrip s)
