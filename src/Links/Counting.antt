-- ===== src/Links/Counting.antt =====
-- Which range requests count as a new download (`starts_new_download` of
-- app/api/public/downloads.py).
use dwtgbot.Base.{
  ℕ, suc, ◌+◌, ◌/◌, ◌%◌, ◌≤◌, ◌≡◌, refl, sym, ap, ◌∙◌, Bool, true, false, some, [], ◌∷◌, ◌++◌, Text,
  codes, text_eq, arith, ◌==◌, all, length, decimal, append_nil, le→leb, decimal_fuel,
}
use dwtgbot.Strings.Trim.{lstrip, rstrip, strip}
use dwtgbot.Strings.Cut.{before, behind}
use dwtgbot.Strings.Digits.{
  is_decimal, digits_value, max_int_digits, decimal_value, decimal_digits, snoc_nonempty,
}
use dwtgbot.Errors.{Outcome, returned, raised, exc, other}
use dwtgbot.Links.Range.{
  lower, is_digit, is_digits, int, starts_at, first_starts, range_starts, starts_new_download,
}

before-digits :
    (sep : ℕ) (d s : Text)
    → is_digit sep ≡ false
    → all is_digit d ≡ true
    → before sep (d ++ s) ≡ d ++ before sep s
unfolding before
before-digits sep [] s h g = refl
before-digits sep (c ∷ d) s h g = ground (arith, before-digits sep d s)

behind-digits :
    (sep : ℕ) (d s : Text)
    → is_digit sep ≡ false
    → all is_digit d ≡ true
    → behind sep (d ++ s) ≡ behind sep s
unfolding behind
behind-digits sep [] s h g = refl
behind-digits sep (c ∷ d) s h g = ground (arith, behind-digits sep d s)

rstrip-digits : (d s : Text) → all is_digit d ≡ true → rstrip (d ++ s) ≡ d ++ rstrip s
unfolding rstrip
rstrip-digits [] s g = refl
rstrip-digits (c ∷ d) s g = ground (arith, rstrip-digits d s)

lstrip-digits : (d s : Text) → is_digits d ≡ true → lstrip (d ++ s) ≡ d ++ s
unfolding lstrip
lstrip-digits [] s g = ground arith
lstrip-digits (c ∷ d) s g = ground arith

abbrev bytes_header : Text → Text
bytes_header spec = codes "bytes=" ++ spec

bytes_of_header :
    (spec : Text) → text_eq (lower (strip (before b'=' (bytes_header spec)))) (codes "bytes") ≡ true
unfolding before lower lstrip rstrip
bytes_of_header spec = refl

rest_of_header : (spec : Text) → behind b'=' (bytes_header spec) ≡ some spec
unfolding behind
rest_of_header spec = refl

strip-digits : (d s : Text) → is_digits d ≡ true → strip (d ++ s) ≡ d ++ rstrip s
strip-digits d s g = rw (lstrip-digits d s g) (rstrip-digits d s (ground (arith, g)))

strip_digits : (d : Text) → is_digits d ≡ true → strip d ≡ d
unfolding rstrip
strip_digits d g = ap strip (sym (append_nil d)) ∙ (strip-digits d [] g ∙ append_nil d)

-- The part before the first comma, stripped.
first_range :
    (d rest : Text)
    → is_digits d ≡ true
    → strip (before b',' (d ++ (45 ∷ rest))) ≡ d ++ (45 ∷ rstrip (before b',' rest))
unfolding before rstrip
first_range d rest g =
    rw
      (
        before-digits b',' d (45 ∷ rest) refl (ground (arith, g)),
        strip-digits d (45 ∷ before b',' rest) g,
      )
      refl

behind_dash : (d tail : Text) → is_digits d ≡ true → behind b'-' (d ++ (45 ∷ tail)) ≡ some tail
unfolding behind
behind_dash d tail g = behind-digits b'-' d (45 ∷ tail) refl (ground (arith, g))

before_dash : (d tail : Text) → is_digits d ≡ true → before b'-' (d ++ (45 ∷ tail)) ≡ d
unfolding before
before_dash d tail g = before-digits b'-' d (45 ∷ tail) refl (ground (arith, g)) ∙ append_nil d

starts_at-int :
    (d : Text)
    → is_digits d ≡ true
    → starts_at d ≡ elim (int d) [ returned n ↦ returned (n == 0) | raised e ↦ raised e ]
unfolding starts_at
starts_at-int [] g = absurd (ground (arith, g))
starts_at-int (c ∷ d) g = rw g refl

first_starts-int :
    (d tail : Text)
    → is_digits d ≡ true
    → first_starts (d ++ (45 ∷ tail))
      ≡ elim (int d) [ returned n ↦ returned (n == 0) | raised e ↦ raised e ]
unfolding first_starts
first_starts-int d tail g =
    rw (behind_dash d tail g, first_starts, before_dash d tail g, strip_digits d g)
      (starts_at-int d g)

range_starts_first :
    (d rest : Text)
    → is_digits d ≡ true
    → range_starts (bytes_header (d ++ (45 ∷ rest)))
      ≡ first_starts (d ++ (45 ∷ rstrip (before b',' rest)))
unfolding range_starts
range_starts_first d rest g =
    rw (bytes_of_header (d ++ (45 ∷ rest)), rest_of_header (d ++ (45 ∷ rest)), first_range d rest g)
      refl

-- Up to the dash, `bytes=d-…` is read as the number `d`.
range_int :
    (d rest : Text)
    → is_digits d ≡ true
    → starts_new_download true (some (bytes_header (d ++ (45 ∷ rest))))
      ≡ elim (int d) [ returned n ↦ returned (n == 0) | raised e ↦ raised e ]
unfolding starts_new_download
range_int d rest g = range_starts_first d rest g ∙ first_starts-int d (rstrip (before b',' rest)) g

decimal_is_digits : (d : Text) → all is_decimal d ≡ true → all is_digit d ≡ true
decimal_is_digits [] h = refl
decimal_is_digits (c ∷ d) h = ground (arith, decimal_is_digits d)

decimal-IsDigits : (n : ℕ) → is_digits (decimal n) ≡ true
unfolding decimal decimal_fuel
decimal-IsDigits n = ground (
  arith,
  decimal_is_digits (decimal_fuel (suc n) n) (decimal_digits (suc n) n),
  snoc_nonempty (decimal_fuel n (n / 10)) (48 + n % 10),
)

int_zero :
    (d : Text) (n : ℕ)
    → all is_decimal d ≡ true
    → length d ≤ max_int_digits
    → digits_value 0 d ≡ n
    → elim (int d) as (λ _. Outcome Bool) [ returned v ↦ returned (v == 0) | raised e ↦ raised e ]
      ≡ returned (n == 0)
unfolding int
int_zero d n all_digits short value =
    rw (all_digits, le→leb (length d) max_int_digits short, value) refl

-- A `GET` for the bytes from `n` on, whatever follows the dash, counts as a new download exactly
-- when `n` is 0, for an `n` of at most the digits that Python converts.
pub range_counts_exact :
    (n : ℕ) (rest : Text)
    → length (decimal n) ≤ max_int_digits
    → starts_new_download true (some (codes "bytes=" ++ (decimal n ++ (45 ∷ rest))))
      ≡ returned (n == 0)
unfolding decimal
range_counts_exact n rest h =
    range_int (decimal n) rest (decimal-IsDigits n)
    ∙ int_zero (decimal n) n (decimal_digits (suc n) n) h (decimal_value (suc n) n (omega arith))

-- Where the first position has digits by `isdigit` that are not all decimal ones, such as `²`, the
-- test raises a `ValueError`.
pub range_raises :
    (d rest : Text)
    → is_digits d ≡ true
    → all is_decimal d ≡ false
    → starts_new_download true (some (codes "bytes=" ++ (d ++ (45 ∷ rest))))
      ≡ raised (exc other (codes "ValueError"))
unfolding int
range_raises d rest g h = range_int d rest g ∙ rw h refl
