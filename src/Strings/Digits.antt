-- ===== src/Strings/Digits.antt =====
-- Decimal digits: what `str(n)` writes and `int(s)` reads.
use dwtgbot.Strings.Trim.{is_space, strip, strip_id}
use dwtgbot.Base.{
  ℕ, zero, suc, ◌+◌, ◌-◌, ◌*◌, ◌/◌, ◌%◌, ◌≤◌, ◌<◌, ◌≡◌, refl, ap, ◌∙◌, Bool, true, false, not, ◌&&◌,
  Option, none, some, List, [], ◌∷◌, ◌++◌, Text, is_empty, arith, leb, le→leb, ◌==◌, all, length,
  if◌then◌else◌, decimal, decimal_fuel,
}

abbrev pub is_decimal : ℕ → Bool
is_decimal c = leb 48 c && leb c 57

unfoldable pub digits_value : ℕ → Text → ℕ
digits_value seen [] = seen
digits_value seen (c ∷ s) = digits_value (10 * seen + (c - 48)) s

abbrev pub max_int_digits : ℕ
max_int_digits = 4300

pub all-append :
    (test : ℕ → Bool) (s t : Text)
    → all test s ≡ true
    → all test t ≡ true
    → all test (s ++ t) ≡ true
all-append test [] t g h = h
all-append test (c ∷ s) t g h = ground (arith, all-append test s t)

pub digits_value-append :
    (seen : ℕ) (s : Text) (c : ℕ)
    → digits_value seen (s ++ (c ∷ [])) ≡ 10 * digits_value seen s + (c - 48)
unfolding digits_value
digits_value-append seen [] c = refl
digits_value-append seen (x ∷ s) c = digits_value-append (10 * seen + (x - 48)) s c

pub decimal_value : (f n : ℕ) → n < f → digits_value 0 (decimal_fuel f n) ≡ n
unfolding digits_value decimal_fuel
decimal_value zero n h = absurd (omega arith)
decimal_value (suc f) n h =
    ground (
      arith,
      decimal_value f (n / 10),
      digits_value-append 0 (decimal_fuel f (n / 10)) (48 + n % 10),
    )

pub decimal_digits : (f n : ℕ) → all is_decimal (decimal_fuel f n) ≡ true
unfolding decimal_fuel
decimal_digits zero n = refl
decimal_digits (suc f) n = ground (
  arith,
  decimal_digits f (n / 10),
  all-append is_decimal (decimal_fuel f (n / 10)) ((48 + n % 10) ∷ []),
)

pub snoc_nonempty : (s : Text) (c : ℕ) → is_empty (s ++ (c ∷ [])) ≡ false
snoc_nonempty [] c = refl
snoc_nonempty (x ∷ s) c = refl

pub decimal_nonempty : (n : ℕ) → is_empty (decimal n) ≡ false
unfolding decimal decimal_fuel
decimal_nonempty n = ground (arith, snoc_nonempty (decimal_fuel n (n / 10)) (48 + n % 10))

-- What `int(s)` answers: a sign and a magnitude.
pub record Number : Type 0 where
  pub is_negative : Bool
  pub magnitude : ℕ

abbrev add_digit : Option ℕ → Option (List ℕ) → Option (List ℕ)
add_digit (some d) (some ds) = some (d ∷ ds)
add_digit _ _ = none

abbrev pub weigh : ℕ → List ℕ → ℕ
weigh seen [] = seen
weigh seen (d ∷ ds) = weigh (10 * seen + d) ds

abbrev pub numbered : Bool → Option (List ℕ) → Option Number
numbered negative none = none
numbered negative (some ds) =
    if leb (length ds) max_int_digits
    then some (record { is_negative = negative; magnitude = weigh 0 ds })
    else none

-- The decimal digits beyond ASCII by the character database, which is no part of the program.
module _ (wide_digit : ℕ → Option ℕ) where
  abbrev pub digit_of : ℕ → Option ℕ
  digit_of c = if is_decimal c then some (c - 48) else wide_digit c

  -- Digits with single underscores between them; the flag tells whether a digit was the last.
  unfoldable pub scan_digits : Bool → Text → Option (List ℕ)
  scan_digits true [] = some []
  scan_digits false [] = none
  scan_digits seen (c ∷ s) = elim (c == b'_') [
    | true ↦ if seen then scan_digits false s else none
    | false ↦ add_digit (digit_of c) (scan_digits true s)
  ]

  abbrev pub signed : Text → Option Number
  signed [] = none
  signed (c ∷ s) =
      if c == b'-'
      then numbered true (scan_digits false s)
      else if c == b'+'
      then numbered false (scan_digits false s)
      else numbered false (scan_digits false (c ∷ s))

  -- `int(s)`; `none` is the `ValueError`.
  unfoldable pub parse_int : Text → Option Number
  unfolding scan_digits
  parse_int s = signed (strip s)

decimal_not_space : (d : Text) → all is_decimal d ≡ true → all (λ c. not (is_space c)) d ≡ true
decimal_not_space [] h = refl
decimal_not_space (c ∷ d) h = ground (arith, decimal_not_space d)

abbrev values : Text → List ℕ
values [] = []
values (c ∷ d) = (c - 48) ∷ values d

weigh-values : (seen : ℕ) (d : Text) → weigh seen (values d) ≡ digits_value seen d
unfolding digits_value
weigh-values seen [] = refl
weigh-values seen (c ∷ d) = weigh-values (10 * seen + (c - 48)) d

length-values : (d : Text) → length (values d) ≡ length d
length-values [] = refl
length-values (c ∷ d) = ap suc (length-values d)

numbered-values :
    (d : Text)
    → length d ≤ max_int_digits
    → numbered false (some (values d))
      ≡ some (record { is_negative = false; magnitude = digits_value 0 d })
numbered-values d h =
    rw (length-values d, le→leb (length d) max_int_digits h, weigh-values 0 d) refl

module _ (wide_digit : ℕ → Option ℕ) where
  scan-decimal :
      (d : Text) → all is_decimal d ≡ true → scan_digits wide_digit true d ≡ some (values d)
  unfolding scan_digits
  scan-decimal [] h = refl
  scan-decimal (c ∷ d) h = ground (arith, scan-decimal d)

  first-decimal :
      (c : ℕ) (d : Text)
      → all is_decimal (c ∷ d) ≡ true
      → scan_digits wide_digit false (c ∷ d) ≡ some (values (c ∷ d))
  unfolding scan_digits
  first-decimal c d h = ground (arith, scan-decimal d)

  signed-decimal :
      (d : Text)
      → is_empty d ≡ false
      → all is_decimal d ≡ true
      → length d ≤ max_int_digits
      → signed wide_digit d ≡ some (record { is_negative = false; magnitude = digits_value 0 d })
  signed-decimal [] e h l = cc
  signed-decimal (c ∷ d) e h l =
      let not_minus : (c == b'-') ≡ false = ground (arith, h) in
      let not_plus : (c == b'+') ≡ false = ground (arith, h) in
      rw (not_minus, not_plus, first-decimal c d h, numbered-values (c ∷ d) l) refl

  parse_int-digits :
      (d : Text)
      → is_empty d ≡ false
      → all is_decimal d ≡ true
      → length d ≤ max_int_digits
      → parse_int wide_digit d ≡ some (record { is_negative = false; magnitude = digits_value 0 d })
  unfolding parse_int
  parse_int-digits d e h l =
      ap (signed wide_digit) (strip_id d (decimal_not_space d h)) ∙ signed-decimal d e h l

  -- `int(str(n))`, for a number of at most the digits that the interpreter converts.
  pub parse_int-decimal :
      (n : ℕ)
      → length (decimal n) ≤ max_int_digits
      → parse_int wide_digit (decimal n) ≡ some (record { is_negative = false; magnitude = n })
  unfolding decimal
  parse_int-decimal n h =
      parse_int-digits (decimal n) (decimal_nonempty n) (decimal_digits (suc n) n) h
      ∙ ap (λ m. some (record { is_negative = false; magnitude = m }))
          (decimal_value (suc n) n (omega arith))

all_mono :
    (test : ℕ → Bool) (s : Text)
    → ((c : ℕ) → is_decimal c ≡ true → test c ≡ true)
    → all is_decimal s ≡ true
    → all test s ≡ true
all_mono test [] more h = refl
all_mono test (c ∷ s) more h = ground (arith, more c, all_mono test s more)

-- What holds of every digit holds of every character of `str(n)`.
pub decimal-all :
    (test : ℕ → Bool)
    → ((c : ℕ) → is_decimal c ≡ true → test c ≡ true)
    → (n : ℕ) → all test (decimal n) ≡ true
unfolding decimal
decimal-all test more n = all_mono test (decimal n) more (decimal_digits (suc n) n)
