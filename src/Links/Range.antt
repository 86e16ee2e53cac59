-- ===== src/Links/Range.antt =====
-- app/api/public/downloads.py: `starts_new_download`. A header is Latin-1 text, so the string
-- methods are those of the code points below 256.
use dwtgbot.Base.{
  ℕ, ◌+◌, Bool, true, false, not, ◌&&◌, ◌||◌, Option, none, some, [], ◌∷◌, Text, codes, text_eq,
  is_empty, leb, ◌==◌, all, length, if◌then◌else◌,
}
use dwtgbot.Strings.Trim.{strip}
use dwtgbot.Strings.Cut.{before, behind}
use dwtgbot.Strings.Digits.{is_decimal, digits_value, max_int_digits}
use dwtgbot.Errors.{exc, other, Outcome, returned, raised}

-- `str.lower` of one code point.
abbrev lower_one : ℕ → ℕ
lower_one c =
    if (leb 65 c && leb c 90) || (leb 192 c && (leb c 222 && not (c == 215))) then c + 32 else c

unfoldable pub lower : Text → Text
lower [] = []
lower (c ∷ s) = lower_one c ∷ lower s

-- `str.isdigit` of one code point: it also holds of the superscripts ², ³ and ¹.
abbrev pub is_digit : ℕ → Bool
is_digit c = is_decimal c || (c == 178 || (c == 179 || c == 185))

abbrev pub is_digits : Text → Bool
is_digits s = not (is_empty s) && all is_digit s

-- `int(s)` of a text that passed `isdigit`: a `ValueError` where a digit is no decimal one, and
-- where there are more of them than the interpreter converts.
unfoldable pub int : Text → Outcome ℕ
int s =
    if all is_decimal s && leb (length s) max_int_digits
    then returned (digits_value 0 s)
    else raised (exc other (codes "ValueError"))

unfoldable pub starts_at : Text → Outcome Bool
unfolding int
starts_at start =
    if is_empty start
    then returned false
    else if not (is_digits start)
    then returned true
    else elim (int start) [ returned n ↦ returned (n == 0) | raised e ↦ raised e ]

abbrev or_empty : Option Text → Text
or_empty none = []
or_empty (some s) = s

-- The first range of the header.
unfoldable pub first_starts : Text → Outcome Bool
unfolding starts_at
first_starts first = elim (behind b'-' first) [
  | none ↦ returned true
  | some _ ↦ starts_at (strip (before b'-' first))
]

unfoldable pub range_starts : Text → Outcome Bool
unfolding first_starts
range_starts header =
    if not (text_eq (lower (strip (before b'=' header))) (codes "bytes"))
    then returned true
    else first_starts (strip (before b',' (or_empty (behind b'=' header))))

-- `starts_new_download`, by whether the method is `GET`.
unfoldable pub starts_new_download : Bool → Option Text → Outcome Bool
unfolding range_starts
starts_new_download is_get range_header = if not is_get then returned false else elim range_header [
  | none ↦ returned true
  | some header ↦ if is_empty header then returned true else range_starts header
]
