-- ===== src/Utils/Texts.antt =====
-- `truncate_description` of app/domain/text_utils.py.
use dwtgbot.Base.{
  ℕ, suc, ◌-◌, ◌/◌, Option, none, some, [], ◌∷◌, ◌++◌, Text, is_empty, leb, ◌==◌, length, take,
  if◌then◌else◌,
}
use dwtgbot.Strings.Trim.{strip, rstrip}

-- `s.rfind(c)`, where `none` is -1.
unfoldable pub rfind : ℕ → Text → Option ℕ
rfind c [] = none
rfind c (x ∷ s) = elim (rfind c s) [
  | some i ↦ some (suc i)
  | none ↦ if x == c then some 0 else none
]

-- The ellipsis.
abbrev pub marker : ℕ
marker = 0x2026

-- The cut at the last space, unless it lies in the window's first half.
unfoldable pub cut_at : ℕ → Text → Option ℕ → Text
cut_at budget window none = window
cut_at budget window (some cut) = if leb (budget / 2) cut then rstrip (take cut window) else window

unfoldable pub at_word : ℕ → Text → Text
unfolding cut_at
at_word budget window = cut_at budget window (rfind 32 window)

unfoldable pub shortened : ℕ → Text → Text
unfolding at_word
shortened max_chars stripped =
    let budget = max_chars - 1 in
    if budget == 0
    then take max_chars stripped
    else at_word budget (take budget stripped) ++ (marker ∷ [])

unfoldable pub fitted : ℕ → Text → Text
unfolding shortened
fitted max_chars stripped =
    if is_empty stripped
    then []
    else if max_chars == 0
    then []
    else if leb (length stripped) max_chars
    then stripped
    else shortened max_chars stripped

-- `None` and the empty text end alike.
unfoldable pub truncate_description : Option Text → ℕ → Text
unfolding fitted
truncate_description none max_chars = []
truncate_description (some text) max_chars = fitted max_chars (strip text)
