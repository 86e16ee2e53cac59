-- ===== src/Limits/Config.antt =====
-- `parse_rl_window` of app/config.py, with the checks of `LimitWindow` in app/domain/rate_limit.py.
use dwtgbot.Base.{
  ℕ, zero, suc, ◌⊎◌, inl, inr, ◌≤◌, ◌<◌, ◌≡◌, refl, Bool, true, false, not, ◌&&◌, Option, none,
  some, ◌∷◌, ◌++◌, Text, codes, decimal, length, ◌==◌, if◌then◌else◌, arith,
}
use dwtgbot.Strings.Trim.{strip, strip_id, is_space}
use dwtgbot.Strings.Cut.{before, behind, before-lacks, behind-lacks}
use dwtgbot.Strings.Digits.{
  Number, parse_int, parse_int-decimal, is_decimal, decimal-all, all-append, max_int_digits,
}
use dwtgbot.Errors.{Exc, exc, value, Outcome, returned, raised}
use dwtgbot.Limits.Window.{
  LimitLayer, user_burst, user_hourly, chat_burst, global_burst, domain_burst, LimitWindow,
}

-- `layer.value`.
abbrev pub layer_value : LimitLayer → Text
layer_value user_burst = codes "user_burst"
layer_value user_hourly = codes "user_hourly"
layer_value chat_burst = codes "chat_burst"
layer_value global_burst = codes "global_burst"
layer_value domain_burst = codes "domain_burst"

-- `str` of an integer.
abbrev pub number_text : Number → Text
number_text n =
    if n.is_negative && not (n.magnitude == 0)
    then b'-' ∷ decimal n.magnitude
    else decimal n.magnitude

abbrev pub is_below_one : Number → Bool
is_below_one n = if n.is_negative then true else n.magnitude == 0

abbrev pub below_one : Text → Number → Exc
below_one field n = exc value (
    codes "LimitWindow."
    ++ (field ++ (codes " must be >= 1 (got " ++ (number_text n ++ codes ")"))))

-- `LimitWindow.__post_init__`. A negative zero is zero, which is refused as well.
unfoldable pub limit_window : LimitLayer → Number → Number → Outcome LimitWindow
limit_window layer limit window_s =
    if is_below_one limit
    then raised (below_one (codes "limit") limit)
    else if is_below_one window_s
    then raised (below_one (codes "window_s") window_s)
    else returned (record { layer = layer; limit = limit.magnitude; window_s = window_s.magnitude })

abbrev natural : ℕ → Number
natural n = record { is_negative = false; magnitude = n }

-- What reading a window of these two numbers gives.
abbrev pub WindowOutcome : LimitLayer → ℕ → ℕ → Outcome LimitWindow → Type 0
WindowOutcome layer limit window_s r =
    ((0 < limit)
      × (0 < window_s)
      × (r ≡ returned (record { layer = layer; limit = limit; window_s = window_s })))
    ⊎ (((limit ≡ 0) ⊎ (window_s ≡ 0)) × ((e : Exc) × (r ≡ raised e) × (e.cls ≡ value)))

window_outcome :
    (layer : LimitLayer) (limit window_s : ℕ)
    → WindowOutcome layer limit window_s (limit_window layer (natural limit) (natural window_s))
unfolding limit_window
window_outcome layer zero window_s = inr (inl refl, (_, refl, refl))
window_outcome layer (suc l) zero =
    inr (inr refl, (below_one (codes "window_s") (natural 0), ground arith, refl))
window_outcome layer (suc l) (suc w) = inl (omega arith, omega arith, ground arith)

digit_not_space : (c : ℕ) → is_decimal c ≡ true → not (is_space c) ≡ true
digit_not_space c h = ground arith

digit_not_slash : (c : ℕ) → is_decimal c ≡ true → not (c == b'/') ≡ true
digit_not_slash c h = ground arith

-- Python's `repr` of a text, and the decimal digits beyond ASCII.
module _ (repr : Text → Text) (wide_digit : ℕ → Option ℕ) where
  abbrev pub window_error : LimitLayer → Text → Text → Exc
  window_error layer middle raw =
      exc value (codes "RL window for " ++ (repr (layer_value layer) ++ (middle ++ repr raw)))

  unfoldable pub both_integers :
      LimitLayer → Text → Option Number → Option Number → Outcome LimitWindow
  unfolding limit_window
  both_integers layer raw (some limit) (some window_s) = limit_window layer limit window_s
  both_integers layer raw none b =
      raised (window_error layer (codes " has non-integer parts: ") raw)
  both_integers layer raw (some _) none =
      raised (window_error layer (codes " has non-integer parts: ") raw)

  unfoldable pub around_slash : LimitLayer → Text → Text → Option Text → Outcome LimitWindow
  unfolding both_integers
  around_slash layer raw text none =
      raised (window_error layer (codes " must look like '<limit>/<seconds>', got ") raw)
  around_slash layer raw text (some right) =
      both_integers layer raw (parse_int wide_digit (strip (before b'/' text)))
        (parse_int wide_digit (strip right))

  unfoldable pub parse_rl_window : Text → LimitLayer → Outcome LimitWindow
  unfolding around_slash
  parse_rl_window raw layer = let text = strip raw in around_slash layer raw text (behind b'/' text)

  read_back :
      (layer : LimitLayer) (limit window_s : ℕ)
      → length (decimal limit) ≤ max_int_digits
      → length (decimal window_s) ≤ max_int_digits
      → parse_rl_window (decimal limit ++ (b'/' ∷ decimal window_s)) layer
        ≡ limit_window layer (natural limit) (natural window_s)
  unfolding parse_rl_window around_slash both_integers
  read_back layer limit window_s few few' =
      let solid = λ (n : ℕ). decimal-all (λ c. not (is_space c)) (λ c h. digit_not_space c h) n in
      let lack = decimal-all (λ c. not (c == b'/')) (λ c h. digit_not_slash c h) limit in
      rw
        (
          strip_id (decimal limit ++ (b'/' ∷ decimal window_s)) (
              all-append (λ c. not (is_space c)) (decimal limit) (b'/' ∷ decimal window_s)
                (solid limit) (solid window_s)),
          behind-lacks b'/' (decimal limit) (decimal window_s) lack,
          before-lacks b'/' (decimal limit) (decimal window_s) lack,
          strip_id (decimal limit) (solid limit),
          strip_id (decimal window_s) (solid window_s),
          parse_int-decimal wide_digit limit few,
          parse_int-decimal wide_digit window_s few',
        )
        refl

  -- The notation of the settings, written and read again: any limit and any window of at least one,
  -- of at most the digits that the interpreter converts, come back with the layer, whatever the
  -- digits beyond ASCII are; a limit or a window of zero is refused with a `ValueError`.
  pub parse_rl_window-decimal :
      (layer : LimitLayer) (limit window_s : ℕ)
      → length (decimal limit) ≤ max_int_digits
      → length (decimal window_s) ≤ max_int_digits
      → WindowOutcome layer limit window_s
          (parse_rl_window (decimal limit ++ (b'/' ∷ decimal window_s)) layer)
  parse_rl_window-decimal layer limit window_s few few' =
      rw (read_back layer limit window_s few few') (window_outcome layer limit window_s)
