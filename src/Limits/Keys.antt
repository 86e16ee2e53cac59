-- ===== src/Limits/Keys.antt =====
-- The layers of `evaluate` (app/application/services/rate_limit.py) and their keys, no two alike.
use dwtgbot.Base.{
  ℕ, ◌≡◌, refl, inl, inr, true, false, not, Option, none, some, List, [], ◌∷◌, ◌++◌, Text, codes,
  decimal, is_empty, text_eq, if◌then◌else◌, all, Bool-cases, arith,
}
use dwtgbot.Limits.Window.{
  user_burst, user_hourly, chat_burst, global_burst, domain_burst, LimitWindow, Windows,
}
use dwtgbot.Limits.Gate.{domain_check, layers_of}

-- The layers in their order, each with its key and with the settings' limit and window: the user's
-- burst and hour, the chat, everyone, and the domain where the message has one.
abbrev pub ordered_layers : ℕ → ℕ → Option Text → Windows → List (Text × LimitWindow)
ordered_layers user_id chat_id domain windows =
    let user = codes "rl:user:" ++ decimal user_id in
    (user ++ codes ":burst", record (windows.user_burst_window) { layer = user_burst })
    ∷ (user ++ codes ":hourly", record (windows.user_hourly_window) { layer = user_hourly })
    ∷ (
      codes "rl:chat:" ++ (decimal chat_id ++ codes ":burst"),
      record (windows.chat_burst_window) { layer = chat_burst },
    )
    ∷ (codes "rl:global:burst", record (windows.global_burst_window) { layer = global_burst })
    ∷ elim domain [
      | none ↦ []
      | some d ↦
          if is_empty d
          then []
          else (
            codes "rl:domain:" ++ (d ++ codes ":burst"),
            record (windows.domain_burst_window) { layer = domain_burst },
          )
            ∷ []
    ]

pub layers_of-ordered_layers :
    (user_id chat_id : ℕ) (domain : Option Text) (windows : Windows)
    → layers_of user_id chat_id domain windows ≡ ordered_layers user_id chat_id domain windows
unfolding layers_of domain_check
layers_of-ordered_layers user_id chat_id none windows = refl
layers_of-ordered_layers user_id chat_id (some d) windows = refl

-- No layer of the list has this key.
abbrev pub AreOther : Text → List (Text × LimitWindow) → Type 0
AreOther key layers = all (λ x. not (text_eq x.0 key)) layers ≡ true

abbrev pub AreApart : List (Text × LimitWindow) → Type 0
AreApart [] = Unit
AreApart ((key, w) ∷ layers) = AreOther key layers × AreApart layers

text_eq_append : (p a b : Text) → text_eq (p ++ a) (p ++ b) ≡ text_eq a b
text_eq_append [] a b = refl
text_eq_append (c ∷ p) a b = ground (arith, text_eq_append p a b)

other_domain :
    (domain : Option Text) (windows : Windows) (key : Text)
    → ((d : Text) → text_eq (codes "rl:domain:" ++ (d ++ codes ":burst")) key ≡ false)
    → AreOther key (domain_check domain windows)
unfolding domain_check
other_domain none windows key h = refl
other_domain (some d) windows key h = elim (Bool-cases (is_empty d)) [
  | inl nothing ↦ rw nothing refl
  | inr named ↦ rw (named, h d) refl
]

alone : (domain : Option Text) (windows : Windows) → AreApart (domain_check domain windows)
unfolding domain_check
alone none windows = tt
alone (some []) windows = tt
alone (some (c ∷ d)) windows = (refl, tt)

pub layers_apart :
    (user_id chat_id : ℕ) (domain : Option Text) (windows : Windows)
    → AreApart (layers_of user_id chat_id domain windows)
unfolding layers_of
layers_apart user_id chat_id domain windows =
    let user = codes "rl:user:" ++ decimal user_id in
    let apart = text_eq_append user (codes ":hourly") (codes ":burst") in
    (
      rw apart (other_domain domain windows (user ++ codes ":burst") (λ d. refl)),
      (
        other_domain domain windows (user ++ codes ":hourly") (λ d. refl),
        (
          other_domain domain windows (codes "rl:chat:" ++ (decimal chat_id ++ codes ":burst"))
              (λ d. refl),
          (other_domain domain windows (codes "rl:global:burst") (λ d. refl), alone domain windows),
        ),
      ),
    )
