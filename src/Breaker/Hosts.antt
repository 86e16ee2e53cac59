-- ===== src/Breaker/Hosts.antt =====
-- The keys of the breaker: no two hosts share one, and a host's two keys differ.
use dwtgbot.Base.{
  ℕ, ◌≡◌, ◌≢◌, refl, sym, ap, ◌∙◌, inl, inr, false, [], ◌∷◌, ◌++◌, Text, codes, text_eq, text_eq→eq,
  length, length-append, arith, Bool-cases,
}
use dwtgbot.Breaker.Calls.{BreakerConfig, open_key, failures_key}

-- The last character, or `d` of the empty text.
abbrev last : ℕ → Text → ℕ
last d [] = d
last d (c ∷ s) = last c s

last-append : (d : ℕ) (s t : Text) → last d (s ++ t) ≡ last (last d s) t
last-append d [] t = refl
last-append d (c ∷ s) t = last-append c s t

append_cancel_left : (p s t : Text) → p ++ s ≡ p ++ t → s ≡ t
append_cancel_left [] s t h = h
append_cancel_left (c ∷ p) s t h = append_cancel_left p s t (ground (arith, h))

append_cancel_right : (s t p : Text) → s ++ p ≡ t ++ p → s ≡ t
append_cancel_right [] [] p h = refl
append_cancel_right [] (c ∷ t) p h = absurd (omega (arith, ap length h, length-append t p))
append_cancel_right (c ∷ s) [] p h = absurd (omega (arith, ap length h, length-append s p))
append_cancel_right (c ∷ s) (d ∷ t) p h = ground (arith, h, append_cancel_right s t p)

text_eq_ne : (s t : Text) → s ≢ t → text_eq s t ≡ false
text_eq_ne s t h = elim (Bool-cases (text_eq s t)) [
  | inl same ↦ absurd (h (text_eq→eq s t same))
  | inr differs ↦ differs
]

ends_differently : (c : BreakerConfig) (host host' : Text) → open_key c host ≢ failures_key c host'
ends_differently c host host' same =
    let tails =
      append_cancel_left c.key_prefix (host ++ codes ":open_until") (host' ++ codes ":failures")
        same in
    let ends : b'l' ≡ b's' =
      sym (last-append 0 host (codes ":open_until"))
      ∙ (ap (last 0) tails ∙ last-append 0 host' (codes ":failures")) in
    absurd (omega (arith, ends))

pub open_key-failures_key :
    (c : BreakerConfig) (host host' : Text)
    → text_eq (open_key c host) (failures_key c host') ≡ false
open_key-failures_key c host host' = text_eq_ne _ _ (ends_differently c host host')

pub failures_key-open_key :
    (c : BreakerConfig) (host host' : Text)
    → text_eq (failures_key c host) (open_key c host') ≡ false
failures_key-open_key c host host' =
    text_eq_ne _ _ (λ same. ends_differently c host' host (sym same))

module _ (c : BreakerConfig) (host host' : Text) (other : host ≢ host') where
  pub open_key_apart : text_eq (open_key c host) (open_key c host') ≡ false
  open_key_apart = text_eq_ne _ _ (λ same. other (
      append_cancel_right host host' (codes ":open_until")
        (append_cancel_left c.key_prefix _ _ same)))

  pub failures_key_apart : text_eq (failures_key c host) (failures_key c host') ≡ false
  failures_key_apart = text_eq_ne _ _ (λ same. other (
      append_cancel_right host host' (codes ":failures")
        (append_cancel_left c.key_prefix _ _ same)))
