-- ===== src/Providers/Cookies.antt =====
-- `_with_cookie_fallback` of app/infrastructure/providers/instagram.py. Times are in milliseconds.
use dwtgbot.Base.{
  ℕ, ◌+◌, ◌*◌, ◌≤◌, ◌<◌, ◌⊎◌, ◌≡◌, refl, ap, Bool, true, false, ◌||◌, List, [], ◌∷◌, ltb, not,
  arith, if◌then◌else◌, Bool-cases, inl, inr,
}
use dwtgbot.Errors.{Exc, download, provider, same_class, Outcome, returned, raised}

abbrev pub cookies_suspend_s : ℕ
cookies_suspend_s = 600

-- `type(exc) in (DownloadError, ProviderError)`: no subclass counts.
abbrev pub is_bare : Exc → Bool
is_bare e = same_class e.cls download || same_class e.cls provider

-- One use: the times of the two readings of the clock, whether a cookie file is there, and what the
-- call answers with the cookies and without them.
pub record CookieUse {ℓ} (A : Type ℓ) : Type ℓ where
  pub at : ℕ
  pub rejected_at : ℕ
  pub has_cookies : Bool
  pub with_cookies : Outcome A
  pub anonymous : Outcome A

-- What a use did: its answer, and the cookies of its calls in their order.
pub record CookieRun {ℓ} (A : Type ℓ) : Type ℓ where
  pub answer : Outcome A
  pub sent : List Bool

module _ {ℓ} {A : Type ℓ} where
  unfoldable pub after_cookies : CookieUse A → ℕ → Outcome A → CookieRun A × ℕ
  after_cookies use_ suspended (returned a) =
      (record { answer = returned a; sent = true ∷ [] }, suspended)
  after_cookies use_ suspended (raised e) =
      if is_bare e
      then (
        record { answer = use_.anonymous; sent = true ∷ false ∷ [] },
        use_.rejected_at + cookies_suspend_s * 1000,
      )
      else (record { answer = raised e; sent = true ∷ [] }, suspended)

  -- The call, from the time until which the cookies are suspended to the new one.
  unfoldable pub with_cookie_fallback : CookieUse A → ℕ → CookieRun A × ℕ
  unfolding after_cookies
  with_cookie_fallback use_ suspended =
      if ltb use_.at suspended || not use_.has_cookies
      then (record { answer = use_.anonymous; sent = false ∷ [] }, suspended)
      else after_cookies use_ suspended use_.with_cookies

  -- The uses of a provider, one after the other.
  unfoldable pub cookie_runs : List (CookieUse A) → ℕ → List (CookieRun A)
  unfolding with_cookie_fallback
  cookie_runs [] suspended = []
  cookie_runs (u ∷ us) suspended =
      let (run, suspended') = with_cookie_fallback u suspended in run ∷ cookie_runs us suspended'

  -- What the uses answer without any cookies.
  abbrev pub anonymous_runs : List (CookieUse A) → List (CookieRun A)
  anonymous_runs [] = []
  anonymous_runs (u ∷ us) = record { answer = u.anonymous; sent = false ∷ [] } ∷ anonymous_runs us

  abbrev pub AllBefore : ℕ → List (CookieUse A) → Type 0
  AllBefore t [] = Unit
  AllBefore t (u ∷ us) = (u.at < t) × AllBefore t us

  suspended_runs :
      (us : List (CookieUse A)) (suspended : ℕ)
      → AllBefore suspended us
      → cookie_runs us suspended ≡ anonymous_runs us
  unfolding cookie_runs with_cookie_fallback
  suspended_runs [] suspended h = refl
  suspended_runs (u ∷ us) suspended (now, later) =
      let early : ltb u.at suspended ≡ true = ground (arith, now) in
      rw early (
        ap (λ (l : List (CookieRun A)). record { answer = u.anonymous; sent = false ∷ [] } ∷ l)
          (suspended_runs us suspended later))

  -- What the uses from `u` on, whose call with cookies raised `e`, have done.
  abbrev pub RejectedOutcome : CookieUse A → List (CookieUse A) → ℕ → Exc → Type ℓ
  RejectedOutcome u us suspended e =
      ((is_bare e ≡ true)
        × (cookie_runs (u ∷ us) suspended
            ≡ record { answer = u.anonymous; sent = true ∷ false ∷ [] } ∷ anonymous_runs us))
      ⊎ ((is_bare e ≡ false)
          × (cookie_runs (u ∷ us) suspended
              ≡ record { answer = raised e; sent = true ∷ [] } ∷ cookie_runs us suspended))

  -- A use with a cookie file, outside a suspension, whose call with cookies raises. Where the
  -- class is `DownloadError` or `ProviderError` itself, the answer is that of a second call
  -- without cookies, and no use that begins within the next 600 seconds sends any; where it is
  -- another class, the exception is raised, there is no second call, and the next uses go on as
  -- they would have.
  pub cookie_runs-rejected :
      (u : CookieUse A) (us : List (CookieUse A)) (suspended : ℕ) (e : Exc)
      → suspended ≤ u.at
      → u.has_cookies ≡ true
      → u.with_cookies ≡ raised e
      → AllBefore (u.rejected_at + cookies_suspend_s * 1000) us
      → RejectedOutcome u us suspended e
  unfolding cookie_runs with_cookie_fallback after_cookies
  cookie_runs-rejected u us suspended e free file raises soon =
      let open_ : ltb u.at suspended ≡ false = ground (arith, free) in
      elim (Bool-cases (is_bare e)) [
        | inl b ↦ inl (
          b,
          rw (open_, file, raises, b)
              (ap
                (λ (l : List (CookieRun A)).
                  record { answer = u.anonymous; sent = true ∷ false ∷ [] } ∷ l)
                (suspended_runs us (u.rejected_at + cookies_suspend_s * 1000) soon)),
        )
        | inr b ↦ inr (b, rw (open_, file, raises, b) refl)
      ]
