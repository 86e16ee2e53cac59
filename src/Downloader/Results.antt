-- ===== src/Downloader/Results.antt =====
-- `looks_like_throttle` and `classify_error` of app/infrastructure/downloader/ytdlp_results.py.
use dwtgbot.Base.{
  ◌≡◌, refl, Bool, true, false, ◌||◌, List, [], ◌∷◌, Text, codes, starts_with, any, if◌then◌else◌,
  Bool-cases, inl, inr,
}
use dwtgbot.Errors.{
  Exc, exc, upstream_unavailable, media_private, media_not_found, provider, download, same_class,
}

-- `part in s`.
unfoldable pub contains : Text → Text → Bool
contains part [] = starts_with part []
contains part (c ∷ s) = starts_with part (c ∷ s) || contains part s

abbrev pub throttle_markers : List Text
throttle_markers =
    codes "http error 429"
    ∷ codes "too many requests"
    ∷ codes "rate limit"
    ∷ codes "rate-limit"
    ∷ codes "rate limited"
    ∷ []

abbrev pub private_markers : List Text
private_markers =
    codes "private"
    ∷ codes "login required"
    ∷ codes "sign in to confirm"
    ∷ codes "use --cookies"
    ∷ []

abbrev pub not_found_markers : List Text
not_found_markers = codes "not found" ∷ codes "does not exist" ∷ codes "removed" ∷ codes "404" ∷ []

-- `any(marker in msg for marker in markers)`.
unfoldable pub has_marker : List Text → Text → Bool
has_marker markers msg = any (λ marker. contains marker msg) markers

-- `str.lower` is Python's; the exception of yt-dlp is told by its text.
module _ (lower : Text → Text) where
  unfoldable pub looks_like_throttle : Text → Bool
  unfolding has_marker
  looks_like_throttle text = has_marker throttle_markers (lower text)

  unfoldable pub classify_error : Text → Exc
  unfolding looks_like_throttle has_marker
  classify_error text =
      if looks_like_throttle text
      then exc upstream_unavailable text
      else if has_marker private_markers (lower text)
      then exc media_private text
      else if has_marker not_found_markers (lower text)
      then exc media_not_found text
      else if contains (codes "unsupported url") (lower text)
      then exc provider text
      else exc download text

  rest_class :
      (a b c : Bool) (text : Text)
      → same_class
          (if a
            then exc media_private text
            else if b
            then exc media_not_found text
            else if c
            then exc provider text
            else exc download text).cls
          upstream_unavailable
        ≡ false
  rest_class true b c text = refl
  rest_class false true c text = refl
  rest_class false false true text = refl
  rest_class false false false text = refl

  -- An error is booked as an unavailable upstream exactly where it looks like a throttle.
  pub classify_error-looks_like_throttle :
      (text : Text)
      → same_class (classify_error text).cls upstream_unavailable ≡ looks_like_throttle text
  unfolding classify_error
  classify_error-looks_like_throttle text = elim (Bool-cases (looks_like_throttle text)) [
    | inl e ↦ rw e refl
    | inr e ↦ rw e (rest_class _ _ _ text)
  ]
