-- ===== src/Providers/Formats.antt =====
-- `_real_video_size_for_height` of app/infrastructure/providers/youtube.py.
use dwtgbot.Base.{
  ℕ, ◌+◌, Bool, true, false, not, ◌&&◌, ◌||◌, Option, none, some, List, [], ◌∷◌, Text, codes,
  text_eq, starts_with, leb, ltb, ◌==◌, any, max, if◌then◌else◌,
}

-- The keys of a yt-dlp format that the function reads, where a missing key is `none`. Sizes are
-- whole numbers of bytes.
pub record VideoFormat : Type 0 where
  pub height : Option ℕ
  pub vcodec : Option Text
  pub ext : Option Text
  pub filesize : Option ℕ
  pub filesize_approx : Option ℕ

-- `a or b` of a size.
abbrev pub or_size : Option ℕ → ℕ → ℕ
or_size none other = other
or_size (some n) other = if n == 0 then other else n

abbrev pub stream_size : VideoFormat → ℕ
stream_size f = or_size f.filesize (or_size f.filesize_approx 0)

-- `value not in (None, "none")`.
abbrev pub is_codec : Option Text → Bool
is_codec none = false
is_codec (some c) = not (text_eq c (codes "none"))

abbrev pub is_text : Text → Option Text → Bool
is_text t none = false
is_text t (some s) = text_eq s t

abbrev pub within_height : ℕ → Option ℕ → Bool
within_height target none = false
within_height target (some h) = leb h target

unfoldable pub is_video_format : ℕ → VideoFormat → Bool
is_video_format target f =
    within_height target f.height && (is_codec f.vcodec && ltb 0 (stream_size f))

abbrev pub is_avc1 : VideoFormat → Bool
is_avc1 f = elim (f.vcodec) [ none ↦ false | some c ↦ starts_with (codes "avc1") c ]

abbrev pub is_mp4 : VideoFormat → Bool
is_mp4 f = is_text (codes "mp4") f.ext

abbrev pub chains : List (VideoFormat → Bool)
chains = (λ f. is_avc1 f && is_mp4 f) ∷ is_avc1 ∷ is_mp4 ∷ (λ f. true) ∷ []

abbrev pub height_of : VideoFormat → ℕ
height_of f = elim (f.height) [ none ↦ 0 | some h ↦ h ]

-- The order of the keys `(height, size)`.
unfoldable pub precedes : ℕ → ℕ → ℕ → ℕ → Bool
precedes a x b y = ltb a b || (a == b && ltb x y)

abbrev pub ranks_below : VideoFormat → VideoFormat → Bool
ranks_below f g = precedes (height_of f) (stream_size f) (height_of g) (stream_size g)

-- The best format that passes: the first of the largest.
abbrev pub better : VideoFormat → Option VideoFormat → VideoFormat
better f none = f
better f (some g) = if ranks_below f g then g else f

unfoldable pub best_passing : (VideoFormat → Bool) → List VideoFormat → Option VideoFormat
best_passing test [] = none
best_passing test (f ∷ fs) =
    let rest = best_passing test fs in if test f then some (better f rest) else rest

-- The loop over the chains.
unfoldable pub first_chain : ℕ → List VideoFormat → List (VideoFormat → Bool) → Option VideoFormat
first_chain target formats [] = none
first_chain target formats (t ∷ ts) =
    elim (best_passing (λ f. is_video_format target f && t f) formats) [
      | some f ↦ some f
      | none ↦ first_chain target formats ts
    ]

abbrev pub is_audio_only : VideoFormat → Bool
is_audio_only f = not (is_codec f.vcodec) && ltb 0 (stream_size f)

-- `max(…, default=0)` of the sizes of the formats that pass.
unfoldable pub largest_size : (VideoFormat → Bool) → List VideoFormat → ℕ
largest_size test [] = 0
largest_size test (f ∷ fs) =
    let rest = largest_size test fs in if test f then max (stream_size f) rest else rest

unfoldable pub audio_size : List VideoFormat → ℕ
unfolding largest_size
audio_size formats =
    let is_m4a = λ (f : VideoFormat). is_audio_only f && is_text (codes "m4a") f.ext in
    if any is_m4a formats then largest_size is_m4a formats else largest_size is_audio_only formats

abbrev pub with_audio : List VideoFormat → Option VideoFormat → Option ℕ
with_audio formats none = none
with_audio formats (some f) = some (stream_size f + audio_size formats)

unfoldable pub real_video_size_for_height : List VideoFormat → ℕ → Option ℕ
unfolding first_chain
real_video_size_for_height formats target = with_audio formats (first_chain target formats chains)
