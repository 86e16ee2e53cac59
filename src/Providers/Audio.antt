-- ===== src/Providers/Audio.antt =====
-- The audio track in what `_real_video_size_for_height` reports
-- (app/infrastructure/providers/youtube.py).
use dwtgbot.Base.{
  ℕ, ◌≤◌, ◌==◌, ◌||◌, ltb, leb, max, codes, ◌≡◌, refl, sym, ◌⊎◌, inl, inr, Bool, true, false, not,
  ◌&&◌, List, [], ◌∷◌, any, all, arith, if◌then◌else◌, Bool-cases,
}
use mathlib.Core.Path.{subst}
use dwtgbot.Providers.Formats.{
  VideoFormat, stream_size, is_text, is_audio_only, largest_size, audio_size,
}

-- No format that passes is larger than this, and one of them is just as large.
abbrev pub IsLargest : (VideoFormat → Bool) → List VideoFormat → ℕ → Type 0
IsLargest test formats n =
    (all (λ f. not (test f && ltb n (stream_size f))) formats ≡ true)
    × (any (λ f. test f && stream_size f == n) formats ≡ true)

-- The audio track: the largest of the `m4a` tracks, else of the audio-only tracks, else nothing.
abbrev pub IsAudioSize : List VideoFormat → ℕ → Type 0
IsAudioSize formats n =
    let is_m4a : VideoFormat → Bool = λ f. is_audio_only f && is_text (codes "m4a") f.ext in
    IsLargest is_m4a formats n
    ⊎ ((any is_m4a formats ≡ false)
        × (IsLargest is_audio_only formats n ⊎ ((any is_audio_only formats ≡ false) × (n ≡ 0))))

abbrev Bounded : (VideoFormat → Bool) → List VideoFormat → ℕ → Type 0
Bounded test formats n = all (λ f. not (test f && ltb n (stream_size f))) formats ≡ true

Bounded-up :
    (test : VideoFormat → Bool) (formats : List VideoFormat) (m n : ℕ)
    → m ≤ n
    → Bounded test formats m
    → Bounded test formats n
Bounded-up test [] m n le h = refl
Bounded-up test (f ∷ fs) m n le h = ground (arith, Bounded-up test fs m n le)

rest_within : (t : Bool) (size rest : ℕ) → rest ≤ (if t then max size rest else rest)
rest_within t size rest = ground arith

bounded_top :
    (t : Bool) (size rest : ℕ) (b : Bool)
    → b ≡ true
    → not (t && ltb (if t then max size rest else rest) size) && b ≡ true
bounded_top t size rest b h = ground (arith, h)

largest_size-Bounded :
    (test : VideoFormat → Bool) (formats : List VideoFormat)
    → Bounded test formats (largest_size test formats)
unfolding largest_size
largest_size-Bounded test [] = refl
largest_size-Bounded test (f ∷ fs) =
    let rest = largest_size test fs in
    bounded_top (test f) (stream_size f) rest _ (
      Bounded-up test fs rest _ (rest_within (test f) (stream_size f) rest)
        (largest_size-Bounded test fs))

largest_size_none :
    (test : VideoFormat → Bool) (formats : List VideoFormat)
    → any test formats ≡ false
    → largest_size test formats ≡ 0
unfolding largest_size
largest_size_none test [] h = refl
largest_size_none test (f ∷ fs) h = ground (arith, largest_size_none test fs)

some_pass :
    (test : VideoFormat → Bool) (formats : List VideoFormat) (n : ℕ)
    → leb (largest_size test formats) n ≡ false
    → any test formats ≡ true
some_pass test formats n h = elim (Bool-cases (any test formats)) [
  | inl passes ↦ passes
  | inr fails ↦ absurd (ground (arith, h, largest_size_none test formats fails))
]

abbrev Attained : (VideoFormat → Bool) → List VideoFormat → ℕ → Type 0
Attained test formats n = any (λ f. test f && stream_size f == n) formats ≡ true

top_is_head :
    (t : Bool) (size rest : ℕ)
    → t ≡ true
    → leb rest size ≡ true
    → (if t then max size rest else rest) ≡ size
top_is_head t size rest h k = ground (arith, h, k)

top_skips : (t : Bool) (size rest : ℕ) → t ≡ false → (if t then max size rest else rest) ≡ rest
top_skips t size rest h = ground (arith, h)

top_is_rest :
    (t : Bool) (size rest : ℕ) → leb rest size ≡ false → (if t then max size rest else rest) ≡ rest
top_is_rest t size rest k = ground (arith, k)

or_true : (a b : Bool) → b ≡ true → a || b ≡ true
or_true a b h = ground arith

largest_size-attained :
    (test : VideoFormat → Bool) (formats : List VideoFormat)
    → any test formats ≡ true
    → any (λ f. test f && stream_size f == largest_size test formats) formats ≡ true
unfolding largest_size
largest_size-attained test [] h = absurd (cc)
largest_size-attained test (f ∷ fs) h = elim (Bool-cases (test f)) [
  | inr fails ↦
      let below = largest_size-attained test fs (rw fails at h) in
      subst (Attained test (f ∷ fs)) (sym (top_skips (test f) (stream_size f) _ fails))
        (or_true _ _ below)
  | inl passes ↦ elim (Bool-cases (leb (largest_size test fs) (stream_size f))) [
    | inl big ↦
        subst (Attained test (f ∷ fs)) (sym (top_is_head (test f) (stream_size f) _ passes big))
          (ground (arith, passes))
    | inr small ↦
        let below = largest_size-attained test fs (some_pass test fs _ small) in
        subst (Attained test (f ∷ fs)) (sym (top_is_rest (test f) (stream_size f) _ small))
          (or_true _ _ below)
  ]
]

largest_size-IsLargest :
    (test : VideoFormat → Bool) (formats : List VideoFormat)
    → any test formats ≡ true
    → IsLargest test formats (largest_size test formats)
largest_size-IsLargest test formats h =
    (largest_size-Bounded test formats, largest_size-attained test formats h)

pub audio_size-IsAudioSize : (formats : List VideoFormat) → IsAudioSize formats (audio_size formats)
unfolding audio_size
audio_size-IsAudioSize formats =
    let is_m4a : VideoFormat → Bool = λ f. is_audio_only f && is_text (codes "m4a") f.ext in
    elim (Bool-cases (any is_m4a formats)) [
      | inl some_m4a ↦ rw some_m4a (inl (largest_size-IsLargest is_m4a formats some_m4a))
      | inr no_m4a ↦ rw no_m4a (
          inr (
            refl,
            elim (Bool-cases (any is_audio_only formats)) [
              | inl tracks ↦ inl (largest_size-IsLargest is_audio_only formats tracks)
              | inr silent ↦ inr (silent, largest_size_none is_audio_only formats silent)
            ],
          ))
    ]
