-- ===== src/Providers/Best.antt =====
-- The format whose size `_real_video_size_for_height` reports.
use dwtgbot.Base.{
  ℕ, ◌==◌, ◌||◌, ltb, leb, codes, text_eq, starts_with, ◌+◌, ◌≡◌, refl, ap, sym, ◌⊎◌, inl, inr,
  Bool, true, false, not, ◌&&◌, Option, none, some, List, [], ◌∷◌, ◌++◌, any, all, arith,
  if◌then◌else◌, Bool-cases,
}
use mathlib.Core.Path.{subst}
use dwtgbot.Providers.Formats.{
  VideoFormat, stream_size, height_of, precedes, is_codec, is_video_format, chains, ranks_below,
  better, best_passing, first_chain, with_audio, audio_size, real_video_size_for_height,
}
use dwtgbot.Providers.Audio.{IsAudioSize, audio_size-IsAudioSize}

-- `f` is one of the formats, passes, and no format that passes is higher, or as high and larger.
abbrev pub IsBest : (VideoFormat → Bool) → List VideoFormat → VideoFormat → Type 0
IsBest test formats f =
    ((before : List VideoFormat) × (after : List VideoFormat) × (formats ≡ before ++ (f ∷ after)))
    × (test f ≡ true)
    × (all
          (λ g. not (
            test g
            && (ltb (height_of f) (height_of g)
                || (height_of f == height_of g && ltb (stream_size f) (stream_size g)))))
          formats
        ≡ true)

-- The same, by the order of the search.
abbrev IsTop : (VideoFormat → Bool) → List VideoFormat → VideoFormat → Type 0
IsTop test formats f =
    ((before : List VideoFormat) × (after : List VideoFormat) × (formats ≡ before ++ (f ∷ after)))
    × (test f ≡ true)
    × (all (λ g. not (test g && ranks_below f g)) formats ≡ true)

top-IsBest :
    (test : VideoFormat → Bool) (formats : List VideoFormat) (f : VideoFormat)
    → IsTop test formats f
    → IsBest test formats f
unfolding precedes
top-IsBest test formats f h = h

precedes_self : (a x : ℕ) → precedes a x a x ≡ false
unfolding precedes
precedes_self a x = ground arith

precedes_back : (a x b y : ℕ) → precedes a x b y ≡ true → precedes b y a x ≡ false
unfolding precedes
precedes_back a x b y h = ground arith

precedes_through :
    (a x b y c z : ℕ)
    → precedes a x b y ≡ false
    → precedes b y c z ≡ false
    → precedes a x c z ≡ false
unfolding precedes
precedes_through a x b y c z h k = ground arith

not_above :
    (t p q : Bool) (b : Bool)
    → (q ≡ false → p ≡ false)
    → not (t && q) && b ≡ true
    → (not (t && p) ≡ true) × (b ≡ true)
not_above t p q b more h = ground arith

and_true : (a b : Bool) → a ≡ true → b ≡ true → (a && b) ≡ true
and_true a b h k = ground arith

no_higher :
    (test : VideoFormat → Bool) (f r : VideoFormat) (fs : List VideoFormat)
    → ranks_below f r ≡ false
    → all (λ g. not (test g && ranks_below r g)) fs ≡ true
    → all (λ g. not (test g && ranks_below f g)) fs ≡ true
no_higher test f r [] e h = refl
no_higher test f r (g ∷ gs) e h =
    let (here, there) =
      not_above (test g) (ranks_below f g) (ranks_below r g)
        (all (λ k. not (test k && ranks_below r k)) gs)
        (precedes_through (height_of f) (stream_size f) (height_of r) (stream_size r) (height_of g)
          (stream_size g) e)
        h in
    and_true _ _ here (no_higher test f r gs e there)

not_when : (t b : Bool) → b ≡ false → not (t && b) ≡ true
not_when t b h = ground arith

better_up : (f r : VideoFormat) → ranks_below f r ≡ true → better f (some r) ≡ r
better_up f r h = rw h refl

better_kept : (f r : VideoFormat) → ranks_below f r ≡ false → better f (some r) ≡ f
better_kept f r h = rw h refl

not_self : (t : Bool) (f : VideoFormat) → not (t && ranks_below f f) ≡ true
not_self t f = ground (arith, precedes_self (height_of f) (stream_size f))

none_passes :
    (test : VideoFormat → Bool) (f : VideoFormat) (fs : List VideoFormat)
    → any test fs ≡ false
    → all (λ g. not (test g && ranks_below f g)) fs ≡ true
none_passes test f [] e = refl
none_passes test f (g ∷ gs) e = ground (arith, e, none_passes test f gs)

abbrev Found : (VideoFormat → Bool) → List VideoFormat → Option VideoFormat → Type 0
Found test formats none = any test formats ≡ false
Found test formats (some f) = IsTop test formats f

found_with :
    (test : VideoFormat → Bool) (f : VideoFormat) (fs : List VideoFormat)
    (rest : Option VideoFormat) (b : Bool)
    → test f ≡ b
    → Found test fs rest
    → Found test (f ∷ fs) (if b then some (better f rest) else rest)
found_with test f fs none true e h =
    (([], fs, refl), e, and_true _ _ (not_self (test f) f) (none_passes test f fs h))
found_with test f fs (some r) true e ((before, after, at), passes, top) =
    elim (Bool-cases (ranks_below f r)) [
      | inl up ↦
          let back = precedes_back (height_of f) (stream_size f) (height_of r) (stream_size r) up in
          subst (IsTop test (f ∷ fs)) (sym (better_up f r up)) (
            (f ∷ before, after, ap (λ l. f ∷ l) at),
            passes,
            and_true _ _ (not_when (test f) _ back) top,
          )
      | inr up ↦
          subst (IsTop test (f ∷ fs)) (sym (better_kept f r up))
            (([], fs, refl), e, and_true _ _ (not_self (test f) f) (no_higher test f r fs up top))
    ]
found_with test f fs none false e h = rw e h
found_with test f fs (some r) false e ((before, after, at), passes, top) =
    ((f ∷ before, after, ap (λ l. f ∷ l) at), passes, rw e top)

found :
    (test : VideoFormat → Bool) (formats : List VideoFormat)
    → Found test formats (best_passing test formats)
unfolding best_passing
found test [] = refl
found test (f ∷ fs) = found_with test f fs (best_passing test fs) (test f) refl (found test fs)

abbrev eligible : ℕ → (VideoFormat → Bool) → VideoFormat → Bool
eligible target t f =
    (elim (f.height) [ none ↦ false | some h ↦ leb h target ]
      && (is_codec f.vcodec && ltb 0 (stream_size f)))
    && t f

-- The chains: avc1 in mp4, avc1, mp4, any.
abbrev pub preferred : List (VideoFormat → Bool)
preferred =
    let avc1 : VideoFormat → Bool =
      λ f. elim (f.vcodec) [ none ↦ false | some c ↦ starts_with (codes "avc1") c ] in
    let mp4 : VideoFormat → Bool =
      λ f. elim (f.ext) [ none ↦ false | some e ↦ text_eq e (codes "mp4") ] in
    (λ f. avc1 f && mp4 f) ∷ avc1 ∷ mp4 ∷ (λ f. true) ∷ []

-- The format comes from the first chain that has one, and is the best of that chain.
abbrev pub IsPicked : ℕ → List VideoFormat → List (VideoFormat → Bool) → VideoFormat → Type 0
IsPicked target formats [] f = ⊥
IsPicked target formats (t ∷ ts) f =
    IsBest (eligible target t) formats f
    ⊎ ((any (eligible target t) formats ≡ false) × IsPicked target formats ts f)

-- What the search has found.
abbrev pub Search : ℕ → List VideoFormat → List (VideoFormat → Bool) → Option VideoFormat → Type 0
Search target formats [] none = Unit
Search target formats (t ∷ ts) none =
    (any (eligible target t) formats ≡ false) × Search target formats ts none
Search target formats ts (some f) = IsPicked target formats ts f

next_chain :
    (target : ℕ) (formats : List VideoFormat) (t : VideoFormat → Bool)
    (ts : List (VideoFormat → Bool)) (o rest : Option VideoFormat)
    → Found (eligible target t) formats o
    → Search target formats ts rest
    → Search target formats (t ∷ ts) (elim o [ some f ↦ some f | none ↦ rest ])
next_chain target formats t ts (some f) rest h k = inl (top-IsBest (eligible target t) formats f h)
next_chain target formats t ts none none h k = (h, k)
next_chain target formats t [] none (some g) h k = absurd k
next_chain target formats t (u ∷ us) none (some g) h k = inr (h, k)

searched :
    (target : ℕ) (formats : List VideoFormat) (ts : List (VideoFormat → Bool))
    → Search target formats ts (first_chain target formats ts)
unfolding first_chain is_video_format
searched target formats [] = tt
searched target formats (t ∷ ts) =
    next_chain target formats t ts (best_passing (eligible target t) formats)
      (first_chain target formats ts) (found (eligible target t) formats)
      (searched target formats ts)

-- What the size of a bucket stands for.
abbrev pub SizeOutcome : ℕ → List VideoFormat → Option ℕ → Type 0
SizeOutcome target formats r =
    ((r ≡ none) × Search target formats preferred none)
    ⊎ ((f : VideoFormat) × (audio : ℕ) × (r ≡ some (stream_size f + audio))
        × IsPicked target formats preferred f
        × IsAudioSize formats audio)

sized :
    (target : ℕ) (formats : List VideoFormat) (o : Option VideoFormat)
    → Search target formats chains o
    → SizeOutcome target formats (with_audio formats o)
sized target formats none h = inl (refl, h)
sized target formats (some f) h =
    inr (f, audio_size formats, refl, h, audio_size-IsAudioSize formats)

-- The size of a bucket is `None` exactly when no chain has a video format of at most that height
-- with a known size. Otherwise it is the size of one of the formats, which comes from the first
-- chain that has one and which no format of that chain exceeds in height, or at its height in
-- size, and of the audio track: the largest `m4a` track, or the largest audio-only one where there
-- is no `m4a` one, or nothing where there is none of those either.
pub real_video_size_for_height-IsPicked :
    (formats : List VideoFormat) (target : ℕ)
    → SizeOutcome target formats (real_video_size_for_height formats target)
unfolding real_video_size_for_height
real_video_size_for_height-IsPicked formats target =
    sized target formats (first_chain target formats chains) (searched target formats chains)
