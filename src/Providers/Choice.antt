-- ===== src/Providers/Choice.antt =====
-- The default option of a YouTube video, against the heights that the source has.
use dwtgbot.Base.{
  ℕ, ◌≤◌, ◌<◌, ◌≡◌, refl, ◌∙◌, ◌⊎◌, inl, inr, true, false, ◌||◌, List, [], ◌∷◌, ◌++◌, Text, codes,
  leb, le→leb, ◌==◌, any, all, not, is_empty, arith, if◌then◌else◌,
}
use dwtgbot.Errors.{Exc, exc, download, returned, raised}
use dwtgbot.World.Values.{DownloadOption}
use native.Mathlib.Decide.{dec_lt}
use dwtgbot.Providers.Youtube.{
  YoutubeInfo, video_heights, max_height, video_option, audio_option, offered, video_options,
  build_options, kept_if, tallest, chosen, default_option, video_spec, format_spec_for_option,
}

-- A height of the list is at most its maximum, so that the first of the two tests decides.
member_below : (h : ℕ) (hs : List ℕ) → any (λ g. h == g) hs ≡ true → leb h (max_height hs) ≡ true
member_below h [] e = absurd (cc)
member_below h (g ∷ gs) e = ground (arith, member_below h gs)

offered_lem :
    (info : YoutubeInfo) (h : ℕ) → offered info h ≡ leb h (max_height info.available_heights)
offered_lem info h = ground (arith, member_below h info.available_heights)

shown : (info : YoutubeInfo) (h : ℕ) → h ≤ max_height info.available_heights → offered info h ≡ true
shown info h le = offered_lem info h ∙ le→leb h (max_height info.available_heights) le

lt→leb_false : (a b : ℕ) → b < a → leb a b ≡ false
lt→leb_false a b h = ground arith

hidden :
    (info : YoutubeInfo) (h : ℕ) → max_height info.available_heights < h → offered info h ≡ false
hidden info h lt = offered_lem info h ∙ lt→leb_false h (max_height info.available_heights) lt

-- The option of the bucket `h` is the default, one of those that the picker shows, and the bucket
-- is the highest that does not exceed the source.
abbrev pub IsHighest : (Text → Text) → YoutubeInfo → ℕ → Type 0
IsHighest repr info h =
    (default_option repr info ≡ returned (video_option info h))
    × ((before : List DownloadOption) × (after : List DownloadOption) × (build_options info
          ≡ before ++ (video_option info h ∷ after)))
    × (format_spec_for_option (video_option info h) ≡ returned (video_spec h))
    × (any (λ g. h == g) video_heights ≡ true)
    × (h ≤ max_height info.available_heights)
    × (all (λ g. leb g h || not (leb g (max_height info.available_heights))) video_heights ≡ true)

module _ (repr : Text → Text) (info : YoutubeInfo) where
  abbrev top : ℕ
  top = max_height info.available_heights

  from_1080 : 1080 ≤ top → IsHighest repr info 1080
  unfolding default_option chosen build_options video_options kept_if tallest format_spec_for_option
  from_1080 low =
      rw
        (
          shown info 360 (omega arith),
          shown info 480 (omega arith),
          shown info 720 (omega arith),
          shown info 1080 (omega arith),
        )
        (
          refl,
          (
            video_option info 360 ∷ video_option info 480 ∷ video_option info 720 ∷ [],
            audio_option info ∷ [],
            refl,
          ),
          refl,
          refl,
          low,
          ground (arith, low),
        )

  from_720 : 720 ≤ top → top < 1080 → IsHighest repr info 720
  unfolding default_option chosen build_options video_options kept_if tallest format_spec_for_option
  from_720 low high =
      rw
        (
          shown info 360 (omega arith),
          shown info 480 (omega arith),
          shown info 720 (omega arith),
          hidden info 1080 (omega arith),
        )
        (
          refl,
          (video_option info 360 ∷ video_option info 480 ∷ [], audio_option info ∷ [], refl),
          refl,
          refl,
          low,
          ground (arith, low, high),
        )

  from_480 : 480 ≤ top → top < 720 → IsHighest repr info 480
  unfolding default_option chosen build_options video_options kept_if tallest format_spec_for_option
  from_480 low high =
      rw
        (
          shown info 360 (omega arith),
          shown info 480 (omega arith),
          hidden info 720 (omega arith),
          hidden info 1080 (omega arith),
        )
        (
          refl,
          (video_option info 360 ∷ [], audio_option info ∷ [], refl),
          refl,
          refl,
          low,
          ground (arith, low, high),
        )

  from_360 : 360 ≤ top → top < 480 → IsHighest repr info 360
  unfolding default_option chosen build_options video_options kept_if tallest format_spec_for_option
  from_360 low high =
      rw
        (
          shown info 360 (omega arith),
          hidden info 480 (omega arith),
          hidden info 720 (omega arith),
          hidden info 1080 (omega arith),
        )
        (refl, ([], audio_option info ∷ [], refl), refl, refl, low, ground (arith, low, high))

  none_shown :
      top < 360
      → default_option repr info
        ≡ raised (
            exc download (
              codes "No downloadable video heights for "
              ++ (if is_empty info.media_id then repr info.title else repr info.media_id)))
  unfolding default_option chosen build_options video_options kept_if tallest format_spec_for_option
  none_shown high =
      rw
        (
          hidden info 360 high,
          hidden info 480 (omega arith),
          hidden info 720 (omega arith),
          hidden info 1080 (omega arith),
        )
        refl

  -- Whatever heights the source has: below 360 the default option is refused with `DownloadError`,
  -- never replaced by the audio; otherwise it is the video of the highest bucket that does not
  -- exceed the source, it is one of the options that the picker would show, and the downloader has
  -- a format selector for it.
  pub default_option-IsHighest :
      ((top < 360) × ((e : Exc) × (default_option repr info ≡ raised e) × (e.cls ≡ download)))
      ⊎ ((360 ≤ top) × ((h : ℕ) × IsHighest repr info h))
  default_option-IsHighest = elim (dec_lt top 360) [
    | yes l ↦ inl (l, (_, none_shown l, refl))
    | no g ↦ inr (
      omega arith,
      elim (dec_lt top 480) [
        | yes l ↦ (360, from_360 (omega arith) l)
        | no g ↦ elim (dec_lt top 720) [
          | yes l ↦ (480, from_480 (omega arith) l)
          | no g ↦ elim (dec_lt top 1080) [
            | yes l ↦ (720, from_720 (omega arith) l)
            | no g ↦ (1080, from_1080 (omega arith))
          ]
        ]
      ],
    )
  ]
