-- ===== src/Providers/Youtube.antt =====
-- app/infrastructure/providers/youtube.py: the options, the default one and the format selectors.
use dwtgbot.Base.{
  ℕ, ◌*◌, Bool, true, false, ◌&&◌, ◌||◌, Option, none, some, List, [], ◌∷◌, ◌++◌, Text, codes,
  decimal, text_eq, is_empty, is_some, starts_with, leb, ltb, ◌==◌, any, max, if◌then◌else◌,
}
use dwtgbot.Errors.{exc, download, Outcome, returned, raised}
use dwtgbot.Jobs.Entity.{MediaKind, video, audio}
use dwtgbot.World.Values.{DownloadOption}

-- What the methods read of a YouTube `MediaInfo`; the last three stand in its `raw`. The duration
-- is in whole seconds, and a size is a whole number of bytes.
pub record YoutubeInfo : Type 0 where
  pub media_id : Text
  pub title : Text
  pub available_heights : List ℕ
  pub duration : Option ℕ
  pub size_by_height : List (Text × ℕ)

abbrev pub video_heights : List ℕ
video_heights = 360 ∷ 480 ∷ 720 ∷ 1080 ∷ []

abbrev pub is_video : MediaKind → Bool
is_video video = true
is_video _ = false

abbrev pub is_audio : MediaKind → Bool
is_audio audio = true
is_audio _ = false

-- `max(heights) if heights else 0`.
abbrev pub max_height : List ℕ → ℕ
max_height [] = 0
max_height (h ∷ hs) = max h (max_height hs)

-- `int(kbps * 1000 / 8 * duration)`, where a duration that is zero counts as none.
abbrev pub bytes_of : ℕ → Option ℕ → Option ℕ
bytes_of kbps none = none
bytes_of kbps (some s) = if s == 0 then none else some (kbps * 125 * s)

abbrev pub bitrate_of : ℕ → ℕ
bitrate_of height =
    if height == 360
    then 800
    else if height == 480
    then 1200
    else if height == 1080
    then 5000
    else 2500

-- `_estimate_video_size` and `_estimate_audio_size`.
unfoldable pub estimate_video_size : ℕ → Option ℕ → Option ℕ
estimate_video_size height duration = bytes_of (bitrate_of height) duration

unfoldable pub estimate_audio_size : ℕ → Option ℕ → Option ℕ
estimate_audio_size kbps duration = bytes_of kbps duration

abbrev pub size_of : Text → List (Text × ℕ) → Option ℕ
size_of key [] = none
size_of key ((k, size) ∷ sizes) = if text_eq key k then some size else size_of key sizes

abbrev pub real_or_estimate : Option ℕ → Option ℕ → Option ℕ
real_or_estimate none estimate = estimate
real_or_estimate (some size) estimate = if ltb 0 size then some size else estimate

unfoldable pub estimated_size : YoutubeInfo → ℕ → Option ℕ
estimated_size info h =
    real_or_estimate (size_of (decimal h) info.size_by_height) (estimate_video_size h info.duration)

abbrev pub video_option : YoutubeInfo → ℕ → DownloadOption
video_option info h = record {
  key = codes "video_" ++ decimal h;
  label = codes "Видео " ++ (decimal h ++ codes "p");
  kind = video;
  height = some h;
  bitrate_kbps = none;
  container = some (codes "mp4");
  estimated_size_bytes = estimated_size info h;
}

abbrev pub audio_option : YoutubeInfo → DownloadOption
audio_option info = record {
  key = codes "audio_mp3";
  label = codes "Только аудио (MP3)";
  kind = audio;
  height = none;
  bitrate_kbps = some 192;
  container = some (codes "mp3");
  estimated_size_bytes = estimate_audio_size 192 info.duration;
}

-- Whether a bucket is shown.
abbrev pub offered : YoutubeInfo → ℕ → Bool
offered info h =
    leb h (max_height info.available_heights) || any (λ g. h == g) info.available_heights

-- The loop over the buckets.
unfoldable pub video_options : YoutubeInfo → List ℕ → List DownloadOption
video_options info [] = []
video_options info (h ∷ hs) =
    let rest = video_options info hs in if offered info h then video_option info h ∷ rest else rest

unfoldable pub build_options : YoutubeInfo → List DownloadOption
unfolding video_options
build_options info = video_options info video_heights ++ (audio_option info ∷ [])

-- The filter of `default_option`.
abbrev pub is_video_bucket : DownloadOption → Bool
is_video_bucket o = is_video o.kind && (is_some o.height && starts_with (codes "video_") o.key)

unfoldable pub kept_if : (DownloadOption → Bool) → List DownloadOption → List DownloadOption
kept_if test [] = []
kept_if test (o ∷ os) = let rest = kept_if test os in if test o then o ∷ rest else rest

abbrev pub height_or_zero : DownloadOption → ℕ
height_or_zero o = elim (o.height) [ none ↦ 0 | some h ↦ h ]

-- `max(options, key=…)`: the first of the largest.
unfoldable pub tallest : DownloadOption → List DownloadOption → DownloadOption
tallest best [] = best
tallest best (o ∷ os) =
    tallest (if ltb (height_or_zero best) (height_or_zero o) then o else best) os

-- `repr` of a text is Python's.
module _ (repr : Text → Text) where
  unfoldable pub chosen : YoutubeInfo → List DownloadOption → Outcome DownloadOption
  unfolding tallest
  chosen info [] = raised (
      exc download (
        codes "No downloadable video heights for "
        ++ (if is_empty info.media_id then repr info.title else repr info.media_id)))
  chosen info (o ∷ os) = returned (tallest o os)

  unfoldable pub default_option : YoutubeInfo → Outcome DownloadOption
  unfolding chosen build_options kept_if
  default_option info = chosen info (kept_if is_video_bucket (build_options info))

-- `_format_spec_for_option`.
abbrev pub video_spec : ℕ → Text
video_spec h =
    let best = codes "bestvideo[height<=" ++ (decimal h ++ codes "]") in
    best
    ++ (codes "[vcodec^=avc1][ext=mp4]+bestaudio[ext=m4a]/"
        ++ (best
            ++ (codes "[vcodec^=avc1]+bestaudio[ext=m4a]/"
                ++ (best
                    ++ (codes "[ext=mp4]+bestaudio[ext=m4a]/"
                        ++ (best
                            ++ (codes "+bestaudio/best[height<=" ++ (decimal h ++ codes "]"))))))))

unfoldable pub spec_by : Text → MediaKind → Option ℕ → Outcome Text
spec_by key audio height = returned (codes "bestaudio/best")
spec_by key video (some h) = returned (video_spec h)
spec_by key _ _ =
    raised (exc download (codes "Unsupported YouTube option for format probe: " ++ key))

unfoldable pub format_spec_for_option : DownloadOption → Outcome Text
unfolding spec_by
format_spec_for_option option = spec_by option.key option.kind option.height
