-- ===== src/Providers/Instagram.antt =====
-- app/infrastructure/providers/instagram.py: the options, the default one and the items of an
-- option.
use dwtgbot.Base.{
  Bool, true, false, ◌&&◌, none, List, [], ◌∷◌, ◌++◌, Text, codes, decimal, text_eq, any, length,
  if◌then◌else◌,
}
use dwtgbot.Errors.{exc, download, Outcome, returned, raised}
use dwtgbot.Jobs.Entity.{MediaKind, video, audio, photo, gallery}
use dwtgbot.World.Values.{DownloadOption}
use dwtgbot.Providers.Youtube.{is_video}

-- What the methods read of a `MediaItem` and of an Instagram `MediaInfo`; `kinds` stands in `raw`.
pub record MediaItem : Type 0 where
  pub kind : MediaKind
  pub url : Text

pub record InstagramInfo : Type 0 where
  pub kind : MediaKind
  pub items : List MediaItem
  pub kinds : List MediaKind

abbrev pub is_photo : MediaKind → Bool
is_photo photo = true
is_photo _ = false

abbrev pub plain_option : Text → Text → MediaKind → DownloadOption
plain_option key label kind = record {
  key = key;
  label = label;
  kind = kind;
  height = none;
  bitrate_kbps = none;
  container = none;
  estimated_size_bytes = none;
}

abbrev pub per_kind_options : List MediaKind → List DownloadOption
per_kind_options kinds =
    if any is_video kinds && any is_photo kinds
    then plain_option (codes "gallery_videos") (codes "Только видео") video
      ∷ plain_option (codes "gallery_photos") (codes "Только фото") photo
      ∷ []
    else []

abbrev pub options_of : MediaKind → InstagramInfo → List DownloadOption
options_of gallery info =
    plain_option (codes "gallery_all")
      (codes "Скачать всё (" ++ (decimal (length info.items) ++ codes ")")) gallery
    ∷ per_kind_options info.kinds
options_of video info = plain_option (codes "single_video") (codes "Скачать видео") video ∷ []
options_of photo info = plain_option (codes "single_photo") (codes "Скачать фото") photo ∷ []
options_of audio info = []

unfoldable pub instagram_options : InstagramInfo → List DownloadOption
instagram_options info = options_of info.kind info

abbrev pub kind_value : MediaKind → Text
kind_value video = codes "video"
kind_value audio = codes "audio"
kind_value photo = codes "photo"
kind_value gallery = codes "gallery"

abbrev pub is_gallery : MediaKind → Bool
is_gallery gallery = true
is_gallery _ = false

unfoldable pub gallery_all_of : List DownloadOption → Outcome DownloadOption
gallery_all_of [] =
    raised (exc download (codes "Instagram gallery default (gallery_all) missing from options"))
gallery_all_of (o ∷ os) =
    let rest = gallery_all_of os in if text_eq o.key (codes "gallery_all") then returned o else rest

unfoldable pub first_or_gallery : MediaKind → List DownloadOption → Outcome DownloadOption
unfolding gallery_all_of
first_or_gallery kind [] = raised (
    exc download
      (codes "Instagram post has no downloadable shape (kind=" ++ (kind_value kind ++ codes ")")))
first_or_gallery kind (o ∷ os) = if is_gallery kind then gallery_all_of (o ∷ os) else returned o

unfoldable pub instagram_default : InstagramInfo → Outcome DownloadOption
unfolding first_or_gallery instagram_options
instagram_default info = first_or_gallery info.kind (instagram_options info)

-- `_items_for_option`.
unfoldable pub items_of_kind : (MediaKind → Bool) → List MediaItem → List MediaItem
items_of_kind test [] = []
items_of_kind test (i ∷ is) =
    let rest = items_of_kind test is in if test i.kind then i ∷ rest else rest

unfoldable pub items_for_option : InstagramInfo → Text → List MediaItem
unfolding items_of_kind
items_for_option info key =
    if is_gallery info.kind
    then (if text_eq key (codes "gallery_videos")
        then items_of_kind is_video info.items
        else if text_eq key (codes "gallery_photos")
        then items_of_kind is_photo info.items
        else info.items)
    else info.items
