-- ===== src/Delivery/Format.antt =====
-- The texts of app/application/services/delivery_service.py: captions, sizes, file kinds.
use dwtgbot.Base.{
  ℕ, ◌+◌, ◌*◌, ◌/◌, ◌%◌, Bool, true, false, ◌&&◌, ◌||◌, Option, none, some, List, [], ◌∷◌, ◌++◌,
  map, Text, codes, decimal, text_eq, is_empty, ◌==◌, ltb, leb, any, if◌then◌else◌,
}
use dwtgbot.Jobs.Entity.{MediaKind, video, audio, photo, gallery}
use dwtgbot.World.Values.{DownloadResult}

-- `html.escape(text, quote=False)`, code point by code point.
abbrev escape_one : ℕ → Text
escape_one c =
    if c == b'&'
    then codes "&amp;"
    else if c == b'<'
    then codes "&lt;"
    else if c == b'>'
    then codes "&gt;"
    else c ∷ []

unfoldable pub escape : Text → Text
escape [] = []
escape (c ∷ s) = escape_one c ++ escape s

-- `f"{n / factor:.1f}"` for a power of two: the quotient is exact in a double below 2^53, and the
-- format rounds it to tenths, a tie to the even one.
unfoldable pub tenths : ℕ → ℕ → ℕ
tenths n factor =
    let q = 10 * n / factor in
    let r = 2 * (10 * n % factor) in
    if ltb r factor then q else if ltb factor r then q + 1 else if q % 2 == 0 then q else q + 1

abbrev in_unit : ℕ → ℕ → Text → Text
in_unit n factor name =
    let t = tenths n factor in
    decimal (t / 10) ++ (codes "." ++ (decimal (t % 10) ++ (codes " " ++ name)))

-- The loop over the units, from the largest.
unfoldable pub format_size : ℕ → Text
unfolding tenths decimal
format_size n =
    if ltb n 1024
    then decimal n ++ codes " B"
    else if leb 1073741824 n
    then in_unit n 1073741824 (codes "GB")
    else if leb 1048576 n
    then in_unit n 1048576 (codes "MB")
    else if leb 1024 n
    then in_unit n 1024 (codes "KB")
    else decimal n ++ codes " B"

unfoldable pub caption : DownloadResult → ℕ → Text → Text
unfolding escape format_size
caption r size footer =
    let base =
      codes "<b>" ++ (escape r.title ++ (codes "</b>\nРазмер файла: " ++ format_size size)) in
    if is_empty footer then base else base ++ (codes "\n\n" ++ escape footer)

-- The part behind the last `sep`, or the whole text; `seen` is what stands behind the last one met.
abbrev behind_last : ℕ → Text → Text → Text
behind_last sep seen [] = seen
behind_last sep seen (c ∷ s) = behind_last sep (if c == sep then s else seen) s

-- `path.name`.
unfoldable pub file_name : Text → Text
file_name path = behind_last b'/' path path

-- `text.lower()` on ASCII letters; no other letter occurs in an extension that is compared.
abbrev pub lower : Text → Text
lower = map (λ c. if leb b'A' c && leb c b'Z' then c + 32 else c)

-- The extension without its dot: what stands behind the last dot, if that dot is neither the first
-- nor the last character of the name.
abbrev suffix_from : Bool → Option Text → Text → Option Text
suffix_from first seen [] = seen
suffix_from first seen (c ∷ s) =
    suffix_from false (if c == b'.' then (if first || is_empty s then none else some s) else seen) s

unfoldable pub suffix : Text → Option Text
unfolding file_name
suffix path = suffix_from true none (file_name path)

abbrev one_of : Option Text → List Text → Bool
one_of none exts = false
one_of (some e) exts = any (text_eq (lower e)) exts

abbrev video_exts : List Text
video_exts = codes "mp4" ∷ codes "mov" ∷ codes "m4v" ∷ codes "webm" ∷ codes "mkv" ∷ []

abbrev image_exts : List Text
image_exts = codes "jpg" ∷ codes "jpeg" ∷ codes "png" ∷ codes "webp" ∷ []

abbrev audio_exts : List Text
audio_exts =
    codes "mp3" ∷ codes "m4a" ∷ codes "aac" ∷ codes "ogg" ∷ codes "opus" ∷ codes "flac" ∷ []

-- `GALLERY` stands for a document.
unfoldable pub infer_kind : Text → MediaKind
unfolding suffix
infer_kind path =
    let ext = suffix path in
    if one_of ext video_exts
    then video
    else if one_of ext image_exts
    then photo
    else if one_of ext audio_exts
    then audio
    else gallery
