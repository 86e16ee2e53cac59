-- ===== src/Bot/Keyboard.antt =====
-- app/bot/keyboards/download_options.py.
use dwtgbot.Base.{
  ℕ, ◌+◌, ◌*◌, ◌/◌, ◌%◌, Bool, ◌||◌, ◌&&◌, Option, none, some, List, [], ◌∷◌, ◌++◌, Text, codes,
  decimal, ltb, ◌==◌, if◌then◌else◌,
}
use dwtgbot.Errors.{Outcome, returned, raised}
use dwtgbot.Jobs.Entity.{MediaKind, video, audio, photo, gallery}
use dwtgbot.World.Values.{DownloadOption, Button, callback_button, Keyboard}
use dwtgbot.Callbacks.Codec.{encode_download, encode_cancel}

-- `_KIND_ORDER`.
abbrev pub kind_order : MediaKind → ℕ
kind_order video = 0
kind_order audio = 1
kind_order photo = 2
kind_order gallery = 3

abbrev pub or_zero : Option ℕ → ℕ
or_zero none = 0
or_zero (some n) = n

-- `_sort_key(a) < _sort_key(b)`.
abbrev pub sorts_before : DownloadOption → DownloadOption → Bool
sorts_before a b =
    ltb (kind_order a.kind) (kind_order b.kind)
    || (kind_order a.kind == kind_order b.kind && ltb (or_zero a.height) (or_zero b.height))

-- `sorted`, which keeps the order of options with equal keys.
abbrev pub insert_option : DownloadOption → List DownloadOption → List DownloadOption
insert_option a [] = a ∷ []
insert_option a (b ∷ r) = if sorts_before b a then b ∷ insert_option a r else a ∷ b ∷ r

unfoldable pub sorted_options : List DownloadOption → List DownloadOption
sorted_options [] = []
sorted_options (a ∷ r) = insert_option a (sorted_options r)

-- `f"{n / 1024 / 1024:.0f}"`: a half goes to the even neighbour.
abbrev pub whole_mib : ℕ → ℕ
whole_mib n =
    let q = n / 1048576 in
    let r = n % 1048576 in
    if ltb (2 * r) 1048576 then q else if 2 * r == 1048576 then q + q % 2 else q + 1

abbrev pub sized_label : Text → Option ℕ → Text
sized_label label none = label
sized_label label (some n) =
    if n == 0 then label else label ++ (codes " · ~" ++ (decimal (whole_mib n) ++ codes " MB"))

-- `_button_label`.
unfoldable pub button_label : DownloadOption → Text
unfolding decimal
button_label opt = sized_label opt.label opt.estimated_size_bytes

abbrev pub with_data : Text → Outcome Text → Outcome (List Button) → Outcome (List Button)
with_data label (raised e) _ = raised e
with_data label (returned data_) (raised e) = raised e
with_data label (returned data_) (returned rest) = returned (callback_button label data_ ∷ rest)

unfoldable pub option_buttons : Text → List DownloadOption → Outcome (List Button)
unfolding button_label encode_download
option_buttons request_id [] = returned []
option_buttons request_id (opt ∷ r) =
    with_data (button_label opt)
      (encode_download (record { request_id = request_id; option_key = opt.key }))
      (option_buttons request_id r)

-- Rows of two.
unfoldable pub in_rows : List Button → Keyboard
in_rows [] = []
in_rows (a ∷ []) = (a ∷ []) ∷ []
in_rows (a ∷ b ∷ r) = (a ∷ b ∷ []) ∷ in_rows r

abbrev pub with_cancel_row : Text → Outcome (List Button) → Outcome Keyboard
with_cancel_row request_id (raised e) = raised e
with_cancel_row request_id (returned buttons) =
    returned
      (in_rows buttons ++ ((callback_button (codes "Отмена") (encode_cancel request_id) ∷ []) ∷ []))

-- `build_options_keyboard`.
unfoldable pub build_options_keyboard : Text → List DownloadOption → Outcome Keyboard
unfolding option_buttons sorted_options in_rows encode_cancel
build_options_keyboard request_id options =
    with_cancel_row request_id (option_buttons request_id (sorted_options options))
