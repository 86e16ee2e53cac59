-- ===== src/Callbacks/Codec.antt =====
-- app/bot/callbacks/codec.py. Lengths are counted as the source counts them, in characters.
use dwtgbot.Base.{
  ℕ, not, ◌||◌, Option, none, some, List, [], ◌∷◌, ◌++◌, Text, codes, decimal, is_empty,
  starts_with, ltb, ◌==◌, length, if◌then◌else◌,
}
use dwtgbot.Errors.{exc, value, Outcome, returned, raised}
use dwtgbot.Strings.Cut.{split_max}
use dwtgbot.Strings.Digits.{Number, parse_int}

abbrev pub sep : ℕ
sep = b'|'

abbrev pub max_callback_len : ℕ
max_callback_len = 64

-- The check that ends each `encode`.
abbrev pub fitting : Text → Outcome Text
fitting encoded =
    if ltb max_callback_len (length encoded)
    then raised (
        exc value (codes "callback_data too long: " ++ (decimal (length encoded) ++ codes " > 64")))
    else returned encoded

pub record DownloadCallback : Type 0 where
  pub request_id : Text
  pub option_key : Text

unfoldable pub encode_download : DownloadCallback → Outcome Text
unfolding decimal
encode_download cb = fitting (codes "dl" ++ (sep ∷ (cb.request_id ++ (sep ∷ cb.option_key))))

abbrev pub filled : Text → Text → Option DownloadCallback
filled request_id option_key =
    if is_empty request_id || is_empty option_key
    then none
    else some (record { request_id = request_id; option_key = option_key })

abbrev pub download_parts : List Text → Option DownloadCallback
download_parts (_ ∷ request_id ∷ option_key ∷ []) = filled request_id option_key
download_parts _ = none

unfoldable pub decode_download : Text → Option DownloadCallback
unfolding split_max
decode_download raw =
    if is_empty raw || not (starts_with (codes "dl|") raw)
    then none
    else download_parts (split_max 2 sep raw)

unfoldable pub encode_cancel : Text → Text
encode_cancel request_id = codes "x" ++ (sep ∷ request_id)

-- `CancelJobCallback` and `PostTextCallback` are a prefix and a job id.
abbrev pub prefix_cancel_job : Text
prefix_cancel_job = codes "cj"

abbrev pub prefix_post_text : Text
prefix_post_text = codes "pt"

unfoldable pub encode_job : Text → ℕ → Outcome Text
unfolding decimal
encode_job prefix job_id = fitting (prefix ++ (sep ∷ decimal job_id))

-- An id that is not positive is refused.
abbrev pub positive : Option Number → Option ℕ
positive none = none
positive (some n) = if n.is_negative || n.magnitude == 0 then none else some n.magnitude

abbrev pub job_parts : (ℕ → Option ℕ) → List Text → Option ℕ
job_parts wide_digit (_ ∷ job_id ∷ []) = positive (parse_int wide_digit job_id)
job_parts wide_digit _ = none

unfoldable pub decode_job : (ℕ → Option ℕ) → Text → Text → Option ℕ
unfolding split_max parse_int
decode_job wide_digit prefix raw =
    if is_empty raw || not (starts_with (prefix ++ (sep ∷ [])) raw)
    then none
    else job_parts wide_digit (split_max 1 sep raw)
