-- ===== src/Callbacks/RoundTrip.antt =====
-- What a button carries is what its handler reads.
use dwtgbot.Base.{
  ℕ, ◌≤◌, ◌<◌, ◌≡◌, refl, sym, ap, ◌∙◌, ◌⊎◌, inl, inr, true, false, Option, none, some, [], ◌∷◌,
  ◌++◌, Text, codes, decimal, is_empty, starts_with, length, length-append, arith, Option-cases,
}
use dwtgbot.Errors.{returned}
use dwtgbot.Strings.Cut.{
  split_max, lacks, split_max-lacks, split_max-none, split_max-some, split_max-zero, before, behind,
  before-behind,
}
use dwtgbot.Strings.Digits.{parse_int-decimal}
use dwtgbot.Delivery.Service.{post_text_callback_data}
use dwtgbot.Callbacks.Codec.{
  sep, max_callback_len, fitting, DownloadCallback, encode_download, filled, download_parts,
  decode_download, prefix_cancel_job, prefix_post_text, encode_job, positive, job_parts, decode_job,
}

fitting_short :
    (encoded raw : Text)
    → fitting encoded ≡ returned raw
    → (raw ≡ encoded) × (length encoded ≤ max_callback_len)
fitting_short encoded raw h = ground (arith, h)

filled_lem :
    (cb : DownloadCallback)
    → is_empty cb.request_id ≡ false
    → is_empty cb.option_key ≡ false
    → filled cb.request_id cb.option_key ≡ some cb
filled_lem cb a b = rw (a, b) refl

starts_with_prefix :
    (p : Text) (rest : Text) → starts_with (p ++ (sep ∷ [])) (p ++ (sep ∷ rest)) ≡ true
starts_with_prefix [] rest = refl
starts_with_prefix (c ∷ p) rest = ground (arith, starts_with_prefix p rest)

nonempty_wire : (p rest : Text) → is_empty (p ++ (sep ∷ rest)) ≡ false
nonempty_wire [] rest = refl
nonempty_wire (c ∷ p) rest = refl

-- A text that begins with `dl|` has `dl` before its first separator.
before_dl : (raw : Text) → starts_with (codes "dl|") raw ≡ true → before sep raw ≡ codes "dl"
unfolding before
before_dl [] h = cc
before_dl (a ∷ []) h = ground (arith, h)
before_dl (a ∷ b ∷ []) h = ground (arith, h)
before_dl (a ∷ b ∷ c ∷ raw) h = ground (arith, h)

none_is_some : {A : Type 0} {a : A} → none ≡ some a → ⊥
none_is_some h = cc

filled_fields :
    (request_id option_key : Text) (cb : DownloadCallback)
    → filled request_id option_key ≡ some cb
    → (request_id ≡ cb.request_id) × (option_key ≡ cb.option_key)
filled_fields request_id option_key cb h = ground (arith, h)

-- Two cuts that answer three parts spell the text.
parts_spell :
    (raw : Text) (cb : DownloadCallback)
    → download_parts (split_max 2 sep raw) ≡ some cb
    → raw ≡ before sep raw ++ (sep ∷ (cb.request_id ++ (sep ∷ cb.option_key)))
parts_spell raw cb h = elim (Option-cases (behind sep raw)) [
  | inl missing ↦
      let one = ap download_parts (split_max-none 1 sep raw missing) in
      absurd (none_is_some (sym one ∙ h))
  | inr (rest, found) ↦
      let first = split_max-some 1 sep raw rest found in
      elim (Option-cases (behind sep rest)) [
        | inl missing ↦
            let two =
              ap (λ l. download_parts (before sep raw ∷ l)) (split_max-none 0 sep rest missing) in
            absurd (none_is_some (sym (ap download_parts first ∙ two) ∙ h))
        | inr (key, second) ↦
            let two =
              ap (λ l. download_parts (before sep raw ∷ l))
                (split_max-some 0 sep rest key second
                  ∙ ap (λ l. before sep rest ∷ l) (split_max-zero sep key)) in
            let fields =
              filled_fields (before sep rest) key cb (sym (ap download_parts first ∙ two) ∙ h) in
            before-behind sep raw rest found
            ∙ ap (λ t. before sep raw ++ (sep ∷ t))
                (before-behind sep rest key second ∙ rw (fields.0, fields.1) refl)
      ]
]

abbrev download_wire : DownloadCallback → Text
download_wire cb = codes "dl" ++ (sep ∷ (cb.request_id ++ (sep ∷ cb.option_key)))

split_wire :
    (cb : DownloadCallback)
    → lacks sep cb.request_id ≡ true
    → split_max 2 sep (download_wire cb) ≡ codes "dl" ∷ cb.request_id ∷ cb.option_key ∷ []
split_wire cb clean =
    split_max-lacks 1 sep (codes "dl") (cb.request_id ++ (sep ∷ cb.option_key)) refl
    ∙ ap (λ parts. codes "dl" ∷ parts) (split_max-lacks 0 sep cb.request_id cb.option_key clean)
    ∙ ap (λ parts. codes "dl" ∷ cb.request_id ∷ parts) (split_max-zero sep cb.option_key)

decode_wire :
    (cb : DownloadCallback)
    → lacks sep cb.request_id ≡ true
    → is_empty cb.request_id ≡ false
    → is_empty cb.option_key ≡ false
    → decode_download (download_wire cb) ≡ some cb
unfolding decode_download
decode_wire cb clean a b = ap download_parts (split_wire cb clean) ∙ filled_lem cb a b

-- What `encode` returns for a download button is at most 64 characters long, and `try_decode` reads
-- the same button from it, if the request id has no separator and neither field is empty.
pub decode_download-encode :
    (cb : DownloadCallback) (raw : Text)
    → lacks sep cb.request_id ≡ true
    → is_empty cb.request_id ≡ false
    → is_empty cb.option_key ≡ false
    → encode_download cb ≡ returned raw
    → (decode_download raw ≡ some cb) × (length raw ≤ max_callback_len)
unfolding encode_download
decode_download-encode cb raw clean a b h =
    let (same, short) = fitting_short (download_wire cb) raw h in
    (ap decode_download same ∙ decode_wire cb clean a b, rw same short)

-- A text that is answered passed the guard.
guard_open :
    (raw : Text) (cb : DownloadCallback)
    → decode_download raw ≡ some cb
    → (starts_with (codes "dl|") raw ≡ true) × (download_parts (split_max 2 sep raw) ≡ some cb)
unfolding decode_download
guard_open raw cb h = ground (arith, h)

-- Where `try_decode` of a download button answers, the fields that it answers spell the text: the
-- text is what `encode` writes for them.
pub encode_download-decode :
    (cb : DownloadCallback) (raw : Text)
    → decode_download raw ≡ some cb
    → encode_download cb ≡ fitting raw
unfolding encode_download decode_download
encode_download-decode cb raw h =
    let parts = guard_open raw cb h in
    let spelt = parts_spell raw cb parts.1 in
    ap fitting (
      sym (
        spelt
        ∙ ap (λ p. p ++ (sep ∷ (cb.request_id ++ (sep ∷ cb.option_key)))) (before_dl raw parts.0)))

job_guard_open :
    (wide_digit : ℕ → Option ℕ) (prefix rest : Text)
    → decode_job wide_digit prefix (prefix ++ (sep ∷ rest))
      ≡ job_parts wide_digit (split_max 1 sep (prefix ++ (sep ∷ rest)))
unfolding decode_job
job_guard_open wide_digit prefix rest =
    rw (nonempty_wire prefix rest, starts_with_prefix prefix rest) refl

job_wire_decoded :
    (wide_digit : ℕ → Option ℕ) (prefix : Text) (job_id : ℕ)
    → lacks sep prefix ≡ true
    → 0 < job_id
    → length (decimal job_id) ≤ 4300
    → decode_job wide_digit prefix (prefix ++ (sep ∷ decimal job_id)) ≡ some job_id
job_wire_decoded wide_digit prefix job_id clean pos short =
    let wire = prefix ++ (sep ∷ decimal job_id) in
    let split =
      split_max-lacks 0 sep prefix (decimal job_id) clean
      ∙ ap (λ l. prefix ∷ l) (split_max-zero sep (decimal job_id)) in
    let number = parse_int-decimal wide_digit job_id short in
    job_guard_open wide_digit prefix (decimal job_id)
    ∙ ap (job_parts wide_digit) split
    ∙ ap positive number
    ∙ ground (arith, pos)

-- What `encode` of a cancel button returns is at most 64 characters long, and `try_decode` reads
-- the same job id from it, whatever digits beyond ASCII there are; the same holds of the button
-- for the post's text.
pub decode_job-encode :
    (wide_digit : ℕ → Option ℕ) (prefix : Text) (job_id : ℕ) (raw : Text)
    → (prefix ≡ prefix_cancel_job) ⊎ (prefix ≡ prefix_post_text)
    → 0 < job_id
    → encode_job prefix job_id ≡ returned raw
    → (decode_job wide_digit prefix raw ≡ some job_id) × (length raw ≤ max_callback_len)
unfolding encode_job
decode_job-encode wide_digit prefix job_id raw known pos h =
    let (same, short) = fitting_short (prefix ++ (sep ∷ decimal job_id)) raw h in
    let clean : lacks sep prefix ≡ true = elim known [ inl e ↦ rw e refl | inr e ↦ rw e refl ] in
    let digits : length (decimal job_id) ≤ 4300 =
      omega (arith, short, length-append prefix (sep ∷ decimal job_id)) in
    (
      ap (decode_job wide_digit prefix) same
          ∙ job_wire_decoded wide_digit prefix job_id clean pos digits,
      rw same short,
    )

-- The button that a delivery carries is one that the bot's handler reads: the callback data of
-- `DeliveryService` decodes to the job's id, for an id of at most 4300 digits.
pub decode_job-post_text_callback_data :
    (wide_digit : ℕ → Option ℕ) (job_id : ℕ)
    → 0 < job_id
    → length (decimal job_id) ≤ 4300
    → decode_job wide_digit prefix_post_text (post_text_callback_data job_id) ≡ some job_id
unfolding post_text_callback_data
decode_job-post_text_callback_data wide_digit job_id pos short =
    job_wire_decoded wide_digit prefix_post_text job_id refl pos short
