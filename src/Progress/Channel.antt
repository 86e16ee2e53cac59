-- ===== src/Progress/Channel.antt =====
-- app/application/ports/progress_channel.py, and the values of `ProgressStage` in app/domain/enums.py.
use dwtgbot.Base.{
  ℕ, ◌/◌, ◌%◌, ◌≡◌, refl, Option, none, some, List, [], ◌∷◌, ◌++◌, Text, codes, decimal, text_eq,
  if◌then◌else◌,
}
use dwtgbot.Jobs.Rows.{Rows, get_row}
use dwtgbot.World.Values.{
  ProgressStage, analyzing, downloading, processing, uploading, done, cancelled, failed,
}

abbrev pub stage_value : ProgressStage → Text
stage_value analyzing = codes "analyzing"
stage_value downloading = codes "downloading"
stage_value processing = codes "processing"
stage_value uploading = codes "uploading"
stage_value done = codes "done"
stage_value cancelled = codes "cancelled"
stage_value failed = codes "failed"

abbrev pub all_stages : List ProgressStage
all_stages = analyzing ∷ downloading ∷ processing ∷ uploading ∷ done ∷ cancelled ∷ failed ∷ []

abbrev stage_in : Text → List ProgressStage → Option ProgressStage
stage_in value [] = none
stage_in value (s ∷ ss) = if text_eq value (stage_value s) then some s else stage_in value ss

-- `ProgressStage(value)`; `none` is the `ValueError`.
unfoldable pub stage_of : Text → Option ProgressStage
stage_of value = stage_in value all_stages

pub stage_of-stage_value : (s : ProgressStage) → stage_of (stage_value s) ≡ some s
unfolding stage_of
stage_of-stage_value analyzing = refl
stage_of-stage_value downloading = refl
stage_of-stage_value processing = refl
stage_of-stage_value uploading = refl
stage_of-stage_value done = refl
stage_of-stage_value cancelled = refl
stage_of-stage_value failed = refl

-- A hash of Redis; the first entry of a field counts.
abbrev pub Hash : Type 0
Hash = List (Text × Text)

abbrev pub field : Text → Hash → Option Text
field name [] = none
field name ((n, v) ∷ h) = if text_eq name n then some v else field name h

-- A hash with the expiry, in seconds, that was set on it last.
pub record StoredHash : Type 0 where
  pub fields : Hash
  pub ttl_s : ℕ

-- The keys `progress:{job_id}` and `progress_meta:{job_id}` by the job's id, and the ids published on
-- the channel, newest first.
pub record Channel : Type 0 where
  pub progress : Rows StoredHash
  pub meta : Rows StoredHash
  pub published : List ℕ

abbrev pub fields_of : Option StoredHash → Hash
fields_of none = []
fields_of (some h) = h.fields

-- `HSET` of a mapping, which keeps the other fields, and `EXPIRE`.
abbrev pub hash_set : ℕ → Hash → ℕ → Rows StoredHash → Rows StoredHash
hash_set k mapping ttl_s rows =
    (k, record { fields = mapping ++ fields_of (get_row k rows); ttl_s = ttl_s }) ∷ rows

-- `f"{percent:.1f}"` of a number of tenths.
unfoldable pub percent_text : ℕ → Text
unfolding decimal
percent_text tenths = decimal (tenths / 10) ++ (b'.' ∷ decimal (tenths % 10))
