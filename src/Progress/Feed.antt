-- ===== src/Progress/Feed.antt =====
-- app/infrastructure/cache/redis_progress_feed.py. A reply's texts are `none` where they are None;
-- bytes count as decoded.
use dwtgbot.Base.{ℕ, Option, none, some, List, [], ◌∷◌, Text, codes, text_eq, if◌then◌else◌}
use dwtgbot.Errors.{exc, other, Outcome, returned, raised}
use dwtgbot.Strings.Cut.{split_max}
use dwtgbot.Strings.Digits.{Number, parse_int}
use dwtgbot.Progress.Channel.{Hash}

-- A reply of `HGETALL`; a later entry of a field replaces the one before.
abbrev pub RawHash : Type 0
RawHash = List (Option Text × Option Text)

abbrev pub decoded_onto : Hash → RawHash → Hash
decoded_onto decoded [] = decoded
decoded_onto decoded ((some key, some value) ∷ r) = decoded_onto ((key, value) ∷ decoded) r
decoded_onto decoded ((none, _) ∷ r) = decoded_onto decoded r
decoded_onto decoded ((some _, none) ∷ r) = decoded_onto decoded r

-- `_decode_hash`.
unfoldable pub decode_hash : RawHash → Hash
decode_hash mapping = decoded_onto [] mapping

-- `RedisError` or `OSError`, with its text, as `ProgressFeedError`.
unfoldable pub read_hash : Outcome RawHash → Outcome Hash
unfolding decode_hash
read_hash (returned mapping) = returned (decode_hash mapping)
read_hash (raised e) = raised (exc other e.message)

-- What `get_message` does: the wait ends, it raises, nothing comes, or a message of a type with its
-- data.
pub data PubsubAnswer : Type 0 where
  wait_over nothing_came : PubsubAnswer
  pubsub_failed : Text → PubsubAnswer
  came : Text → Option Text → PubsubAnswer

abbrev pub data_or_empty : Option Text → Text
data_or_empty none = []
data_or_empty (some t) = t

module _ (wide_digit : ℕ → Option ℕ) where
  -- `next_job_id`.
  unfoldable pub next_job_id : PubsubAnswer → Outcome (Option Number)
  unfolding parse_int
  next_job_id wait_over = returned none
  next_job_id nothing_came = returned none
  next_job_id (pubsub_failed message) = raised (exc other message)
  next_job_id (came type_ data_) =
      if text_eq type_ (codes "message")
      then returned (parse_int wide_digit (data_or_empty data_))
      else returned none

  abbrev behind_colon : List Text → Option Number
  behind_colon (_ ∷ id ∷ _) = parse_int wide_digit id
  behind_colon _ = none

  -- The job id of a key; `none` is the `IndexError` or the `ValueError`.
  unfoldable pub id_of_key : Text → Option Number
  unfolding split_max parse_int
  id_of_key key = behind_colon (split_max 1 b':' key)

  abbrev with_meta_of : Number → Outcome Hash → List (Number × Hash) → List (Number × Hash)
  with_meta_of id (raised _) found = found
  with_meta_of id (returned []) found = found
  with_meta_of id (returned (x ∷ meta)) found = (id, x ∷ meta) ∷ found

  abbrev of_key : Outcome RawHash → Option Number → List (Number × Hash) → List (Number × Hash)
  of_key answer none found = found
  of_key answer (some id) found = with_meta_of id (read_hash answer) found

  -- `placeholders`: the keys of the scan as far as it went, each with what its hash answers.
  unfoldable pub placeholders : List (Option Text × Outcome RawHash) → List (Number × Hash)
  unfolding id_of_key read_hash
  placeholders [] = []
  placeholders ((none, _) ∷ keys) = placeholders keys
  placeholders ((some key, answer) ∷ keys) = of_key answer (id_of_key key) (placeholders keys)
