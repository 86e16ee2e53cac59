-- ===== src/Progress/Reporter.antt =====
-- app/infrastructure/cache/redis_progress_reporter.py. Percents and the debounce step are in tenths,
-- the clock of the debounce in milliseconds. The sync client of the hook counts as built.
use dwtgbot.Base.{
  ℕ, ◌-◌, Bool, false, Option, none, some, [], ◌∷◌, ◌++◌, Text, codes, decimal, is_empty, ltb, leb,
  ◌==◌, max, min, take, if◌then◌else◌,
}
use dwtgbot.Strings.Digits.{Number}
use dwtgbot.Jobs.Rows.{Rows, get_row}
use dwtgbot.World.Values.{
  ProgressStage, analyzing, downloading, done, cancelled, failed, is_terminal_stage,
}
use dwtgbot.Progress.Channel.{stage_value, Hash, Channel, hash_set, percent_text}

pub record ReporterSettings : Type 0 where
  pub progress_ttl_s : ℕ
  pub progress_meta_ttl_s : ℕ
  pub redraw_interval_ms : ℕ
  pub debounce_tenths : ℕ

-- `_DebounceState`.
pub record Debounce : Type 0 where
  pub written_at : ℕ
  pub percent : ℕ
  pub stage : ProgressStage

pub record Reporter : Type 0 where
  pub states : Rows Debounce
  pub channel : Channel

-- The clocks that a call reads: the monotonic one before and after the write, the time of day between.
pub record Times : Type 0 where
  pub checked_ms : ℕ
  pub unix_s : ℕ
  pub written_ms : ℕ

-- How a pipeline ends: `broken c` is a `RedisError` that leaves the keys as in `c`.
pub data PipelineEnd : Type 0 where
  executed : PipelineEnd
  broken : Channel → PipelineEnd

-- `dict.pop(k, None)`.
abbrev pub without {ℓ} : {A : Type ℓ} → ℕ → Rows A → Rows A
without k [] = []
without k ((j, a) ∷ r) = if k == j then without k r else (j, a) ∷ without k r

-- `ProgressStage` members compared by identity, by their values.
abbrev stage_rank : ProgressStage → ℕ
stage_rank analyzing = 0
stage_rank downloading = 1
stage_rank ProgressStage.processing = 2
stage_rank ProgressStage.uploading = 3
stage_rank done = 4
stage_rank cancelled = 5
stage_rank failed = 6

abbrev pub stage_eq : ProgressStage → ProgressStage → Bool
stage_eq a b = stage_rank a == stage_rank b

-- `abs(a - b)`.
abbrev pub distance : ℕ → ℕ → ℕ
distance a b = max (a - b) (b - a)

unfoldable pub clamp_percent : Number → ℕ
clamp_percent value = if value.is_negative then 0 else min 1000 value.magnitude

abbrev pub frame : ProgressStage → Text → ℕ → Hash
frame stage percent unix_s =
    (codes "percent", percent)
    ∷ (codes "stage", stage_value stage)
    ∷ (codes "updated_at", decimal unix_s)
    ∷ []

abbrev pub meta_frame : ℕ → ℕ → Option Text → ℕ → Hash
meta_frame chat_id message_id thumbnail_url unix_s =
    (codes "chat_id", decimal chat_id)
    ∷ (codes "message_id", decimal message_id)
    ∷ (codes "started_at", decimal unix_s)
    ∷ thumbnail_field thumbnail_url
  where
    thumbnail_field : Option Text → Hash
    thumbnail_field none = []
    thumbnail_field (some url) = if is_empty url then [] else (codes "thumbnail_url", url) ∷ []

abbrev pub ended : PipelineEnd → Channel → Channel
ended executed c = c
ended (broken c') c = c'

module _ (s : ReporterSettings) where
  -- The commands of one frame: `HSET`, `EXPIRE` and `PUBLISH`.
  abbrev pub with_frame : ℕ → Hash → Channel → Channel
  with_frame job_id mapping c = record c {
    progress = hash_set job_id mapping s.progress_ttl_s c.progress;
    published = job_id ∷ c.published;
  }

  abbrev pub with_meta : ℕ → Hash → Channel → Channel
  with_meta job_id mapping c = record c {
    meta = hash_set job_id mapping s.progress_meta_ttl_s c.meta;
  }

  unfoldable pub report_start : ℕ → ℕ → ℕ → Option Text → Times → PipelineEnd → Reporter → Reporter
  unfolding decimal
  report_start job_id chat_id message_id thumbnail_url t e r = record r {
    channel = ended e (
        with_frame job_id (frame analyzing (codes "0") t.unix_s)
          (with_meta job_id (meta_frame chat_id message_id thumbnail_url t.unix_s) r.channel));
  }

  abbrev pub is_debounced_by : ℕ → ℕ → ProgressStage → Option Debounce → Bool
  is_debounced_by now percent stage none = false
  is_debounced_by now percent stage (some d) =
      if stage_eq d.stage stage
      then if leb s.redraw_interval_ms (now - d.written_at)
        then false
        else ltb (distance percent d.percent) s.debounce_tenths
      else false

  -- `_is_debounced`.
  unfoldable pub is_debounced : ℕ → ℕ → ℕ → ProgressStage → Reporter → Bool
  is_debounced now job_id percent stage r =
      if is_terminal_stage stage
      then false
      else is_debounced_by now percent stage (get_row job_id r.states)

  abbrev pub remembered : ℕ → Debounce → PipelineEnd → Rows Debounce → Rows Debounce
  remembered job_id d executed states = (job_id, d) ∷ states
  remembered job_id d (broken _) states = states

  abbrev pub written_frame : ℕ → ℕ → ProgressStage → Times → PipelineEnd → Reporter → Reporter
  written_frame job_id clamped stage t e r = record {
    states =
        remembered job_id (record { written_at = t.written_ms; percent = clamped; stage = stage }) e
          r.states;
    channel = ended e (with_frame job_id (frame stage (percent_text clamped) t.unix_s) r.channel);
  }

  unfoldable pub report_update :
      ℕ → Number → ProgressStage → Times → PipelineEnd → Reporter → Reporter
  unfolding clamp_percent is_debounced percent_text decimal
  report_update job_id percent stage t e r =
      let clamped = clamp_percent percent in
      if is_debounced t.checked_ms job_id clamped stage r
      then r
      else written_frame job_id clamped stage t e r

  abbrev pub terminal_tenths : ProgressStage → ℕ
  terminal_tenths done = 1000
  terminal_tenths _ = 0

  abbrev pub reason_field : Option Text → Hash
  reason_field none = []
  reason_field (some reason) =
      if is_empty reason then [] else (codes "reason", take 512 reason) ∷ []

  abbrev pub forgotten : ℕ → PipelineEnd → Rows Debounce → Rows Debounce
  forgotten job_id executed states = without job_id states
  forgotten job_id (broken _) states = states

  -- `_terminal`.
  unfoldable pub report_terminal :
      ℕ → ProgressStage → Option Text → Times → PipelineEnd → Reporter → Reporter
  unfolding percent_text decimal
  report_terminal job_id stage reason t e r = record {
    states = forgotten job_id e r.states;
    channel = ended e (
        with_frame job_id
          (frame stage (percent_text (terminal_tenths stage)) t.unix_s ++ reason_field reason)
          r.channel);
  }

  unfoldable pub report_finish : ℕ → Times → PipelineEnd → Reporter → Reporter
  unfolding report_terminal
  report_finish job_id = report_terminal job_id done none

  unfoldable pub report_fail : ℕ → Text → Times → PipelineEnd → Reporter → Reporter
  unfolding report_terminal
  report_fail job_id reason = report_terminal job_id failed (some reason)

  unfoldable pub report_cancel : ℕ → Times → PipelineEnd → Reporter → Reporter
  unfolding report_terminal
  report_cancel job_id = report_terminal job_id cancelled none

  -- The callable that `download_hook` returns: no debounce, and no entry for it.
  unfoldable pub download_hook : ℕ → Number → Times → PipelineEnd → Reporter → Reporter
  unfolding clamp_percent percent_text decimal
  download_hook job_id percent t e r = record r {
    channel = ended e (
        with_frame job_id (frame downloading (percent_text (clamp_percent percent)) t.unix_s)
          r.channel);
  }
