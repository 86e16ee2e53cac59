-- ===== src/Progress/Events.antt =====
-- `_handle_event`, `_watchdog_tick` and `_recover_active_jobs` of app/bot/services/progress_updater.py,
-- and runs of them.
use dwtgbot.Base.{
  ℕ, ◌-◌, Bool, true, false, not, ◌&&◌, Option, none, some, List, [], ◌∷◌, Text, codes, ltb, leb,
  if◌then◌else◌,
}
use dwtgbot.Jobs.Rows.{Rows, get_row}
use dwtgbot.World.Values.{ProgressStage, is_terminal_stage}
use dwtgbot.Progress.Channel.{Hash, field, stage_of}
use dwtgbot.Progress.Caption.{render_caption, stale_caption}
use dwtgbot.Progress.Reporter.{stage_eq, distance}
use dwtgbot.Progress.Updater.{
  UpdaterSettings, ActiveJob, Updater, UpdaterPorts, dict_set, modify, later, now, from_meta,
  forget, apply_caption, delete_call, finalize,
}

abbrev pub expiry_or_zero : Option ℕ → ℕ
expiry_or_zero none = 0
expiry_or_zero (some expires_at) = expires_at

-- The entries that have not expired.
abbrev pub unexpired : ℕ → Rows ℕ → Rows ℕ
unexpired at [] = []
unexpired at ((k, expires_at) ∷ r) =
    if ltb at expires_at then (k, expires_at) ∷ unexpired at r else unexpired at r

abbrev pub touched : ℕ → ActiveJob → ActiveJob
touched at job = record job { last_event_at = at; stale_notified = false }

abbrev pub applied_to : ℕ → ProgressStage → ℕ → Text → ActiveJob → ActiveJob
applied_to at stage percent caption job = record job {
  last_apply_at = at;
  last_percent = percent;
  last_stage = some stage;
  last_caption = caption;
}

abbrev pub notified : ActiveJob → ActiveJob
notified job = record job { stale_notified = true }

-- What the two loops run.
pub data Turn : Type 0 where
  event : ℕ → Turn
  watch : Turn

module _ (p : UpdaterPorts) (s : UpdaterSettings) where
  abbrev parsed : Option ProgressStage → Option ℕ → Option (ProgressStage × ℕ)
  parsed (some stage) (some percent) = some (stage, percent)
  parsed _ _ = none

  abbrev frame_fields : Option Text → Option Text → Option (ProgressStage × ℕ)
  frame_fields (some stage) (some percent) = parsed (stage_of stage) (p.read_float percent)
  frame_fields _ _ = none

  -- The stage and the percent of a hash; `none` where one is missing or malformed.
  unfoldable pub frame_of : Hash → Option (ProgressStage × ℕ)
  unfolding stage_of
  frame_of progress =
      frame_fields (field (codes "stage") progress) (field (codes "percent") progress)

  abbrev debounced_since : ℕ → ActiveJob → ℕ → ProgressStage → Option ProgressStage → Bool
  debounced_since at job percent stage none = false
  debounced_since at job percent stage (some last) =
      if not (stage_eq last stage)
      then false
      else if leb s.redraw_interval_ms (at - job.last_apply_at)
      then false
      else ltb (distance percent job.last_percent) s.debounce_tenths

  -- `_is_debounced`.
  unfoldable pub is_edit_debounced : ℕ → ActiveJob → ℕ → ProgressStage → Bool
  is_edit_debounced at job percent stage =
      if is_terminal_stage stage then false else debounced_since at job percent stage job.last_stage

  abbrev pub booked : ℕ → ProgressStage → ℕ → Text → Bool × Updater → Updater
  booked k stage percent caption (applied, u) =
      if applied then modify k (applied_to (now p u) stage percent caption) u else u

  -- The part of the handler behind the debounce.
  unfoldable pub show_frame : ℕ → ActiveJob → ProgressStage → ℕ → Option Text → Updater → Updater
  unfolding apply_caption finalize render_caption
  show_frame k job stage percent reason u =
      let caption = render_caption stage percent reason in
      let u' = booked k stage percent caption (apply_caption p job caption u) in
      if is_terminal_stage stage then finalize p job stage u' else u'

  unfoldable pub on_frame : ℕ → ActiveJob → Hash → Option (ProgressStage × ℕ) → Updater → Updater
  unfolding is_edit_debounced show_frame
  on_frame k job progress none u = u
  on_frame k job progress (some (stage, percent)) u =
      let job' = touched (now p u) job in
      let u' = modify k (touched (now p u)) u in
      if is_edit_debounced (now p u) job' percent stage
      then u'
      else show_frame k job' stage percent (field (codes "reason") progress) u'

  unfoldable pub with_job : ℕ → Hash → Option ActiveJob × Updater → Updater
  unfolding on_frame frame_of
  with_job k progress (none, u) = u
  with_job k progress (some job, u) = on_frame k job progress (frame_of progress) u

  abbrev pub register_job : ℕ → Option ActiveJob → Updater → Option ActiveJob × Updater
  register_job k none u = (none, u)
  register_job k (some job) u = (some job, record u { active = dict_set k job u.active })

  unfoldable pub attach_meta : ℕ → Option Hash → Updater → Option ActiveJob × Updater
  unfolding from_meta
  attach_meta k none u = (none, u)
  attach_meta k (some []) u = (none, u)
  attach_meta k (some (x ∷ meta)) u = register_job k (from_meta p (now p u) k (x ∷ meta)) u

  -- The job of the registry, or the one that its meta attaches.
  unfoldable pub attach : ℕ → Option ActiveJob → Updater → Option ActiveJob × Updater
  unfolding attach_meta
  attach k (some job) u = (some job, u)
  attach k none u = attach_meta k (p.read_meta u.moment k) (later u)

  unfoldable pub with_progress : ℕ → Option Hash → Updater → Updater
  unfolding with_job attach
  with_progress k none u = u
  with_progress k (some []) u = u
  with_progress k (some (x ∷ progress)) u =
      with_job k (x ∷ progress) (attach k (get_row k u.active) u)

  -- `_handle_event`.
  unfoldable pub handle_event : ℕ → Updater → Updater
  unfolding with_progress
  handle_event k u =
      if ltb (now p u) (expiry_or_zero (get_row k u.tombstones))
      then u
      else with_progress k (p.read_progress u.moment k) (later u)

  -- One turn of the watchdog's loop; the entry is the registry's own object.
  unfoldable pub check_job : ℕ → ℕ × ActiveJob → Updater → Updater
  unfolding apply_caption
  check_job at (k, job) u =
      if job.terminated
      then u
      else if ltb s.stale_drop_ms (at - job.last_event_at)
      then forget p k true (delete_call p job u)
      else if ltb s.stale_warn_ms (at - job.last_event_at) && not job.stale_notified
      then modify k notified (apply_caption p job stale_caption u).1
      else u

  unfoldable pub check_jobs : ℕ → Rows ActiveJob → Updater → Updater
  unfolding check_job
  check_jobs at [] u = u
  check_jobs at (row ∷ rows) u = check_jobs at rows (check_job at row u)

  -- `_watchdog_tick`.
  unfoldable pub watchdog_tick : Updater → Updater
  unfolding check_jobs
  watchdog_tick u =
      check_jobs (now p u) u.active (record u { tombstones = unexpired (now p u) u.tombstones })

  abbrev pub recover_all : List (ℕ × Hash) → Updater → Updater
  recover_all [] u = u
  recover_all ((k, meta) ∷ found) u =
      recover_all found (later (register_job k (from_meta p (now p u) k meta) u).1)

  -- `_recover_active_jobs`.
  unfoldable pub recover_active_jobs : Updater → Updater
  unfolding from_meta
  recover_active_jobs u = recover_all (p.placeholders u.moment) (later u)

  unfoldable pub turn : Turn → Updater → Updater
  unfolding handle_event watchdog_tick
  turn (event k) u = handle_event k (later u)
  turn watch u = watchdog_tick (later u)

  unfoldable pub turns : List Turn → Updater → Updater
  unfolding turn
  turns [] u = u
  turns (x ∷ xs) u = turns xs (turn x u)
