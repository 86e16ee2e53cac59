-- ===== src/Progress/Terminal.antt =====
-- An event of a registered job in app/bot/services/progress_updater.py, from the tombstone test to the
-- caption and the end.
use dwtgbot.Base.{ℕ, ◌≤◌, ◌≡◌, refl, true, false, some, [], ◌∷◌, codes, arith, ltb}
use dwtgbot.Jobs.Rows.{get_row}
use dwtgbot.World.Values.{ProgressStage, is_terminal_stage}
use dwtgbot.Progress.Channel.{Hash, field}
use dwtgbot.Progress.Caption.{render_caption}
use dwtgbot.Progress.Updater.{
  UpdaterSettings, ActiveJob, Updater, UpdaterPorts, modify, later, now, apply_caption, finalize,
}
use dwtgbot.Progress.Events.{
  expiry_or_zero, is_edit_debounced, touched, booked, show_frame, frame_of, on_frame, with_job,
  attach, with_progress, handle_event,
}

module _ (p : UpdaterPorts) (s : UpdaterSettings) where
  -- The state in which the registered job of an event has been touched.
  abbrev pub with_touched : ℕ → Updater → Updater
  with_touched k u = modify k (touched (now p (later u))) (later u)

  frame_reaches :
      (k : ℕ) (u : Updater) (job : ActiveJob) (progress : Hash) (f : ProgressStage × ℕ)
      → get_row k u.active ≡ some job
      → frame_of p s progress ≡ some f
      → with_progress p s k (some progress) u ≡ on_frame p s k job progress (some f) u
  unfolding with_progress with_job attach frame_of
  frame_reaches k u job [] f here framed = absurd (cc)
  frame_reaches k u job (x ∷ progress) f here framed = rw (here, framed) refl

  -- A frame of a registered job without a live tombstone reaches the debounce.
  pub event_reaches :
      (k : ℕ) (u : Updater) (job : ActiveJob) (progress : Hash) (stage : ProgressStage)
      (percent : ℕ)
      → expiry_or_zero (get_row k u.tombstones) ≤ now p u
      → get_row k u.active ≡ some job
      → p.read_progress u.moment k ≡ some progress
      → frame_of p s progress ≡ some (stage, percent)
      → handle_event p s k u ≡ on_frame p s k job progress (some (stage, percent)) (later u)
  unfolding handle_event
  event_reaches k u job progress stage percent free here read framed =
      let open_ : ltb (now p u) (expiry_or_zero (get_row k u.tombstones)) ≡ false = ground arith in
      rw (open_, read) (frame_reaches k (later u) job progress (stage, percent) here framed)

  -- What the handler leaves of a terminal frame before the end of the job.
  abbrev pub before_end : ℕ → ActiveJob → Hash → ProgressStage → ℕ → Updater → Updater
  before_end k job progress stage percent u =
      let caption = render_caption stage percent (field (codes "reason") progress) in
      booked p s k stage percent caption
        (apply_caption p (touched (now p (later u)) job) caption (with_touched k u))

  pub terminal_finalizes :
      (k : ℕ) (u : Updater) (job : ActiveJob) (progress : Hash) (stage : ProgressStage)
      (percent : ℕ)
      → is_terminal_stage stage ≡ true
      → on_frame p s k job progress (some (stage, percent)) (later u)
        ≡ finalize p
            (touched (now p (later u)) job)
            stage
            (before_end k job progress stage percent u)
  unfolding on_frame is_edit_debounced show_frame
  terminal_finalizes k u job progress stage percent over = rw over refl
