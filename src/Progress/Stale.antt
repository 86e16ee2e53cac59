-- ===== src/Progress/Stale.antt =====
-- The stale notice of app/bot/services/progress_updater.py: `_watchdog_tick` does not enter it in
-- `last_caption`, against which `_apply_caption` compares the next caption.
use dwtgbot.Base.{
  ℕ, ◌-◌, ◌<◌, ◌≤◌, ◌≡◌, refl, ◌∙◌, ap, false, Option, some, [], ◌∷◌, Text, codes, arith, text_eq,
  text_eq_refl, ltb, lt→ltb, ==_self, if-keeps,
}
use dwtgbot.Jobs.Rows.{get_row}
use dwtgbot.World.Values.{ProgressStage, is_terminal_stage}
use dwtgbot.Progress.Channel.{Hash, field}
use dwtgbot.Progress.Caption.{render_caption, stale_caption}
use dwtgbot.Progress.Updater.{
  UpdaterSettings, ActiveJob, Updater, UpdaterPorts, edited, later, now, edit_call, apply_caption,
}
use dwtgbot.Progress.Events.{
  expiry_or_zero, is_edit_debounced, touched, notified, show_frame, frame_of, on_frame,
  handle_event, check_job, check_jobs, watchdog_tick,
}
use dwtgbot.Progress.Terminal.{with_touched, event_reaches}

module _ (p : UpdaterPorts) (s : UpdaterSettings) where
  show_frame-silent :
      (k : ℕ) (job : ActiveJob) (stage : ProgressStage) (percent : ℕ) (reason : Option Text)
      (u : Updater)
      → is_terminal_stage stage ≡ false
      → render_caption stage percent reason ≡ job.last_caption
      → show_frame p s k job stage percent reason u ≡ u
  unfolding show_frame apply_caption
  show_frame-silent k job stage percent reason u going same =
      rw (going, same, text_eq_refl job.last_caption) refl

  same_caption_silent :
      (k : ℕ) (u : Updater) (job : ActiveJob) (progress : Hash) (stage : ProgressStage)
      (percent : ℕ)
      → expiry_or_zero (get_row k u.tombstones) ≤ now p u
      → get_row k u.active ≡ some job
      → p.read_progress u.moment k ≡ some progress
      → frame_of p s progress ≡ some (stage, percent)
      → is_terminal_stage stage ≡ false
      → render_caption stage percent (field (codes "reason") progress) ≡ job.last_caption
      → (handle_event p s k u).calls ≡ u.calls
  unfolding on_frame
  same_caption_silent k u job progress stage percent free here read framed going same =
      rw (event_reaches p s k u job progress stage percent free here read framed) (
        if-keeps (λ (w : Updater). w.calls ≡ u.calls)
          (is_edit_debounced p s (now p (later u)) (touched (now p (later u)) job) percent stage)
          (with_touched p s k u) _ refl
          (ap (λ (w : Updater). w.calls)
            (show_frame-silent k (touched (now p (later u)) job) stage percent _
              (with_touched p s k u) going same)))

  tick_notifies :
      (k : ℕ) (u : Updater) (job : ActiveJob)
      → u.active ≡ (k, job) ∷ []
      → job.terminated ≡ false
      → job.stale_notified ≡ false
      → text_eq stale_caption job.last_caption ≡ false
      → s.stale_warn_ms < now p u - job.last_event_at
      → now p u - job.last_event_at ≤ s.stale_drop_ms
      → p.edit u.moment (edit_call p job stale_caption) ≡ edited
      → let w = watchdog_tick p s u in
        (w.active ≡ (k, notified job) ∷ []) × (w.calls ≡ edit_call p job stale_caption ∷ u.calls)
  unfolding watchdog_tick check_jobs check_job apply_caption
  tick_notifies k u job only on fresh other warn drop answer =
      let kept : ltb s.stale_drop_ms (now p u - job.last_event_at) ≡ false = ground arith in
      rw (only, on, fresh, kept, lt→ltb _ _ warn, other, answer, ==_self k) (refl, refl)

  -- Where the one registered job gets its stale notice from a tick that Telegram accepts, an event
  -- behind the tick whose frame is not terminal and gives the job's last caption again makes no
  -- call: the notice is still the latest call.
  pub stale_notice_stays :
      (k : ℕ) (u : Updater) (job : ActiveJob) (progress : Hash) (stage : ProgressStage)
      (percent : ℕ)
      → u.active ≡ (k, job) ∷ []
      → job.terminated ≡ false
      → job.stale_notified ≡ false
      → text_eq stale_caption job.last_caption ≡ false
      → s.stale_warn_ms < now p u - job.last_event_at
      → now p u - job.last_event_at ≤ s.stale_drop_ms
      → p.edit u.moment (edit_call p job stale_caption) ≡ edited
      → let w = watchdog_tick p s u in
        expiry_or_zero (get_row k w.tombstones) ≤ now p w
        → p.read_progress w.moment k ≡ some progress
        → frame_of p s progress ≡ some (stage, percent)
        → is_terminal_stage stage ≡ false
        → render_caption stage percent (field (codes "reason") progress) ≡ job.last_caption
        → (handle_event p s k w).calls ≡ edit_call p job stale_caption ∷ u.calls
  stale_notice_stays k u job progress stage percent only on fresh other warn drop answer free read
        framed going same =
      let w = watchdog_tick p s u in
      let (here, made) = tick_notifies k u job only on fresh other warn drop answer in
      same_caption_silent k w (notified job) progress stage percent free
        (ap (get_row k) here ∙ rw (==_self k) refl) read framed going same
      ∙ made
