-- ===== src/Progress/Stable.antt =====
-- What the handlers of app/bot/services/progress_updater.py keep: a predicate that a job's calls and
-- the changes of its entry keep is kept by the handlers on that job.
use dwtgbot.Base.{
  ℕ, ◌-◌, ◌≡◌, refl, Bool, true, false, not, ◌&&◌, Option, ◌∷◌, Text, arith, text_eq, ltb, if-keeps,
}
use dwtgbot.World.Values.{ProgressStage, failed, is_terminal_stage}
use dwtgbot.Progress.Caption.{render_caption, stale_caption}
use dwtgbot.Progress.Reporter.{stage_eq}
use dwtgbot.Progress.Updater.{
  UpdaterSettings, ActiveJob, Updater, UpdaterPorts, EditAnswer, modify, later, forget, terminate,
  edit_call, after_edit, apply_caption, delete_call, finalize,
}
use dwtgbot.Progress.Events.{touched, notified, booked, show_frame, check_job}

-- A change of an entry that leaves its identity alone.
abbrev pub IsBooking : (ActiveJob → ActiveJob) → Type 0
IsBooking set =
    (job : ActiveJob)
    → ((set job).job_id ≡ job.job_id)
      × ((set job).terminated ≡ job.terminated)
      × ((set job).chat_id ≡ job.chat_id)
      × ((set job).message_id ≡ job.message_id)

module _ (p : UpdaterPorts) (P : Updater → Type 0) where
  -- What the handlers do for one job, step by step.
  pub record IsStable (job : ActiveJob) : Type 0 where
    pub waits : (u : Updater) → P u → P (later u)
    pub edits :
        (caption : Text) (u : Updater)
        → P u
        → P (later (record u { calls = edit_call p job caption ∷ u.calls }))
    pub deletes : (u : Updater) → P u → P (delete_call p job u)
    pub books :
        (set : ActiveJob → ActiveJob) (u : Updater)
        → IsBooking set
        → P u
        → P (modify job.job_id set u)
    pub drops : (b : Bool) (u : Updater) → P u → P (forget p job.job_id b u)
    pub ends : (b : Bool) (u : Updater) → P u → P (forget p job.job_id b (terminate job u))

  pub IsStable-touched : (at : ℕ) (job : ActiveJob) → IsStable job → IsStable (touched at job)
  IsStable-touched at job st = record {
    waits = st.waits;
    edits = st.edits;
    deletes = st.deletes;
    books = st.books;
    drops = st.drops;
    ends = st.ends;
  }

module _ (p : UpdaterPorts) (s : UpdaterSettings) (P : Updater → Type 0) (job : ActiveJob)
    (st : IsStable p P job) where
  after_edit-keeps : (a : EditAnswer) (u : Updater) → P u → P (after_edit p job a u).1
  after_edit-keeps EditAnswer.edited u h = h
  after_edit-keeps EditAnswer.rate_limited u h = h
  after_edit-keeps EditAnswer.telegram_error u h = h
  after_edit-keeps (EditAnswer.bad_request m) u h = ground (arith, st.ends true u h)

  apply_caption-keeps : (caption : Text) (u : Updater) → P u → P (apply_caption p job caption u).1
  unfolding apply_caption
  apply_caption-keeps caption u h =
      if-keeps (λ (a : Bool × Updater). P a.1) (text_eq caption job.last_caption) (false, u) _ h
        (after_edit-keeps (p.edit u.moment (edit_call p job caption)) _ (st.edits caption u h))

  booked-keeps :
      (stage : ProgressStage) (percent : ℕ) (caption : Text) (a : Bool × Updater)
      → P a.1
      → P (booked p s job.job_id stage percent caption a)
  booked-keeps stage percent caption (false, u) h = h
  booked-keeps stage percent caption (true, u) h = st.books _ u (λ j. (refl, refl, refl, refl)) h

  pub finalize-keeps : (stage : ProgressStage) (u : Updater) → P u → P (finalize p job stage u)
  unfolding finalize
  finalize-keeps stage u h =
      if-keeps P (stage_eq stage failed) _ _ (st.ends false u h)
        (st.ends true (delete_call p job (later u)) (st.deletes (later u) (st.waits u h)))

  pub show_frame-keeps :
      (stage : ProgressStage) (percent : ℕ) (reason : Option Text) (u : Updater)
      → P u
      → P (show_frame p s job.job_id job stage percent reason u)
  unfolding show_frame
  show_frame-keeps stage percent reason u h =
      if-keeps P (is_terminal_stage stage) (finalize p job stage u') u'
        (finalize-keeps stage u' shown) shown
    where
      caption : Text
      caption = render_caption stage percent reason

      u' : Updater
      u' = booked p s job.job_id stage percent caption (apply_caption p job caption u)

      shown : P u'
      shown =
          booked-keeps stage percent caption (apply_caption p job caption u)
            (apply_caption-keeps caption u h)

  pub check_job-keeps : (at : ℕ) (u : Updater) → P u → P (check_job p s at (job.job_id, job) u)
  unfolding check_job
  check_job-keeps at u h = if-keeps P job.terminated u _ h (
      if-keeps P (ltb s.stale_drop_ms (at - job.last_event_at)) _ _
        (st.drops true (delete_call p job u) (st.deletes u h))
        (if-keeps P (ltb s.stale_warn_ms (at - job.last_event_at) && not job.stale_notified) _ u
          (st.books notified (apply_caption p job stale_caption u).1 (λ j. (refl, refl, refl, refl))
            (apply_caption-keeps stale_caption u h))
          h))
