-- ===== src/Progress/Handlers.antt =====
-- What the handlers of app/bot/services/progress_updater.py keep: the event of a job, and the walk of a
-- tick over the registry.
use dwtgbot.Base.{
  ℕ, ◌≡◌, refl, sym, ◌∙◌, false, Option, none, some, [], ◌∷◌, codes, arith, ltb, if-keeps,
}
use dwtgbot.Jobs.Rows.{Rows, get_row}
use dwtgbot.World.Values.{ProgressStage}
use dwtgbot.Progress.Channel.{Hash, field}
use dwtgbot.Progress.Updater.{
  UpdaterSettings, ActiveJob, Updater, UpdaterPorts, dict_set, modify, later, now, from_meta,
}
use dwtgbot.Progress.Events.{
  expiry_or_zero, is_edit_debounced, touched, on_frame, with_job, register_job, attach_meta, attach,
  with_progress, handle_event, check_job, check_jobs,
}
use dwtgbot.Progress.Stable.{IsStable, IsStable-touched, show_frame-keeps, check_job-keeps}

-- Every entry holds a job under its own id that has not terminated.
abbrev pub IsLive : Rows ActiveJob → Type 0
IsLive [] = Unit
IsLive ((k, job) ∷ r) = (job.job_id ≡ k) × (job.terminated ≡ false) × IsLive r

abbrev pub IsOwn : ℕ → ActiveJob → Type 0
IsOwn k job = (job.job_id ≡ k) × (job.terminated ≡ false)

pub get_row-IsLive :
    (k : ℕ) (r : Rows ActiveJob) (job : ActiveJob) → IsLive r → get_row k r ≡ some job → IsOwn k job
get_row-IsLive k [] job h e = absurd (cc)
get_row-IsLive k ((j, c) ∷ r) job h e = ground (arith, get_row-IsLive k r job h.2)

module _ (p : UpdaterPorts) (s : UpdaterSettings) (P : Updater → Type 0) where
  -- The predicate is kept for every job of the snapshot that a tick walks over.
  abbrev pub AllStable : Rows ActiveJob → Type 0
  AllStable [] = Unit
  AllStable ((k, job) ∷ r) = IsStable p P job × AllStable r

  pub AllStable-each : (r : Rows ActiveJob) → ((job : ActiveJob) → IsStable p P job) → AllStable r
  AllStable-each [] st = tt
  AllStable-each ((k, job) ∷ r) st = (st job, AllStable-each r st)

  pub check_jobs-keeps :
      (at : ℕ) (rows : Rows ActiveJob) (u : Updater)
      → IsLive rows
      → AllStable rows
      → P u
      → P (check_jobs p s at rows u)
  unfolding check_jobs
  check_jobs-keeps at [] u live st h = h
  check_jobs-keeps at ((k, job) ∷ rows) u live st h =
      check_jobs-keeps at rows (check_job p s at (k, job) u) live.2 st.1
        (rw (sym live.0) (check_job-keeps p s P job st.0 at u h))

  pub on_frame-keeps :
      (k : ℕ) (job : ActiveJob) (progress : Hash) (f : Option (ProgressStage × ℕ)) (u : Updater)
      → IsStable p P job
      → job.job_id ≡ k
      → P u
      → P (on_frame p s k job progress f u)
  unfolding on_frame
  on_frame-keeps k job progress none u st own h = h
  on_frame-keeps k job progress (some (stage, percent)) u st own h = rw (sym own) (
      if-keeps P (is_edit_debounced p s (now p u) (touched (now p u) job) percent stage)
        (modify job.job_id (touched (now p u)) u) _ renewed
        (show_frame-keeps p s P (touched (now p u) job) (IsStable-touched p P (now p u) job st)
          stage percent (field (codes "reason") progress) (modify job.job_id (touched (now p u)) u)
          renewed))
    where
      renewed : P (modify job.job_id (touched (now p u)) u)
      renewed = st.books (touched (now p u)) u (λ j. (refl, refl, refl, refl)) h

  from_meta-IsOwn :
      (at k : ℕ) (meta : Hash) (job : ActiveJob) → from_meta p at k meta ≡ some job → IsOwn k job
  unfolding from_meta
  from_meta-IsOwn at k meta job e = grind arith

  -- The predicate holds still when a job of this id is attached.
  abbrev pub IsOpen : ℕ → Type 0
  IsOpen k =
      (job : ActiveJob) (u : Updater)
      → IsOwn k job
      → P u
      → P (record u { active = dict_set k job u.active })

  pub register_job-keeps :
      (k at : ℕ) (meta : Hash) (o : Option ActiveJob) (u : Updater)
      → IsOpen k
      → from_meta p at k meta ≡ o
      → P u
      → P (register_job p s k o u).1
  register_job-keeps k at meta none u open_ e h = h
  register_job-keeps k at meta (some job) u open_ e h =
      open_ job u (from_meta-IsOwn at k meta job e) h

  module _ (k : ℕ) (stable : (job : ActiveJob) → job.job_id ≡ k → IsStable p P job) (add : IsOpen k)
      (wait : (u : Updater) → P u → P (later u)) where
    with_found :
        (progress : Hash) (o : Option ActiveJob) (u : Updater)
        → ((job : ActiveJob) → o ≡ some job → job.job_id ≡ k)
        → P u
        → P (with_job p s k progress (o, u))
    unfolding with_job
    with_found progress none u own h = h
    with_found progress (some job) u own h =
        on_frame-keeps k job progress _ u (stable job (own job refl)) (own job refl) h

    with_registered :
        (progress : Hash) (at : ℕ) (meta : Hash) (o : Option ActiveJob) (u : Updater)
        → from_meta p at k meta ≡ o
        → P u
        → P (with_job p s k progress (register_job p s k o u))
    with_registered progress at meta none u e h =
        with_found progress none u (λ job e'. absurd (cc)) h
    with_registered progress at meta (some job) u e h =
        with_found progress (some job) _ (λ job' e'. (from_meta-IsOwn at k meta job' (e ∙ e')).0)
          (add job u (from_meta-IsOwn at k meta job e) h)

    with_attached :
        (progress : Hash) (m : Option Hash) (u : Updater)
        → P u
        → P (with_job p s k progress (attach_meta p s k m u))
    unfolding attach_meta
    with_attached progress none u h = with_found progress none u (λ job e. absurd (cc)) h
    with_attached progress (some []) u h = with_found progress none u (λ job e. absurd (cc)) h
    with_attached progress (some (x ∷ meta)) u h =
        with_registered progress (now p u) (x ∷ meta) (from_meta p (now p u) k (x ∷ meta)) u refl h

    with_attempt :
        (progress : Hash) (o : Option ActiveJob) (u : Updater)
        → ((job : ActiveJob) → o ≡ some job → job.job_id ≡ k)
        → P u
        → P (with_job p s k progress (attach p s k o u))
    unfolding attach
    with_attempt progress (some job) u own h = with_found progress (some job) u own h
    with_attempt progress none u own h =
        with_attached progress (p.read_meta u.moment k) (later u) (wait u h)

    with_progress-keeps :
        (o : Option Hash) (u : Updater) → IsLive u.active → P u → P (with_progress p s k o u)
    unfolding with_progress
    with_progress-keeps none u live h = h
    with_progress-keeps (some []) u live h = h
    with_progress-keeps (some (x ∷ progress)) u live h =
        with_attempt (x ∷ progress) (get_row k u.active) u
          (λ job e. (get_row-IsLive k u.active job live e).0) h

    pub handle_event-keeps : (u : Updater) → IsLive u.active → P u → P (handle_event p s k u)
    unfolding handle_event
    handle_event-keeps u live h =
        if-keeps P (ltb (now p u) (expiry_or_zero (get_row k u.tombstones))) u _ h
          (with_progress-keeps (p.read_progress u.moment k) (later u) live (wait u h))
