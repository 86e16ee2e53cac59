-- ===== src/Progress/Watchdog.antt =====
-- The watchdog of app/bot/services/progress_updater.py: what a tick drops, and what it never does.
use mathlib.Core.List.{Memᴰ}
use dwtgbot.Base.{
  ℕ, ◌-◌, ◌<◌, ◌≡◌, refl, sym, ◌⊎◌, inl, inr, Bool-cases, ==_iff, true, false, none, some, List, [],
  ◌∷◌, arith, lt→ltb, ◌==◌,
}
use dwtgbot.Jobs.Rows.{Rows, get_row, get_row-update_where}
use dwtgbot.Progress.Reporter.{without}
use dwtgbot.Progress.Updater.{
  UpdaterSettings, ActiveJob, Updater, UpdaterPorts, BotCall, delete_message, modify, now,
  terminate,
}
use dwtgbot.Progress.Events.{check_job, check_jobs, watchdog_tick, recover_active_jobs, Turn, turns}
use dwtgbot.Progress.Stable.{IsStable}
use dwtgbot.Progress.Handlers.{IsLive, get_row-IsLive, AllStable-each, check_jobs-keeps}
use dwtgbot.Progress.Registry.{turns-IsLive, recover_active_jobs-IsLive}

pub get_row-without-none :
    {A : Type 0} (j k : ℕ) (r : Rows A) → get_row k r ≡ none → get_row k (without j r) ≡ none
get_row-without-none j k [] h = refl
get_row-without-none j k ((i, a) ∷ r) h = ground (arith, get_row-without-none j k r)

pub get_row-without_self : {A : Type 0} (k : ℕ) (r : Rows A) → get_row k (without k r) ≡ none
get_row-without_self k [] = refl
get_row-without_self k ((i, a) ∷ r) = ground (arith, get_row-without_self k r)

pub get_row-modify-none :
    (j k : ℕ) (set : ActiveJob → ActiveJob) (u : Updater)
    → get_row k u.active ≡ none
    → get_row k (modify j set u).active ≡ none
get_row-modify-none j k set u h =
    ground (arith, get_row-update_where (λ row. j == row.0) set k u.active)

-- The job is out of the registry, and this call was made.
abbrev pub IsGone : ℕ → BotCall → Updater → Type 0
IsGone k c u = (get_row k u.active ≡ none) × Memᴰ c u.calls

module _ (p : UpdaterPorts) (k : ℕ) (c : BotCall) where
  IsGone-IsStable : (job : ActiveJob) → IsStable p (IsGone k c) job
  IsGone-IsStable job = record {
    waits = λ u h. h;
    edits = λ caption u h. (h.0, Memᴰ.tail h.1);
    deletes = λ u h. (h.0, Memᴰ.tail h.1);
    books = λ set u same h. (get_row-modify-none job.job_id k set u h.0, h.1);
    drops = λ b u h. (get_row-without-none job.job_id k u.active h.0, h.1);
    ends = λ b u h. (
      get_row-without-none job.job_id k (terminate job u).active
          (get_row-modify-none job.job_id k (λ j. record j { terminated = true }) u h.0),
      h.1,
    );
  }

picked_row :
    (k j : ℕ) (c : ActiveJob) (rows : Rows ActiveJob) (job : ActiveJob)
    → get_row k ((j, c) ∷ rows) ≡ some job
    → ((k ≡ j) × (c ≡ job)) ⊎ (get_row k rows ≡ some job)
picked_row k j c rows job e = elim (Bool-cases (k == j)) [
  | inl same ↦ inl ((==_iff k j).0 same, grind arith)
  | inr other ↦ inr (grind arith)
]

module _ (p : UpdaterPorts) (s : UpdaterSettings) where
  check_job-drops :
      (at k : ℕ) (job : ActiveJob) (u : Updater)
      → job.terminated ≡ false
      → s.stale_drop_ms < at - job.last_event_at
      → IsGone k (delete_message job.chat_id job.message_id) (check_job p s at (k, job) u)
  unfolding check_job
  check_job-drops at k job u on old =
      rw (on, lt→ltb s.stale_drop_ms (at - job.last_event_at) old)
        (get_row-without_self k u.active, Memᴰ.head refl)

  check_jobs-drops :
      (at k : ℕ) (job : ActiveJob) (rows : Rows ActiveJob) (u : Updater)
      → IsLive rows
      → get_row k rows ≡ some job
      → job.terminated ≡ false
      → s.stale_drop_ms < at - job.last_event_at
      → IsGone k (delete_message job.chat_id job.message_id) (check_jobs p s at rows u)
  unfolding check_jobs
  check_jobs-drops at k job [] u live e on old = absurd (cc)
  check_jobs-drops at k job ((j, c) ∷ rows) u live e on old =
      let m = delete_message job.chat_id job.message_id in
      elim (picked_row k j c rows job e) [
        | inl (here, it) ↦
            rw (sym here, it)
              (check_jobs-keeps p s (IsGone k m) at rows (check_job p s at (k, job) u) live.2
                (AllStable-each p s (IsGone k m) rows (IsGone-IsStable p k m))
                (check_job-drops at k job u on old))
        | inr there ↦ check_jobs-drops at k job rows (check_job p s at (j, c) u) live.2 there on old
      ]

  -- From any started updater without placeholders, after the recovery scan and any events and
  -- ticks, one tick drops every job whose last event lies further back than the drop time: the job
  -- is no longer registered and its placeholder has been asked to be deleted.
  pub silent_job_dropped :
      (moment k : ℕ) (job : ActiveJob) (xs : List Turn)
      → let start : Updater = record {
        active = [];
        tombstones = [];
        calls = [];
        moment = moment;
      } in
        let u = turns p s xs (recover_active_jobs p s start) in
        get_row k u.active ≡ some job
        → s.stale_drop_ms < now p u - job.last_event_at
        → IsGone k (delete_message job.chat_id job.message_id) (watchdog_tick p s u)
  unfolding watchdog_tick
  silent_job_dropped moment k job xs e old =
      let start : Updater = record { active = []; tombstones = []; calls = []; moment = moment } in
      let u = turns p s xs (recover_active_jobs p s start) in
      let live = turns-IsLive p s xs _ (recover_active_jobs-IsLive p s start tt) in
      check_jobs-drops (now p u) k job u.active _ live e (get_row-IsLive k u.active job live e).1
        old
