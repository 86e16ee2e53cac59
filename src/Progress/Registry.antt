-- ===== src/Progress/Registry.antt =====
-- The registry of app/bot/services/progress_updater.py over a run: the state of its entries.
use dwtgbot.Base.{ℕ, ◌≡◌, refl, true, List, [], ◌∷◌, arith, ◌==◌}
use dwtgbot.Jobs.Rows.{Rows, update_where}
use dwtgbot.Progress.Channel.{Hash}
use dwtgbot.Progress.Reporter.{without}
use dwtgbot.Progress.Updater.{
  UpdaterSettings, ActiveJob, Updater, UpdaterPorts, dict_set, later, now, from_meta,
}
use dwtgbot.Progress.Events.{
  register_job, handle_event, watchdog_tick, recover_all, recover_active_jobs, Turn, event, watch,
  turn, turns,
}
use dwtgbot.Progress.Stable.{IsBooking, IsStable}
use dwtgbot.Progress.Handlers.{
  IsLive, IsOwn, AllStable-each, check_jobs-keeps, register_job-keeps, handle_event-keeps,
}

abbrev pub IsActiveLive : Updater → Type 0
IsActiveLive u = IsLive u.active

IsLive-without : (k : ℕ) (r : Rows ActiveJob) → IsLive r → IsLive (without k r)
IsLive-without k [] h = tt
IsLive-without k ((j, c) ∷ r) h = ground (arith, IsLive-without k r h.2)

IsLive-dict_set :
    (k : ℕ) (job : ActiveJob) (r : Rows ActiveJob)
    → IsOwn k job
    → IsLive r
    → IsLive (dict_set k job r)
IsLive-dict_set k job [] own h = (own.0, own.1, tt)
IsLive-dict_set k job ((j, c) ∷ r) own h = ground (arith, IsLive-dict_set k job r own h.2)

IsLive-update :
    (k : ℕ) (set : ActiveJob → ActiveJob) (r : Rows ActiveJob)
    → IsBooking set
    → IsLive r
    → IsLive (update_where (λ row. k == row.0) set r)
IsLive-update k set [] same h = tt
IsLive-update k set ((j, c) ∷ r) same h = ground (arith, same c, IsLive-update k set r same h.2)

-- What is changed in an entry that is then removed is not seen.
pub without-update :
    (k : ℕ) (set : ActiveJob → ActiveJob) (r : Rows ActiveJob)
    → without k (update_where (λ row. k == row.0) set r) ≡ without k r
without-update k set [] = refl
without-update k set ((j, c) ∷ r) = ground (arith, without-update k set r)

module _ (p : UpdaterPorts) (s : UpdaterSettings) where
  IsLive-IsStable : (job : ActiveJob) → IsStable p IsActiveLive job
  IsLive-IsStable job = record {
    waits = λ u h. h;
    edits = λ caption u h. h;
    deletes = λ u h. h;
    books = λ set u same h. IsLive-update job.job_id set u.active same h;
    drops = λ b u h. IsLive-without job.job_id u.active h;
    ends = λ b u h.
        rw (without-update job.job_id (λ j. record j { terminated = true }) u.active)
          (IsLive-without job.job_id u.active h);
  }

  IsLive-IsOpen :
      (k : ℕ) (job : ActiveJob) (u : Updater)
      → IsOwn k job
      → IsActiveLive u
      → IsLive (dict_set k job u.active)
  IsLive-IsOpen k job u own h = IsLive-dict_set k job u.active own h

  pub handle_event-IsLive :
      (k : ℕ) (u : Updater) → IsLive u.active → IsLive (handle_event p s k u).active
  handle_event-IsLive k u h =
      handle_event-keeps p s IsActiveLive k (λ job own. IsLive-IsStable job) (IsLive-IsOpen k)
        (λ v g. g) u h h

  pub turn-IsLive : (x : Turn) (u : Updater) → IsLive u.active → IsLive (turn p s x u).active
  unfolding turn watchdog_tick
  turn-IsLive (event k) u h = handle_event-IsLive k (later u) h
  turn-IsLive watch u h =
      check_jobs-keeps p s IsActiveLive (now p (later u)) u.active _ h
        (AllStable-each p s IsActiveLive u.active IsLive-IsStable) h

  pub turns-IsLive :
      (xs : List Turn) (u : Updater) → IsLive u.active → IsLive (turns p s xs u).active
  unfolding turns
  turns-IsLive [] u h = h
  turns-IsLive (x ∷ xs) u h = turns-IsLive xs (turn p s x u) (turn-IsLive x u h)

  recover_all-IsLive :
      (found : List (ℕ × Hash)) (u : Updater)
      → IsLive u.active
      → IsLive (recover_all p s found u).active
  recover_all-IsLive [] u h = h
  recover_all-IsLive ((k, meta) ∷ found) u h =
      recover_all-IsLive found (later (register_job p s k (from_meta p (now p u) k meta) u).1) (
        register_job-keeps p s IsActiveLive k (now p u) meta (from_meta p (now p u) k meta) u
          (IsLive-IsOpen k) refl h)

  pub recover_active_jobs-IsLive :
      (u : Updater) → IsLive u.active → IsLive (recover_active_jobs p s u).active
  unfolding recover_active_jobs
  recover_active_jobs-IsLive u h = recover_all-IsLive (p.placeholders u.moment) (later u) h
