-- ===== src/Process/Ending.antt =====
-- The queue's tries end with the job settled.
use dwtgbot.Base.{
  ℕ, zero, suc, ◌+◌, ◌≤◌, ◌<◌, ◌≡◌, refl, ◌⊎◌, inl, inr, false, none, some, [], ◌∷◌, codes, arith,
  ==_self, leb, leb→le, if◌then◌else◌, Option-cases, Bool-cases, ◌∙◌,
}
use dwtgbot.Errors.{Exc, app, is_instance, user_message, Outcome, returned, raised}
use dwtgbot.Errors.Reason.{classify_exception}
use dwtgbot.Exec.{try_, ◌>>=◌}
use dwtgbot.Exec.Laws.{bind_returned, bind_raised}
use dwtgbot.Jobs.Entity.{JobStatus, pending, processing, done, failed, is_terminal, Columns}
use dwtgbot.Jobs.Rows.{get_row, get_row-update_where}
use dwtgbot.Jobs.Repo.{JobsTable, to_entity, incremented, increment_retries}
use dwtgbot.World.Values.{worker_active}
use dwtgbot.World.Ports.{Ports, Settings, World}
use dwtgbot.World.Actions.{reached, emit, on_jobs, db_get}
use dwtgbot.Process.Writes.{IsQuiet, db_get_end}
use dwtgbot.Process.Ends.{Ended, fail-Ended}
use dwtgbot.Process.Bodies.{HasStatus, Settled}
use dwtgbot.Process.Settles.{execute_settles}
use dwtgbot.Process.UseCase.{execute, fail_found, mark_terminally_failed}
use dwtgbot.Process.Task.{
  TaskEnd, finished, retry, aborted, retry_delay_s, after_failure, process_download_job, rerun,
  run_tries,
}

-- The database driver never fails.
abbrev pub IsUp : Ports → Type 0
IsUp p = (n : ℕ) → p.db_failure n ≡ none

-- The row may be run at this attempt.
abbrev pub IsRunnable : ℕ → ℕ → JobsTable → Type 0
IsRunnable k attempt t = HasStatus k pending t ⊎ (HasStatus k processing t × (1 < attempt))

abbrev pub IsOver : ℕ → JobsTable → Type 0
IsOver k t = HasStatus k done t ⊎ HasStatus k failed t

incremented-HasStatus :
    (now k : ℕ) (status : JobStatus) (t : JobsTable)
    → HasStatus k status t
    → HasStatus k status (increment_retries now k t).1
unfolding increment_retries
incremented-HasStatus now k status t (c, found, st) = (
  record c { retries_count = c.retries_count + 1; updated_at = now },
  rw (found, incremented) (rw get_row-update_where (rw found (ground (arith, ==_self k)))),
  st,
)

Ended-from :
    (p : Ports) (k : ℕ) (status : JobStatus) (t u t' : JobsTable) (r : Outcome (Unit {0}))
    → u ≡ t
    → Ended p k status u r t'
    → Ended p k status t r t'
Ended-from p k status t u t' r e (inl (m, n, down, q, same)) = inl (m, n, down, q, same ∙ e)
Ended-from p k status t u t' r e (inr stored) = inr stored

stored_row :
    (p : Ports) (k : ℕ) (status : JobStatus) (t t' : JobsTable) (r : Outcome (Unit {0}))
    → IsUp p
    → Ended p k status t r t'
    → HasStatus k status t'
stored_row p k status t t' r up (inl (m, n, down, q, same)) = cc (up n)
stored_row p k status t t' r up (inr (q, stored)) = stored

-- What the task has done when it ends at this try.
abbrev pub TaskEnded : ℕ → ℕ → ℕ → TaskEnd → JobsTable → Type 0
TaskEnded k try_id max_tries finished t = IsOver k t
TaskEnded k try_id max_tries (aborted e) t = (max_tries ≤ try_id) × IsOver k t
TaskEnded k try_id max_tries (retry delay) t =
    (try_id < max_tries)
    × (delay ≡ retry_delay_s try_id)
    × (HasStatus k pending t ⊎ HasStatus k processing t)

module _ (p : Ports) (s : Settings) (quiet : IsQuiet p) (k : ℕ) where
  counted-HasStatus :
      (status : JobStatus) (w : World)
      → HasStatus k status w.jobs
      → HasStatus k status (on_jobs p (λ at t. increment_retries at k t) w).1.jobs
  unfolding on_jobs
  counted-HasStatus status w h = elim (Option-cases (p.db_failure w.moment)) [
    | inr (m, e) ↦ rw (e, reached) h
    | inl e ↦
        rw (e, reached)
          (rw (quiet w.moment w.jobs) (incremented-HasStatus (p.clock w.moment) k status w.jobs h))
  ]

  mark-Ended :
      (e : Exc) (w : World) (c : Columns)
      → get_row k w.jobs.rows ≡ some c
      → is_terminal c.status ≡ false
      → Ended p k failed w.jobs
          (mark_terminally_failed p s k e w).0
          (mark_terminally_failed p s k e w).1.jobs
  unfolding mark_terminally_failed fail_found
  mark-Ended e w c found live =
      let (read, same) = db_get_end p quiet k c w found in
      let f = fail_found p s e in
      elim read [
        | inl (m, n, down, q) ↦ rw (bind_raised (db_get p k) f w q) (inl (m, n, down, refl, same))
        | inr q ↦ rw (bind_returned (db_get p k) f w q) (
            rw (live, fail_found)
              (Ended-from p k failed _ (db_get p k w).1.jobs _ _ same (
                fail-Ended p s quiet k (to_entity k c)
                  (if is_instance e.cls (app ∷ [])
                    then user_message e
                    else codes "Не удалось обработать запрос.")
                  (p.exc_repr e) (classify_exception e.cls) (db_get p k w).1
                  (refl, rw same found))))
      ]

  aborted-HasStatus :
      (e : Exc) (w : World)
      → IsUp p
      → (HasStatus k pending w.jobs ⊎ HasStatus k processing w.jobs)
      → HasStatus k failed (try_ (mark_terminally_failed p s k e) w).1.jobs
  unfolding try_
  aborted-HasStatus e w up (inl (c, found, st)) =
      stored_row p k failed _ _ _ up (mark-Ended e w c found (ground arith))
  aborted-HasStatus e w up (inr (c, found, st)) =
      stored_row p k failed _ _ _ up (mark-Ended e w c found (ground arith))

  counted_active :
      (w : World)
      → (HasStatus k pending w.jobs ⊎ HasStatus k processing w.jobs)
      → let w' = (on_jobs p (λ at t. increment_retries at k t) w).1 in
        HasStatus k pending w'.jobs ⊎ HasStatus k processing w'.jobs
  counted_active w (inl h) = inl (counted-HasStatus pending w h)
  counted_active w (inr h) = inr (counted-HasStatus processing w h)

  after_failure-TaskEnded :
      (try_id max_tries : ℕ) (r : Outcome (Unit {0})) (w : World)
      → IsUp p
      → Settled k r w.jobs
      → let m = after_failure p s try_id max_tries k r in
        (end : TaskEnd) × ((m w).0 ≡ returned end) × TaskEnded k try_id max_tries end (m w).1.jobs
  unfolding after_failure ◌>>=◌ try_
  after_failure-TaskEnded try_id max_tries (returned _) w up h = (finished, refl, h)
  after_failure-TaskEnded try_id max_tries (raised e) w up (h, _) =
      let count = on_jobs p (λ at t. increment_retries at k t) in
      let w' = (try_ count w).1 in
      let active : HasStatus k pending w'.jobs ⊎ HasStatus k processing w'.jobs =
        counted_active w h in
      elim (Bool-cases (leb max_tries try_id)) [
        | inl last ↦ (
          aborted e,
          rw last,
          rw last (omega (arith, leb→le _ _ last), inr (aborted-HasStatus e w' up active)),
        )
        | inr more ↦ (retry (retry_delay_s try_id), rw more, rw more (ground arith, refl, active))
      ]

  runnable_settles :
      (attempt : ℕ) (w : World)
      → IsRunnable k attempt w.jobs
      → Settled k (execute p s k attempt w).0 (execute p s k attempt w).1.jobs
  runnable_settles attempt w (inl (c, found, st)) =
      execute_settles p s quiet k attempt c w found (inl st)
  runnable_settles attempt w (inr ((c, found, st), later)) =
      execute_settles p s quiet k attempt c w found (inr (st, later))

  -- One call of the task function on a job that may be run.
  task-TaskEnded :
      (try_id max_tries : ℕ) (w : World)
      → IsUp p
      → IsRunnable k try_id w.jobs
      → let m = process_download_job p s try_id max_tries k in
        (end : TaskEnd) × ((m w).0 ≡ returned end) × TaskEnded k try_id max_tries end (m w).1.jobs
  unfolding process_download_job emit ◌>>=◌ try_
  task-TaskEnded try_id max_tries w up ready =
      let w' = record w { log = worker_active ∷ w.log } in
      let run = execute p s k try_id w' in
      let (end, e, h) =
        after_failure-TaskEnded try_id max_tries run.0 run.1 up
          (runnable_settles try_id w' ready) in
      (end, rw e, rw e h)

  next-IsRunnable :
      (try_id : ℕ) (t : JobsTable)
      → 0 < try_id
      → (HasStatus k pending t ⊎ HasStatus k processing t)
      → IsRunnable k (try_id + 1) t
  next-IsRunnable try_id t pos (inl h) = inl h
  next-IsRunnable try_id t pos (inr h) = inr (h, omega arith)

-- The tries left, at least one, end the job.
abbrev OverBy : ℕ → Outcome TaskEnd → JobsTable → Type 0
OverBy k r t = ((r ≡ returned finished) ⊎ ((e : Exc) × (r ≡ returned (aborted e)))) × IsOver k t

module _ (p : Ports) (s : Settings) (quiet : IsQuiet p) (k : ℕ) (up : IsUp p) where
  -- One round, given what the rounds behind it do.
  tries_step :
      (rounds try_id max_tries : ℕ) (w : World)
      → (try_id + suc rounds ≡ max_tries + 1) × (0 < try_id)
      → ((w' : World)
          → 0 < rounds
          → (try_id + 1 + rounds ≡ max_tries + 1) × (0 < try_id + 1)
          → IsRunnable k (try_id + 1) w'.jobs
          → let m = run_tries p s rounds (try_id + 1) max_tries k in
            OverBy k (m w').0 (m w').1.jobs)
      → ((end : TaskEnd) × ((process_download_job p s try_id max_tries k w).0 ≡ returned end)
          × TaskEnded k try_id max_tries end (process_download_job p s try_id max_tries k w).1.jobs)
      → let m = run_tries p s (suc rounds) try_id max_tries k in OverBy k (m w).0 (m w).1.jobs
  unfolding run_tries ◌>>=◌ rerun
  tries_step rounds try_id max_tries w eq later (finished, e, over) = rw e (inl refl, over)
  tries_step rounds try_id max_tries w eq later (aborted x, e, over) = rw e (inr (x, refl), over.1)
  tries_step rounds try_id max_tries w eq later (retry d, e, more) = rw e (
      later (process_download_job p s try_id max_tries k w).1 (omega arith) (omega arith) (
        next-IsRunnable p s quiet k try_id (process_download_job p s try_id max_tries k w).1.jobs
          eq.1 more.2))

  tries_over :
      (rounds try_id max_tries : ℕ) (w : World)
      → 0 < rounds
      → (try_id + rounds ≡ max_tries + 1) × (0 < try_id)
      → IsRunnable k try_id w.jobs
      → let m = run_tries p s rounds try_id max_tries k in OverBy k (m w).0 (m w).1.jobs
  tries_over zero try_id max_tries w pos eq h = absurd (omega arith)
  tries_over (suc rounds) try_id max_tries w pos eq h =
      tries_step rounds try_id max_tries w eq (tries_over rounds (try_id + 1) max_tries)
        (task-TaskEnded p s quiet k try_id max_tries w up h)

-- While no other process writes and the database answers, the queue's tries of a pending job end
-- after at most `max_tries` of them, at least one: the last call of the task returned, or it
-- raised for good on the last try, and the row is `DONE` or `FAILED`. No answer of a provider, of
-- the storage, of Telegram or of Redis leaves the job `PENDING` or `PROCESSING`.
pub run_tries_settle :
    (p : Ports) (s : Settings)
    → IsQuiet p
    → IsUp p
    → (k max_tries : ℕ) (w : World) → 0 < max_tries
    → HasStatus k pending w.jobs
    → let m = run_tries p s max_tries 1 max_tries k in
      (((m w).0 ≡ returned finished) ⊎ ((e : Exc) × ((m w).0 ≡ returned (aborted e))))
      × IsOver k (m w).1.jobs
run_tries_settle p s quiet up k max_tries w pos h =
    tries_over p s quiet k up max_tries 1 max_tries w pos (omega arith) (inl h)
