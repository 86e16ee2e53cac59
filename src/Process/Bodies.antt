-- ===== src/Process/Bodies.antt =====
-- How the body of the `try` in `execute` ends.
use dwtgbot.Base.{
  ℕ, ◌+◌, ◌≡◌, refl, ◌⊎◌, inl, inr, Bool, true, false, Option, none, some, Text, ltb, if◌then◌else◌,
  Bool-cases, [], ◌∷◌, arith,
}
use dwtgbot.Errors.{
  Exc, exc, app, job_cancelled, other, is_instance, is_retryable, Outcome, returned, raised,
}
use dwtgbot.Exec.{pure, ◌>>=◌}
use dwtgbot.Jobs.Entity.{JobStatus, pending, processing, done, failed, Columns, DownloadJob}
use dwtgbot.Jobs.Rows.{get_row}
use dwtgbot.Jobs.Repo.{JobsTable}
use dwtgbot.World.Values.{DeliveredRecord}
use dwtgbot.World.Ports.{Ports, Settings, World}
use dwtgbot.World.Actions.{Action}
use dwtgbot.Process.Store.{complete}
use dwtgbot.Process.Phases.{deliver_phases, ledger_get, live_entry}
use dwtgbot.Process.Frame.{deliver_phases-frame}
use dwtgbot.Process.Writes.{IsQuiet, Holds}
use dwtgbot.Process.Ends.{Ended, complete-Ended}
use dwtgbot.Process.UseCase.{
  propagate, verdict, download_and_deliver, finish_with, finish_if_delivered, attempt_body,
}

-- The row has this status.
abbrev pub HasStatus : ℕ → JobStatus → JobsTable → Type 0
HasStatus k status t = (c : Columns) × (get_row k t.rows ≡ some c) × (c.status ≡ status)

-- Neither a cancellation nor an `AppError` whose class is not to be retried.
abbrev pub IsRetried : Exc → Type 0
IsRetried e =
    (is_instance e.cls (job_cancelled ∷ []) ≡ false)
    × ((is_instance e.cls (app ∷ []) ≡ false) ⊎ (is_retryable e.cls ≡ true))

-- How a run of `execute` ends: it returned and the row is `DONE` or `FAILED`, or it raised
-- something that the queue is to retry and the row is `PENDING` or `PROCESSING`.
abbrev pub Settled : ℕ → Outcome (Unit {0}) → JobsTable → Type 0
Settled k (returned _) t = HasStatus k done t ⊎ HasStatus k failed t
Settled k (raised e) t = (HasStatus k pending t ⊎ HasStatus k processing t) × IsRetried e

-- How the body of the `try` ends: the row is done, or the body raised and the object still is the
-- row.
abbrev pub BodyEnd : ℕ → DownloadJob → Outcome (Unit {0}) → JobsTable → Type 0
BodyEnd k job (returned _) t = HasStatus k done t
BodyEnd k job (raised e) t = Holds k job t

pub propagate-IsRetried : (e : Exc) → verdict e ≡ propagate → IsRetried e
unfolding verdict
propagate-IsRetried e h = elim (Bool-cases (is_instance e.cls (job_cancelled ∷ []))) [
  | inl cancels ↦ absurd (ground (arith, h, cancels))
  | inr goes_on ↦ elim (Bool-cases (is_instance e.cls (app ∷ []))) [
    | inr foreign ↦ (goes_on, inl foreign)
    | inl ours ↦ elim (Bool-cases (is_retryable e.cls)) [
      | inl again ↦ (goes_on, inr again)
      | inr final ↦ absurd (ground (arith, h, goes_on, ours, final))
    ]
  ]
]

pub driver_failure-IsRetried : (m : Text) → IsRetried (exc other m)
driver_failure-IsRetried m = (refl, inl refl)

pub Ended-BodyEnd :
    (p : Ports) (k : ℕ) (job : DownloadJob) (t t' : JobsTable) (r : Outcome (Unit {0}))
    → Holds k job t
    → Ended p k done t r t'
    → BodyEnd k job r t'
Ended-BodyEnd p k job t t' r h (inl (m, n, f', e, same)) = rw e (h.0, rw same h.1)
Ended-BodyEnd p k job t t' r h (inr (e, stored)) = rw e stored

pub Ended-Settled :
    (p : Ports) (k : ℕ) (job : DownloadJob) (t t' : JobsTable) (r : Outcome (Unit {0}))
    → Holds k job t
    → job.status ≡ processing
    → Ended p k failed t r t'
    → Settled k r t'
Ended-Settled p k job t t' r h st (inl (m, n, f', e, same)) =
    rw e (inr (job.columns, rw same h.1, st), driver_failure-IsRetried m)
Ended-Settled p k job t t' r h st (inr (e, stored)) = rw e (inr stored)

module _ (p : Ports) (s : Settings) (quiet : IsQuiet p) (k : ℕ) (job : DownloadJob) where
  complete-BodyEnd :
      (d : DeliveredRecord) (w : World)
      → Holds k job w.jobs
      → BodyEnd k job (complete p s job d w).0 (complete p s job d w).1.jobs
  complete-BodyEnd d w h = Ended-BodyEnd p k job _ _ _ h (complete-Ended p s quiet k job d w h)

  deliver-BodyEnd :
      (w : World)
      → Holds k job w.jobs
      → BodyEnd k job (download_and_deliver p s job w).0 (download_and_deliver p s job w).1.jobs
  unfolding download_and_deliver ◌>>=◌
  deliver-BodyEnd w h = ended (deliver_phases p s job w).0 refl
    where
      same : (deliver_phases p s job w).1.jobs ≡ w.jobs
      same = (deliver_phases-frame w.jobs p s job).at w refl

      ended :
          (r : Outcome DeliveredRecord)
          → (deliver_phases p s job w).0 ≡ r
          → BodyEnd k job (download_and_deliver p s job w).0 (download_and_deliver p s job w).1.jobs
      ended (returned d) e =
          rw e (complete-BodyEnd d (deliver_phases p s job w).1 (h.0, rw same h.1))
      ended (raised x) e = rw e (h.0, rw same h.1)

  -- The same of `_finish_if_delivered`, whose result says whether it wrote the row.
  abbrev FinishEnd : Outcome Bool → JobsTable → Type 0
  FinishEnd (returned true) t = HasStatus k done t
  FinishEnd (returned false) t = Holds k job t
  FinishEnd (raised e) t = Holds k job t

  finish_with-FinishEnd :
      (found : Option DeliveredRecord) (w : World)
      → Holds k job w.jobs
      → FinishEnd (finish_with p s job found w).0 (finish_with p s job found w).1.jobs
  unfolding finish_with ◌>>=◌
  finish_with-FinishEnd none w h = h
  finish_with-FinishEnd (some d) w h = elim (complete-Ended p s quiet k job d w h) [
    | inl (m, n, f', e, same) ↦ rw e (h.0, rw same h.1)
    | inr (e, stored) ↦ rw e stored
  ]

  finish-FinishEnd :
      (w : World)
      → Holds k job w.jobs
      → FinishEnd (finish_if_delivered p s job w).0 (finish_if_delivered p s job w).1.jobs
  unfolding finish_if_delivered ◌>>=◌ ledger_get
  finish-FinishEnd w h = elim (Bool-cases s.has_ledger) [
    | inr e ↦ rw e h
    | inl e ↦
        simp (e, h.0)
          (finish_with-FinishEnd
            (if p.redis_up w.moment
              then live_entry p s (p.clock w.moment) (get_row k w.ledger)
              else none)
            (record w { moment = w.moment + 1 }) h)
  ]

  maybe_finish-FinishEnd :
      (attempt : ℕ) (w : World)
      → Holds k job w.jobs
      → let m = if ltb 1 attempt then finish_if_delivered p s job else pure false in
        FinishEnd (m w).0 (m w).1.jobs
  maybe_finish-FinishEnd attempt w h = elim (Bool-cases (ltb 1 attempt)) [
    | inl e ↦ rw e (finish-FinishEnd w h)
    | inr e ↦ rw e h
  ]

  pub attempt_body-BodyEnd :
      (attempt : ℕ) (w : World)
      → Holds k job w.jobs
      → BodyEnd k job (attempt_body p s attempt job w).0 (attempt_body p s attempt job w).1.jobs
  unfolding attempt_body ◌>>=◌
  attempt_body-BodyEnd attempt w h = ended (m w).0 refl (maybe_finish-FinishEnd attempt w h)
    where
      m : Action Bool
      m = if ltb 1 attempt then finish_if_delivered p s job else pure false

      ended :
          (r : Outcome Bool)
          → (m w).0 ≡ r
          → FinishEnd (m w).0 (m w).1.jobs
          → BodyEnd k job (attempt_body p s attempt job w).0 (attempt_body p s attempt job w).1.jobs
      ended (returned true) e f = rw e (rw e at f)
      ended (returned false) e f = rw e (deliver-BodyEnd (m w).1 (rw e at f))
      ended (raised x) e f = rw e (rw e at f)
