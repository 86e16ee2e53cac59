-- ===== src/Process/Writes.antt =====
-- What the writes of the job row do while no other process writes.
use dwtgbot.Base.{
  ℕ, ◌≡◌, refl, ◌⊎◌, inl, inr, some, Text, arith, ==_self, if◌then◌else◌, Option-cases, ◌∙◌,
  Bool-cases,
}
use dwtgbot.Errors.{exc, other, Outcome, returned, raised}
use dwtgbot.Errors.Reason.{ReasonClass, user_error}
use dwtgbot.Exec.{pure, try_, ◌>>=◌, ◌>>◌}
use dwtgbot.Exec.Laws.{bind_returned}
use dwtgbot.Jobs.Entity.{JobStatus, failed, Columns, DownloadJob}
use dwtgbot.Jobs.Rows.{get_row}
use dwtgbot.Jobs.Repo.{JobsTable, to_entity, written, get}
use dwtgbot.Jobs.Locking.{update_eq, update_stores}
use dwtgbot.World.Values.{Event, progress_failed, status_change, cancel_cleared}
use dwtgbot.World.Ports.{Ports, Settings, World}
use dwtgbot.World.Actions.{Action, reached, emit, call, db_get, db_update}
use dwtgbot.Process.Store.{
  saved_unless, when_id, notify, emit_transition, save_unless_terminal, after_fail, after_cancel,
}

-- No other process writes the jobs table.
abbrev pub IsQuiet : Ports → Type 0
IsQuiet p = (n : ℕ) (t : JobsTable) → p.others n t ≡ t

-- The object is the row `k` as it stands in the table.
abbrev pub Holds : ℕ → DownloadJob → JobsTable → Type 0
Holds k job t = (job.id ≡ some k) × (get_row k t.rows ≡ some job.columns)

-- The object may differ from the row, but carries its version.
abbrev pub IsFresh : ℕ → DownloadJob → JobsTable → Type 0
IsFresh k job t =
    (c : Columns) × (job.id ≡ some k)
    × (get_row k t.rows ≡ some c)
    × (job.status_version ≡ c.status_version)

-- A write that began on the table `t`: the driver failed and the table is `t`, or the row is
-- stored with the status that was asked for, and the returned object holds it.
abbrev pub Wrote : Ports → ℕ → JobStatus → JobsTable → Outcome DownloadJob → JobsTable → Type 0
Wrote p k status t r t' =
    ((m : Text) × (n : ℕ) × (p.db_failure n ≡ some m) × (r ≡ raised (exc other m)) × (t' ≡ t))
    ⊎ ((saved : DownloadJob) × (r ≡ returned saved) × (saved.status ≡ status) × Holds k saved t')

module _ (p : Ports) (quiet : IsQuiet p) (k : ℕ) where
  pub db_update-Wrote :
      (job : DownloadJob) (w : World)
      → IsFresh k job w.jobs
      → Wrote p k job.status w.jobs (db_update p job w).0 (db_update p job w).1.jobs
  unfolding db_update
  db_update-Wrote job w (c, keyed, found, same) = elim (Option-cases (p.db_failure w.moment)) [
    | inr (m, e) ↦ inl (m, w.moment, e, ground arith, ground arith)
    | inl e ↦
        let at = p.clock w.moment in
        let q = quiet w.moment w.jobs in
        let stored = update_eq at k job c w.jobs keyed found same in
        let row = (update_stores at k job c w.jobs keyed found same).1 k in
        inr (
          to_entity k (written at job.columns c),
          rw (e, reached) (rw (q, stored)),
          refl,
          (refl, rw (e, reached) (rw q (ground (arith, row, ==_self k)))),
        )
  ]

  -- A read finds the row, or the driver fails.
  pub db_get_end :
      (c : Columns) (w : World)
      → get_row k w.jobs.rows ≡ some c
      → (((m : Text) × (n : ℕ) × (p.db_failure n ≡ some m)
            × ((db_get p k w).0 ≡ raised (exc other m)))
          ⊎ ((db_get p k w).0 ≡ returned (some (to_entity k c))))
        × ((db_get p k w).1.jobs ≡ w.jobs)
  unfolding db_get get
  db_get_end c w found = elim (Option-cases (p.db_failure w.moment)) [
    | inr (m, e) ↦ (inl (m, w.moment, e, rw (e, reached) refl), rw (e, reached) refl)
    | inl e ↦
        let q = quiet w.moment w.jobs in
        (inr (rw (e, reached) (rw q (rw (found, get)))), rw (e, reached) q)
  ]

  pub save-Wrote :
      (s : Settings) (job : DownloadJob) (w : World)
      → IsFresh k job w.jobs
      → ((m : Text) × (n : ℕ) × (p.db_failure n ≡ some m)
          × ((save_unless_terminal p s job w).0 ≡ raised (exc other m))
          × ((save_unless_terminal p s job w).1.jobs ≡ w.jobs))
        ⊎ ((saved : DownloadJob) × ((save_unless_terminal p s job w).0 ≡ returned (some saved))
            × (saved.status ≡ job.status)
            × Holds k saved (save_unless_terminal p s job w).1.jobs)
  unfolding save_unless_terminal ◌>>=◌ try_
  save-Wrote s job w fresh = elim (db_update-Wrote job w fresh) [
    | inl (m, n, f', e, same) ↦ inl (m, n, f', rw (e, saved_unless) refl, rw (e, saved_unless) same)
    | inr (saved, e, st, holds) ↦
        inr (saved, rw (e, saved_unless) refl, st, rw (e, saved_unless) holds)
  ]

-- A call that always returns and leaves the jobs table alone.
abbrev pub IsSilent : Action (Unit {0}) → Type 0
IsSilent m = (w : World) → ((m w).0 ≡ returned tt) × ((m w).1.jobs ≡ w.jobs)

pub bind-IsSilent : (m n : Action (Unit {0})) → IsSilent m → IsSilent n → IsSilent (m >> n)
bind-IsSilent m n hm hn w =
    rw (bind_returned m (λ _. n) w (hm w).0) ((hn (m w).1).0, (hn (m w).1).1 ∙ (hm w).1)

pub emit-IsSilent : (e : Event) → IsSilent (emit e)
unfolding emit
emit-IsSilent e w = (refl, refl)

pub when_id-IsSilent :
    (job : DownloadJob) (f : ℕ → Event) → IsSilent (when_id job (λ k. emit (f k)))
unfolding emit
when_id-IsSilent job f w = ground arith

notify-IsSilent :
    (p : Ports) (s : Settings) (chat : ℕ) (text : Text) → IsSilent (notify p s chat text)
unfolding notify ◌>>=◌ try_ call emit
notify-IsSilent p s chat text w = ground arith

pub after_fail-IsSilent :
    (p : Ports) (s : Settings) (previous : JobStatus) (text : Text) (reason : ReasonClass)
    (job : DownloadJob)
    → IsSilent (after_fail p s previous text reason (some job))
unfolding after_fail emit_transition
after_fail-IsSilent p s previous text reason job =
    bind-IsSilent _ _ (emit-IsSilent (status_change previous failed reason)) (
      bind-IsSilent _ _ (when_id-IsSilent job (λ k. progress_failed k text))
        (notify-IsSilent p s job.chat_id _))

pub after_cancel-IsSilent :
    (p : Ports) (s : Settings) (previous : JobStatus) (job : DownloadJob)
    → IsSilent (after_cancel p s previous (some job))
unfolding after_cancel emit_transition
after_cancel-IsSilent p s previous job w =
    bind-IsSilent _ _ (emit-IsSilent (status_change previous failed user_error)) cleared w
  where
    cleared :
        IsSilent
          (if s.has_cancellation then when_id job (λ k. emit (cancel_cleared k)) else pure tt)
    cleared v = elim (Bool-cases s.has_cancellation) [
      | inl e ↦ rw e (when_id-IsSilent job cancel_cleared v)
      | inr e ↦ rw e (refl, refl)
    ]
