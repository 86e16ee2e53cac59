-- ===== src/Jobs/Reaping.antt =====
-- `_reap`: which rows it fails, and what the optimistic lock sees of it.
use dwtgbot.Base.{
  ℕ, zero, suc, ◌+◌, ◌-◌, ◌≤◌, ◌<◌, ◌≡◌, refl, true, none, some, [], ◌∷◌, arith, if◌then◌else◌,
  count, Text, ◌&&◌, ◌∙◌, Bool, ltb,
}
use dwtgbot.Errors.{returned}
use dwtgbot.Jobs.Entity.{JobStatus, failed, status_eq, is_active, Columns, DownloadJob}
use dwtgbot.Jobs.Rows.{Rows, get_row, update_where, get_row-update_where}
use dwtgbot.Jobs.Locking.{update_stores}
use dwtgbot.Jobs.Repo.{
  JobsTable, to_entity, written, update, is_active_of, count_active_for_user, is_orphan, reaped,
  reap,
}

-- A reaped row is stamped with the current time, so no orphan is left.
no_orphan_left :
    (now threshold : ℕ) (status : JobStatus) (message : Text) (r : Rows Columns)
    → threshold ≤ now
    → count
        (is_orphan status threshold)
        (update_where (is_orphan status threshold) (reaped now message) r)
      ≡ 0
no_orphan_left now threshold status message [] h = refl
no_orphan_left now threshold status message (x ∷ r) h =
    ground (arith, no_orphan_left now threshold status message r h)

count-reaped :
    (now threshold user : ℕ) (status : JobStatus) (message : Text) (r : Rows Columns)
    → is_active status ≡ true
    → count (is_active_of user) (update_where (is_orphan status threshold) (reaped now message) r)
        + count (λ x. is_active_of user x && is_orphan status threshold x) r
      ≡ count (is_active_of user) r
count-reaped now threshold user status message [] a = refl
count-reaped now threshold user status message (x ∷ r) a =
    ground (arith, count-reaped now threshold user status message r a)

-- Reaping with an age of at least one second reports how many rows it changed: those that were in
-- `status` with `updated_at` before `now - age`. Each of them is `FAILED` afterwards, with the
-- message, that time as its update and completion, and everything else, its version too,
-- unchanged. Every other row is as before, and no row of that status is left behind the threshold.
pub reap_exact :
    (now age : ℕ) (status : JobStatus) (message : Text) (t : JobsTable)
    → 0 < age
    → let (r, t') = reap now status age message t in
      let old : ℕ × Columns → Bool =
        λ x. status_eq x.1.status status && ltb x.1.updated_at (now - age) in
      let dead : Columns → Columns = λ c. record c {
        status = failed;
        error_message = some message;
        updated_at = now;
        completed_at = some now;
      } in
      (r ≡ returned (count old t.rows))
      × (count old t'.rows ≡ 0)
      × ((k : ℕ)
          → get_row k t'.rows ≡ elim (get_row k t.rows) [
            | none ↦ none
            | some c ↦ some (if old (k, c) then dead c else c)
          ])
unfolding reap
reap_exact now zero status message t h = absurd (omega arith)
reap_exact now (suc age) status message t h = (
  refl,
  no_orphan_left now (now - suc age) status message t.rows (omega arith),
  λ k. get_row-update_where (is_orphan status (now - suc age)) (reaped now message) k t.rows,
)

-- Reaping an active status gives every user back exactly the slots of the reaped rows.
pub reap_frees_slots :
    (now age user : ℕ) (status : JobStatus) (message : Text) (t : JobsTable)
    → 0 < age
    → is_active status ≡ true
    → count_active_for_user user (reap now status age message t).1
        + count (λ x. is_active_of user x && is_orphan status (now - age) x) t.rows
      ≡ count_active_for_user user t
unfolding reap count_active_for_user
reap_frees_slots now zero user status message t h a = absurd (omega arith)
reap_frees_slots now (suc age) user status message t h a =
    count-reaped now (now - suc age) user status message t.rows a

-- Reaping does not raise `status_version`, so the lock does not see it: a writer that read the row
-- before it was reaped still has its update stored afterwards, and the row has the writer's status
-- in place of `FAILED`.
pub reap_unseen_by_lock :
    (now later age k : ℕ) (status : JobStatus) (message : Text) (job : DownloadJob) (c : Columns)
    (t : JobsTable)
    → 0 < age
    → get_row k t.rows ≡ some c
    → is_orphan status (now - age) (k, c) ≡ true
    → job.id ≡ some k
    → job.status_version ≡ c.status_version
    → let t' = (reap now status age message t).1 in
      let (r, t'') = update later job t' in
      (get_row k t'.rows ≡ some (reaped now message c))
      × (r ≡ returned (to_entity k (written later job.columns (reaped now message c))))
      × (get_row k t''.rows ≡ some (written later job.columns (reaped now message c)))
reap_unseen_by_lock now later age k status message job c t pos found old keyed same =
    let t' = (reap now status age message t).1 in
    let at_k = (reap_exact now age status message t pos).2 k in
    let gone : get_row k t'.rows ≡ some (reaped now message c) = at_k ∙ ground (arith) in
    let stored = update_stores later k job (reaped now message c) t' keyed gone same in
    (gone, stored.0, ground (arith, stored.1 k))
