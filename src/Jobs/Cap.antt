-- ===== src/Jobs/Cap.antt =====
-- The per-user cap of `create_if_under_cap`.
use dwtgbot.Base.{
  ℕ, zero, suc, ◌+◌, ◌≤◌, ◌<◌, ◌≡◌, refl, ◌⊎◌, Option, none, some, arith, ◌==◌, if◌then◌else◌, inl,
  inr,
}
use dwtgbot.Errors.{Outcome, returned}
use dwtgbot.Jobs.Entity.{pending, DownloadJob}
use dwtgbot.Jobs.Rows.{IsKeyed, get_row_fresh}
use native.Mathlib.Decide.{dec_lt}
use dwtgbot.Jobs.Repo.{
  JobsTable, to_entity, count_active_for_user, create_if_under_cap, get, insert_row, new_row,
}

-- No user holds more active rows than the cap.
abbrev pub IsCapped : ℕ → JobsTable → Type 0
IsCapped cap t = (user : ℕ) → count_active_for_user user t ≤ cap

-- `create_if_under_cap` never takes a user over the cap: a table in which no user has more than
-- `cap` active jobs stays one, whoever asks and whatever the new job's status is.
pub create_if_under_cap-IsCapped :
    (now cap : ℕ) (job : DownloadJob) (t : JobsTable)
    → IsCapped cap t
    → IsCapped cap (create_if_under_cap now cap job t).1
unfolding create_if_under_cap
create_if_under_cap-IsCapped now zero job t h user = h user
create_if_under_cap-IsCapped now (suc cap) job t h user = ground (arith, h user, h job.user_id)

-- The two ends of the call.
pub at_cap :
    (now cap : ℕ) (job : DownloadJob) (t : JobsTable)
    → 0 < cap
    → cap ≤ count_active_for_user job.user_id t
    → create_if_under_cap now cap job t ≡ (returned none, t)
unfolding create_if_under_cap
at_cap now zero job t p h = absurd (omega arith)
at_cap now (suc cap) job t p h = ground arith

pub below_cap :
    (now cap : ℕ) (job : DownloadJob) (t : JobsTable)
    → 0 < cap
    → count_active_for_user job.user_id t < cap
    → let (created, t') = insert_row (new_row now job.status_version job.columns) t in
      create_if_under_cap now cap job t ≡ (returned (some created), t')
unfolding create_if_under_cap
below_cap now zero job t p h = absurd (omega arith)
below_cap now (suc cap) job t p h = ground arith

-- What a call of `create_if_under_cap` on `t` that ended in `(r, t')` has done.
abbrev pub CapOutcome :
    ℕ → DownloadJob → JobsTable → Outcome (Option DownloadJob) → JobsTable → Type 0
CapOutcome cap job t r t' =
    ((cap ≤ count_active_for_user job.user_id t) × (r ≡ returned none) × (t' ≡ t))
    ⊎ ((count_active_for_user job.user_id t < cap)
        × ((j : DownloadJob) × (r ≡ returned (some j))
            × (j.id ≡ some t.next_id)
            × (get t.next_id t ≡ none)
            × (get t.next_id t' ≡ some j)
            × IsKeyed t'.next_id t'.rows
            × ((user : ℕ)
                → count_active_for_user user t'
                  ≡ (if user == job.user_id then 1 else 0) + count_active_for_user user t)))

-- With a cap of at least one and a job that is to be pending, the call inserts exactly when the
-- user is below the cap: it then returns the new row under a key that no row had, a later `get`
-- finds it, the user's count is one higher and every other user's the same; at the cap it returns
-- `None` and changes nothing.
pub create_if_under_cap_exact :
    (now cap : ℕ) (job : DownloadJob) (t : JobsTable)
    → 0 < cap
    → job.status ≡ pending
    → IsKeyed t.next_id t.rows
    → let (r, t') = create_if_under_cap now cap job t in CapOutcome cap job t r t'
unfolding insert_row get count_active_for_user
create_if_under_cap_exact now cap job t p st keyed =
    elim (dec_lt (count_active_for_user job.user_id t) cap) [
      | yes low ↦ rw (below_cap now cap job t p low) (
          inr (
            low,
            (
              to_entity t.next_id (new_row now job.status_version job.columns),
              refl,
              refl,
              ground (arith, get_row_fresh t.next_id t.rows t.next_id keyed (omega arith)),
              ground arith,
              (omega arith, keyed),
              λ user. ground arith,
            ),
          ))
      | no high ↦ rw (at_cap now cap job t p (omega arith)) (inl (omega arith, refl, refl))
    ]
