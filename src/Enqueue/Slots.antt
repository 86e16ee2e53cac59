-- ===== src/Enqueue/Slots.antt =====
-- What a call of `EnqueueDownloadUseCase.execute` does to the user's slots.
use dwtgbot.Base.{
  ℕ, ◌+◌, ◌≤◌, ◌<◌, ◌≡◌, refl, ◌⊎◌, inl, inr, some, ◌∷◌, ◌++◌, codes, arith, ◌==◌, if◌then◌else◌,
}
use dwtgbot.Errors.{Exc, Outcome, returned, raised}
use dwtgbot.Exec.{◌>>=◌, catch, try_}
use dwtgbot.Jobs.Entity.{failed, DownloadJob, Columns, mark_failed}
use dwtgbot.Jobs.Rows.{IsKeyed}
use dwtgbot.Jobs.Inserted.{update-insert_row}
use dwtgbot.Jobs.Cap.{at_cap, below_cap}
use dwtgbot.Jobs
use dwtgbot.Jobs.Repo.{
  JobsTable, to_entity, count_active_for_user, insert_row, new_row, version_matches, written,
}
use dwtgbot.World.Values.{queued, job_created}
use dwtgbot.World.Ports.{World}
use dwtgbot.World.Calm.{IsCalm, on_jobs-calm}
use dwtgbot.World.Actions.{db_create_if_under_cap, db_update, call, emit, now}
use dwtgbot.Enqueue.Release.{EnqueuePorts, publish_job, release, enqueue_or_release}
use dwtgbot.Enqueue.UseCase.{
  EnqueueInput, fresh_job, cap_error, handed_over, enqueue, enqueue_download,
}
use native.Mathlib.Decide.{dec_lt}

-- What a call for `payload` with this answer of the queue has done, from `w` to `w'`.
abbrev pub SlotOutcome : ℕ → EnqueueInput → World → Outcome (Unit {0}) → Outcome ℕ → World → Type 0
SlotOutcome cap payload w answer r w' =
    let active = λ (user : ℕ) (v : World). count_active_for_user user v.jobs in
    let k = w.jobs.next_id in
    ((cap ≤ active payload.user_id w)
      × (r ≡ raised (cap_error payload.user_id cap))
      × (w'.jobs ≡ w.jobs)
      × (w'.log ≡ w.log))
    ⊎ ((active payload.user_id w < cap)
        × (((answer ≡ returned tt)
              × (r ≡ returned k)
              × (w'.log ≡ job_created payload.platform ∷ queued k payload.correlation_id ∷ w.log)
              × ((user : ℕ)
                  → active user w' ≡ (if user == payload.user_id then 1 else 0) + active user w))
            ⊎ ((e : Exc) × (answer ≡ raised e)
                × (r ≡ raised e)
                × (w'.log ≡ w.log)
                × ((j : DownloadJob) × (Jobs.Repo.get k w'.jobs ≡ some j) × (j.status ≡ failed))
                × ((user : ℕ) → active user w' ≡ active user w))))

module _ (p : EnqueuePorts) (cap at : ℕ) (payload : EnqueueInput) (w : World) where
  abbrev user_count : ℕ → World → ℕ
  user_count user v = count_active_for_user user v.jobs

  -- The row that a call below the cap inserts.
  abbrev inserted : Columns
  inserted = new_row (p.base.clock w.moment) 0 (fresh_job at payload).columns

  abbrev after_insert : World
  after_insert = record w { jobs = (insert_row inserted w.jobs).1; moment = w.moment + 1 }

  full :
      IsCalm p.base
      → 0 < cap
      → cap ≤ user_count payload.user_id w
      → enqueue_download p cap at payload w
        ≡ (raised (cap_error payload.user_id cap), record w { moment = w.moment + 1 })
  unfolding enqueue_download enqueue db_create_if_under_cap handed_over ◌>>=◌
  full calm pos high =
      rw
        (
          on_jobs-calm p.base (λ n t. Jobs.Repo.create_if_under_cap n cap (fresh_job at payload) t)
              w calm,
          at_cap (p.base.clock w.moment) cap (fresh_job at payload) w.jobs pos high,
        )
        refl

  room :
      IsCalm p.base
      → 0 < cap
      → user_count payload.user_id w < cap
      → enqueue p cap at payload w
        ≡ handed_over p cap payload (some (to_entity w.jobs.next_id inserted)) after_insert
  unfolding enqueue db_create_if_under_cap ◌>>=◌ insert_row
  room calm pos low =
      rw
        (
          on_jobs-calm p.base (λ n t. Jobs.Repo.create_if_under_cap n cap (fresh_job at payload) t)
              w calm,
          below_cap (p.base.clock w.moment) cap (fresh_job at payload) w.jobs pos low,
        )
        refl

  abbrev created : DownloadJob
  created = to_entity w.jobs.next_id inserted

  -- The row of a job whose publish failed.
  abbrev released_row : Exc → Columns
  released_row e =
      written (p.base.clock (w.moment + 3))
        (mark_failed (p.base.clock (w.moment + 2)) (codes "enqueue failed: " ++ p.class_name e)
          created).columns
        inserted

  published :
      p.publish (w.moment + 1) w.jobs.next_id payload.correlation_id ≡ returned tt
      → handed_over p cap payload (some created) after_insert ≡ (
        returned created,
        record after_insert {
          moment = w.moment + 2;
          log = job_created payload.platform ∷ queued w.jobs.next_id payload.correlation_id ∷ w.log;
        },
      )
  unfolding handed_over enqueue_or_release publish_job catch ◌>>=◌ call emit insert_row
  published sent = ground (arith, sent)

  abbrev failed_job : Exc → DownloadJob
  failed_job e =
      mark_failed (p.base.clock (w.moment + 2)) (codes "enqueue failed: " ++ p.class_name e) created

  update_failed :
      (e : Exc)
      → IsCalm p.base
      → IsKeyed w.jobs.next_id w.jobs.rows
      → (db_update p.base (failed_job e) (record after_insert { moment = w.moment + 3 })).1
        ≡ record w {
          jobs = record w.jobs {
            rows = (w.jobs.next_id, released_row e) ∷ w.jobs.rows;
            next_id = w.jobs.next_id + 1;
          };
          moment = w.moment + 3 + 1;
        }
  unfolding db_update mark_failed
  update_failed e calm keyed =
      rw
        (
          on_jobs-calm p.base (λ n t. Jobs.Repo.update n (failed_job e) t)
              (record after_insert { moment = w.moment + 3 }) calm,
          update-insert_row (p.base.clock (w.moment + 3)) (failed_job e).columns inserted w.jobs
              keyed refl,
        )
        refl

  refused :
      (e : Exc)
      → IsCalm p.base
      → IsKeyed w.jobs.next_id w.jobs.rows
      → p.publish (w.moment + 1) w.jobs.next_id payload.correlation_id ≡ raised e
      → handed_over p cap payload (some created) after_insert ≡ (
        raised e,
        record w {
          jobs = record w.jobs {
            rows = (w.jobs.next_id, released_row e) ∷ w.jobs.rows;
            next_id = w.jobs.next_id + 1;
          };
          moment = w.moment + 3 + 1;
        },
      )
  unfolding handed_over enqueue_or_release publish_job release catch try_ ◌>>=◌ call now
  refused e calm keyed sent = ground (arith, sent, update_failed e calm keyed)

  taken :
      IsCalm p.base
      → 0 < cap
      → IsKeyed w.jobs.next_id w.jobs.rows
      → user_count payload.user_id w < cap
      → (answer : Outcome (Unit {0}))
      → p.publish (w.moment + 1) w.jobs.next_id payload.correlation_id ≡ answer
      → let (r, w') = enqueue_download p cap at payload w in SlotOutcome cap payload w answer r w'
  unfolding enqueue_download ◌>>=◌ count_active_for_user Jobs.Repo.get insert_row mark_failed
  taken calm pos keyed low (returned u) sent =
      rw (room calm pos low, published sent)
        (inr (low, inl (refl, refl, refl, λ user. ground arith)))
  taken calm pos keyed low (raised e) sent =
      rw (room calm pos low, refused e calm keyed sent)
        (inr (
          low,
          inr (
            e,
            refl,
            refl,
            refl,
            (to_entity w.jobs.next_id (released_row e), ground arith, refl),
            λ user. ground arith,
          ),
        ))

-- With a cap of at least one, while the database answers and no other process writes: at the cap
-- the call raises `TooManyJobsError` and changes neither the table nor what the outside sees.
-- Below it, when the queue takes the job, the call returns the new id, the job is queued under
-- that id before the metric counts it, and of all users only this one has one more active job.
-- When the queue raises, the call raises the same, nothing was queued or counted, the new row is
-- `FAILED`, and every user has as many active jobs as before.
pub enqueue_download_exact :
    (p : EnqueuePorts) (cap at : ℕ) (payload : EnqueueInput) (w : World)
    → IsCalm p.base
    → 0 < cap
    → IsKeyed w.jobs.next_id w.jobs.rows
    → let (r, w') = enqueue_download p cap at payload w in
      SlotOutcome cap payload w
        (p.publish (w.moment + 1) w.jobs.next_id payload.correlation_id)
        r
        w'
enqueue_download_exact p cap at payload w calm pos keyed =
    elim (dec_lt (count_active_for_user payload.user_id w.jobs) cap) [
      | yes low ↦ taken p cap at payload w calm pos keyed low _ refl
      | no high ↦
          rw (full p cap at payload w calm pos (omega arith)) (inl (omega arith, refl, refl, refl))
    ]
