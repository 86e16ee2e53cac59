-- ===== src/Checks/Jobs.antt =====
-- The jobs table on concrete rows.
use dwtgbot.Base.{
  ℕ, ◌+◌, ◌&&◌, ltb, Bool, ◌-◌, ◌≡◌, refl, none, some, codes, ◌==◌, if◌then◌else◌, count, arith,
}
use dwtgbot.Errors.{returned, job_concurrent_update, download_timeout, mro}
use dwtgbot.Errors.Reason.{classify_exception, classify-nearest, nearest_reason}
use dwtgbot.Jobs.Entity.{pending, processing, failed, status_eq, Columns, DownloadJob}
use dwtgbot.Jobs.Rows.{get_row}
use dwtgbot.Jobs.Repo.{
  to_entity, written, update, count_active_for_user, create_if_under_cap, reaped, reap,
}
use dwtgbot.Jobs.Locking.{raised_class, update_stores, update_once}
use dwtgbot.Jobs.Cap.{IsCapped, CapOutcome, create_if_under_cap-IsCapped, create_if_under_cap_exact}
use dwtgbot.Jobs.Reaping.{reap_exact, reap_unseen_by_lock}
use dwtgbot.Checks.Data.{row, job_of, two_jobs}

abbrev mine : DownloadJob
mine = job_of 1 (row 7 processing 60)

abbrev stale : DownloadJob
stale = job_of 5 (row 7 processing 60)

two_jobs-IsCapped : IsCapped 1 two_jobs
unfolding count_active_for_user
two_jobs-IsCapped user = ground arith

create_if_under_cap-IsCapped_example :
    IsCapped 1 (create_if_under_cap 70 1 (job_of 0 (row 9 pending 0)) two_jobs).1
create_if_under_cap-IsCapped_example =
    create_if_under_cap-IsCapped 70 1 (job_of 0 (row 9 pending 0)) two_jobs two_jobs-IsCapped

create_if_under_cap_exact_example :
    let job = job_of 0 (row 7 pending 0) in
    let (r, t') = create_if_under_cap 70 2 job two_jobs in CapOutcome 2 job two_jobs r t'
create_if_under_cap_exact_example =
    create_if_under_cap_exact 70 2 (job_of 0 (row 7 pending 0)) two_jobs (omega arith) refl
      (omega arith, (omega arith, tt))

update_stores_example :
    let (r, t') = update 70 mine two_jobs in
    let c = row 7 pending 50 in
    let stored : Columns = record c {
      status = mine.status;
      media_id = mine.media_id;
      title = mine.title;
      selected_option_key = mine.selected_option_key;
      selected_format = mine.selected_format;
      file_path = mine.file_path;
      file_size = mine.file_size;
      mime_type = mine.mime_type;
      telegram_file_id = mine.telegram_file_id;
      public_url = mine.public_url;
      error_message = mine.error_message;
      retries_count = mine.retries_count;
      status_version = c.status_version + 1;
      extra = mine.extra;
      updated_at = 70;
      completed_at = mine.completed_at;
    } in
    (r ≡ returned (record { id = some 1; columns = stored }))
    × ((j : ℕ) → get_row j t'.rows ≡ (if j == 1 then some stored else get_row j two_jobs.rows))
update_stores_example = update_stores 70 1 mine (row 7 pending 50) two_jobs refl refl refl

update_once_example :
    let t' = (update 70 mine two_jobs).1 in
    let (r, t'') = update 71 (job_of 1 (row 7 failed 61)) t' in
    (raised_class r ≡ some job_concurrent_update) × (t'' ≡ t')
update_once_example =
    update_once 70 71 1 mine (job_of 1 (row 7 failed 61)) (row 7 pending 50) two_jobs refl refl refl
      refl refl

reap_exact_example :
    let (r, t') = reap 100 processing 60 (codes "orphan") two_jobs in
    let old : ℕ × Columns → Bool =
      λ x. status_eq x.1.status processing && ltb x.1.updated_at (100 - 60) in
    let dead : Columns → Columns = λ c. record c {
      status = failed;
      error_message = some (codes "orphan");
      updated_at = 100;
      completed_at = some 100;
    } in
    (r ≡ returned (count old two_jobs.rows))
    × (count old t'.rows ≡ 0)
    × ((k : ℕ)
        → get_row k t'.rows ≡ elim (get_row k two_jobs.rows) [
          | none ↦ none
          | some c ↦ some (if old (k, c) then dead c else c)
        ])
reap_exact_example = reap_exact 100 60 processing (codes "orphan") two_jobs (omega arith)

reap_unseen_by_lock_example :
    let lost = row 8 processing 20 in
    let job = job_of 2 (row 8 processing 20) in
    let t' = (reap 100 processing 60 (codes "orphan") two_jobs).1 in
    let (r, t'') = update 101 job t' in
    (get_row 2 t'.rows ≡ some (reaped 100 (codes "orphan") lost))
    × (r ≡ returned (to_entity 2 (written 101 job.columns (reaped 100 (codes "orphan") lost))))
    × (get_row 2 t''.rows ≡ some (written 101 job.columns (reaped 100 (codes "orphan") lost)))
reap_unseen_by_lock_example =
    reap_unseen_by_lock 100 101 60 2 processing (codes "orphan") (job_of 2 (row 8 processing 20))
      (row 8 processing 20) two_jobs (omega arith) refl refl refl refl

classify-nearest_example :
    classify_exception download_timeout ≡ nearest_reason (mro download_timeout)
classify-nearest_example = classify-nearest download_timeout
