-- ===== src/Jobs/Locking.antt =====
-- The optimistic lock of `update`: what a write stores, and what a stale one does.
use dwtgbot.Base.{
  ℕ, ◌+◌, ◌≡◌, refl, ◌≢◌, ◌⊎◌, Option, none, some, arith, ◌==◌, ==_self, if◌then◌else◌, inl, inr,
  Option-cases,
}
use dwtgbot.Errors.{Outcome, returned, raised, job_concurrent_update, lookup, ErrorClass}
use dwtgbot.Jobs.Entity.{Columns, DownloadJob}
use dwtgbot.Jobs.Rows.{Rows, get_row, update_where, get_row-update_where}
use dwtgbot.Jobs.Repo.{JobsTable, to_entity, version_matches, written, update}

-- The class that a call raised, if it raised.
abbrev pub raised_class {ℓ} : {A : Type ℓ} → Outcome A → Option ErrorClass
raised_class (returned _) = none
raised_class (raised e) = some e.cls

get_row-written :
    (now j k : ℕ) (new c : Columns) (r : Rows Columns)
    → get_row k r ≡ some c
    → new.status_version ≡ c.status_version
    → get_row j (update_where (version_matches k new.status_version) (written now new) r)
      ≡ (if j == k then some (written now new c) else get_row j r)
get_row-written now j k new c r found same = rw get_row-update_where (ground arith)

-- What the statement leaves, as one equation.
pub update_eq :
    (now k : ℕ) (job : DownloadJob) (c : Columns) (t : JobsTable)
    → job.id ≡ some k
    → get_row k t.rows ≡ some c
    → job.status_version ≡ c.status_version
    → update now job t ≡ (
      returned (to_entity k (written now job.columns c)),
      record t {
        rows = update_where (version_matches k job.status_version) (written now job.columns) t.rows;
      },
    )
unfolding update
update_eq now k job c t keyed found same = ground arith

-- An update that carries the row's current version is stored: the row keeps its owner, its link and
-- its creation time, takes the object's other fields, and has its version raised by one and the
-- time of the write. That row is what the call returns and what a later read finds, and no other
-- row changes.
pub update_stores :
    (now k : ℕ) (job : DownloadJob) (c : Columns) (t : JobsTable)
    → job.id ≡ some k
    → get_row k t.rows ≡ some c
    → job.status_version ≡ c.status_version
    → let (r, t') = update now job t in
      let stored : Columns = record c {
        status = job.status;
        media_id = job.media_id;
        title = job.title;
        selected_option_key = job.selected_option_key;
        selected_format = job.selected_format;
        file_path = job.file_path;
        file_size = job.file_size;
        mime_type = job.mime_type;
        telegram_file_id = job.telegram_file_id;
        public_url = job.public_url;
        error_message = job.error_message;
        retries_count = job.retries_count;
        status_version = c.status_version + 1;
        extra = job.extra;
        updated_at = now;
        completed_at = job.completed_at;
      } in
      (r ≡ returned (record { id = some k; columns = stored }))
      × ((j : ℕ) → get_row j t'.rows ≡ (if j == k then some stored else get_row j t.rows))
unfolding update
update_stores now k job c t keyed found same =
    rw (update_eq now k job c t keyed found same)
      (refl, λ j. get_row-written now j k job.columns c t.rows found same)

-- A stale version or a missing row is refused, and the table stays as it is.
pub update_refused :
    (now k : ℕ) (job : DownloadJob) (t : JobsTable)
    → job.id ≡ some k
    → ((c : Columns) → get_row k t.rows ≡ some c → job.status_version ≢ c.status_version)
    → let (r, t') = update now job t in
      (t' ≡ t) × ((raised_class r ≡ some lookup) ⊎ (raised_class r ≡ some job_concurrent_update))
unfolding update
update_refused now k job t keyed stale = elim (Option-cases (get_row k t.rows)) [
  | inl missing ↦ ground arith
  | inr (c, found) ↦ ground (arith, stale c found)
]

-- Two writers that read the row at one version cannot both write it: once the first update has
-- been stored, the second raises `JobConcurrentUpdateError` and leaves the table as the first left
-- it.
pub update_once :
    (now later k : ℕ) (first second : DownloadJob) (c : Columns) (t : JobsTable)
    → first.id ≡ some k
    → second.id ≡ some k
    → get_row k t.rows ≡ some c
    → first.status_version ≡ c.status_version
    → second.status_version ≡ c.status_version
    → let t' = (update now first t).1 in
      let (r, t'') = update later second t' in
      (raised_class r ≡ some job_concurrent_update) × (t'' ≡ t')
unfolding update
update_once now later k first second c t p q found same same' =
    let stored = (update_stores now k first c t p found same).1 k in
    ground (arith, stored, ==_self k)
