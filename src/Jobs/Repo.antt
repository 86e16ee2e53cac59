-- ===== src/Jobs/Repo.antt =====
-- app/infrastructure/db/repositories/jobs_repo_impl.py: every operation is one transaction on the
-- `download_jobs` table, at the database time `now`.
use dwtgbot.Base.{
  ℕ, zero, suc, ◌+◌, ◌-◌, Bool, ◌&&◌, Option, none, some, ◌∷◌, ◌++◌, Text, codes, decimal, ◌==◌,
  ltb, leb, if◌then◌else◌, count,
}
use dwtgbot.Errors.{exc, value, lookup, job_concurrent_update, other, Outcome, returned, raised}
use dwtgbot.Jobs.Entity.{
  JobStatus, pending, processing, failed, is_active, status_eq, Columns, DownloadJob,
}
use dwtgbot.Jobs.Rows.{Rows, get_row, update_where}

-- The table and its `BIGSERIAL` sequence.
pub record JobsTable : Type 0 where
  pub rows : Rows Columns
  pub next_id : ℕ

abbrev pub to_entity : ℕ → Columns → DownloadJob
to_entity k c = record { id = some k; columns = c }

-- The row that `session.add` writes: the listed columns, the server's times, and no `completed_at`.
abbrev pub new_row : ℕ → ℕ → Columns → Columns
new_row now version c = record c {
  status_version = version;
  created_at = now;
  updated_at = now;
  completed_at = none;
}

unfoldable pub insert_row : Columns → JobsTable → DownloadJob × JobsTable
insert_row c t =
    (to_entity t.next_id c, record t { rows = (t.next_id, c) ∷ t.rows; next_id = t.next_id + 1 })

-- `create` leaves `status_version` to the column's default.
unfoldable pub create : ℕ → DownloadJob → JobsTable → DownloadJob × JobsTable
unfolding insert_row
create now job t = insert_row (new_row now 0 job.columns) t

unfoldable pub get : ℕ → JobsTable → Option DownloadJob
get k t = elim (get_row k t.rows) [ none ↦ none | some c ↦ some (to_entity k c) ]

-- `WHERE id = :id AND status_version = :version`.
abbrev pub version_matches : ℕ → ℕ → ℕ × Columns → Bool
version_matches k v (j, c) = k == j && v == c.status_version

-- The `SET` clause of `update`; the other columns keep the row's values.
abbrev pub written : ℕ → Columns → Columns → Columns
written now new old = record old {
  status = new.status;
  media_id = new.media_id;
  title = new.title;
  selected_option_key = new.selected_option_key;
  selected_format = new.selected_format;
  file_path = new.file_path;
  file_size = new.file_size;
  mime_type = new.mime_type;
  telegram_file_id = new.telegram_file_id;
  public_url = new.public_url;
  error_message = new.error_message;
  retries_count = new.retries_count;
  status_version = old.status_version + 1;
  extra = new.extra;
  updated_at = now;
  completed_at = new.completed_at;
}

abbrev conflict_message : ℕ → Columns → Columns → Text
conflict_message k new old =
    codes "Job "
    ++ (decimal k
        ++ (codes " was updated concurrently (expected status_version="
            ++ (decimal new.status_version
                ++ (codes ", got " ++ (decimal old.status_version ++ codes ")")))))

-- The statement, then the second look that tells a missing row from a stale version.
unfoldable update_row :
    ℕ → ℕ → Columns → JobsTable → Option Columns → Outcome DownloadJob × JobsTable
update_row now k new t none =
    (raised (exc lookup (codes "Job " ++ (decimal k ++ codes " not found"))), t)
update_row now k new t (some old) =
    if new.status_version == old.status_version
    then (
      returned (to_entity k (written now new old)),
      record t {
        rows = update_where (version_matches k new.status_version) (written now new) t.rows;
      },
    )
    else (raised (exc job_concurrent_update (conflict_message k new old)), t)

unfoldable update_id : ℕ → Columns → JobsTable → Option ℕ → Outcome DownloadJob × JobsTable
unfolding update_row
update_id now new t none = (raised (exc value (codes "Cannot update job without id")), t)
update_id now new t (some k) = update_row now k new t (get_row k t.rows)

unfoldable pub update : ℕ → DownloadJob → JobsTable → Outcome DownloadJob × JobsTable
unfolding update_id
update now job t = update_id now job.columns t job.id

-- `scalar_one` raises where no row matched.
unfoldable pub incremented : ℕ → ℕ → JobsTable → Option Columns → Outcome ℕ × JobsTable
incremented now k t none = (raised (exc other (codes "No row was found when one was required")), t)
incremented now k t (some c) = (
  returned (c.retries_count + 1),
  record t {
    rows =
        update_where (λ x. k == x.0)
          (λ c. record c { retries_count = c.retries_count + 1; updated_at = now }) t.rows;
  },
)

-- `updated_at` moves too: the column has `onupdate=func.now()`.
unfoldable pub increment_retries : ℕ → ℕ → JobsTable → Outcome ℕ × JobsTable
unfolding incremented
increment_retries now k t = incremented now k t (get_row k t.rows)

-- The filter of both count statements.
abbrev pub is_active_of : ℕ → ℕ × Columns → Bool
is_active_of user (_, c) = user == c.user_id && is_active c.status

unfoldable pub count_active_for_user : ℕ → JobsTable → ℕ
count_active_for_user user t = count (is_active_of user) t.rows

-- The advisory lock makes the count and the insert one step for each user.
unfoldable pub create_if_under_cap :
    ℕ → ℕ → DownloadJob → JobsTable → Outcome (Option DownloadJob) × JobsTable
unfolding insert_row count_active_for_user
create_if_under_cap now zero job t = (raised (exc value (codes "cap must be >= 1")), t)
create_if_under_cap now (suc cap) job t =
    if leb (suc cap) (count_active_for_user job.user_id t)
    then (returned none, t)
    else let (created, t') = insert_row (new_row now job.status_version job.columns) t in
      (returned (some created), t')

-- `WHERE status = :status AND updated_at < :threshold`.
abbrev pub is_orphan : JobStatus → ℕ → ℕ × Columns → Bool
is_orphan status threshold (_, c) = status_eq c.status status && ltb c.updated_at threshold

-- The `SET` clause of `_reap`, with the `onupdate` of `updated_at`; `status_version` stays.
abbrev pub reaped : ℕ → Text → Columns → Columns
reaped now message c = record c {
  status = failed;
  error_message = some message;
  updated_at = now;
  completed_at = some now;
}

unfoldable pub reap : ℕ → JobStatus → ℕ → Text → JobsTable → Outcome ℕ × JobsTable
reap now status zero message t = (raised (exc value (codes "older_than_seconds must be >= 1")), t)
reap now status (suc age) message t = (
  returned (count (is_orphan status (now - suc age)) t.rows),
  record t { rows = update_where (is_orphan status (now - suc age)) (reaped now message) t.rows },
)

unfoldable pub reap_orphan_processing : ℕ → ℕ → JobsTable → Outcome ℕ × JobsTable
unfolding reap
reap_orphan_processing now age =
    reap now processing age (codes "orphan reaped: worker did not heartbeat within the SLA window")

unfoldable pub reap_orphan_pending : ℕ → ℕ → JobsTable → Outcome ℕ × JobsTable
unfolding reap
reap_orphan_pending now age = reap now pending age (codes "orphan reaped: job never left the queue")
