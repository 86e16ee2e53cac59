-- ===== src/Cleanup/Cycle.antt =====
-- `_run_cycle` of app/workers/cleanup_worker.py. Times are in seconds.
use dwtgbot.Base.{ℕ, ◌-◌, Bool, not, ◌&&◌, List, [], ◌∷◌, Text, take, ltb, ◌==◌, if◌then◌else◌}
use dwtgbot.Errors.{Outcome, returned, raised}
use dwtgbot.Exec.{pure, try_, ◌>>=◌, ◌>>◌}
use dwtgbot.Jobs
use dwtgbot.Links.Entity.{LinkColumns}
use dwtgbot.Links.Repo.{LinksTable, deactivate_expired}
use dwtgbot.World.Values.{file_removed, orphan_dirs_removed}
use dwtgbot.World.Actions.{Action, call, emit, now, on_jobs, on_links}
use dwtgbot.Cleanup.Sweep.{CleanupPorts, job_dir_sweep_age, sweep_orphan_job_dirs}

-- The settings that a cycle takes.
pub record CleanupSettings : Type 0 where
  pub orphan_age_seconds : ℕ
  pub pending_age_seconds : ℕ
  pub temp_link_ttl_seconds : ℕ

-- `ORDER BY expires_at DESC`.
abbrev pub insert_link : LinkColumns → List LinkColumns → List LinkColumns
insert_link c [] = c ∷ []
insert_link c (d ∷ ds) = if ltb c.expires_at d.expires_at then d ∷ insert_link c ds else c ∷ d ∷ ds

-- The rows of `list_inactive_with_files`, before the limit.
unfoldable pub inactive_links : ℕ → List (ℕ × LinkColumns) → List LinkColumns
inactive_links expired_after [] = []
inactive_links expired_after ((k, c) ∷ rows) =
    let rest = inactive_links expired_after rows in
    if not c.is_active && ltb expired_after c.expires_at then insert_link c rest else rest

unfoldable pub list_inactive_with_files : ℕ → ℕ → LinksTable → List LinkColumns
unfolding inactive_links
list_inactive_with_files expired_after limit t = take limit (inactive_links expired_after t.rows)

module _ (p : CleanupPorts) (exists : ℕ → Text → Outcome Bool) (purge : ℕ → Outcome ℕ) where
  unfoldable pub remove_file : Text → Action (Unit {0})
  unfolding call emit
  remove_file path = do
    r ← try_ (call (λ n. p.remove_path n path))
    elim r [ returned _ ↦ emit (file_removed path) | raised _ ↦ pure tt ]

  -- The files of the links that a cycle looks at; one that cannot be removed is passed over.
  unfoldable pub remove_files : List LinkColumns → Action (Unit {0})
  unfolding remove_file
  remove_files [] = pure tt
  remove_files (link ∷ links) = do
    there ← call (λ n. exists n link.file_path)
    (if there then remove_file link.file_path else pure tt)
    remove_files links

  unfoldable pub book_removed : ℕ → Action (Unit {0})
  unfolding emit
  book_removed n = if n == 0 then pure tt else emit (orphan_dirs_removed n)

  unfoldable pub run_cycle : CleanupSettings → Action (Unit {0})
  unfolding list_inactive_with_files remove_files sweep_orphan_job_dirs book_removed
  run_cycle s = do
    let age = job_dir_sweep_age s.temp_link_ttl_seconds
    at ← now p.base
    _ ← on_links p.base (λ n t. (returned (deactivate_expired n t).0, (deactivate_expired n t).1))
    inactive ← on_links p.base (λ n t. (returned (list_inactive_with_files (at - age) 500 t), t))
    remove_files inactive
    _ ← call purge
    _ ← on_jobs p.base (λ n t. Jobs.Repo.reap_orphan_processing n s.orphan_age_seconds t)
    _ ← on_jobs p.base (λ n t. Jobs.Repo.reap_orphan_pending n s.pending_age_seconds t)
    n ← sweep_orphan_job_dirs p age
    book_removed n
