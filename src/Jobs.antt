-- ===== src/Jobs.antt =====
-- Download jobs: the entity (app/domain/entities/download_job.py), its repository
-- (app/infrastructure/db/repositories/jobs_repo_impl.py) and what holds of them.
pub mod Entity
pub mod Rows
pub mod Repo
pub mod Locking
pub mod Cap
pub mod Reaping
pub mod Inserted
