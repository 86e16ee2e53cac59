-- ===== src/Links.antt =====
-- Temporary download links: the entity (app/domain/entities/temp_link.py), its repository
-- (app/infrastructure/db/repositories/temp_links_repo_impl.py), the endpoint that serves them
-- (app/api/public/downloads.py) and what holds of them.
pub mod Entity
pub mod Repo
pub mod Uses
pub mod Range
pub mod Serve
pub mod Requests
pub mod Counting
