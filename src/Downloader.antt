-- ===== src/Downloader.antt =====
-- app/infrastructure/downloader: the errors of yt-dlp and the breaker around its calls.
pub mod Results
pub mod Guard
