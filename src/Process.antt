-- ===== src/Process.antt =====
-- app/application/use_cases/process_download.py and app/infrastructure/queue/tasks.py.
pub mod Store
pub mod Phases
pub mod UseCase
pub mod Task
pub mod Frame
pub mod Writes
pub mod Ends
pub mod Bodies
pub mod Settles
pub mod Ending
pub mod Silent
pub mod Replays
pub mod Redelivery
