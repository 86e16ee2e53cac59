-- ===== src/Lib.antt =====
-- The download bot: a user sends a link, a job row is created, a worker analyses and downloads the
-- media, sends it to the chat or issues a temporary link, and an API endpoint serves those links.
--
-- Parts and files:
--   Base      shared names: Boolean tests on numbers, list searches, Python strings as lists of code
--             points.
--   Strings   strip, partition, split and int of Python's texts.
--   Redis     Redis as a record of commands with the laws of its documentation, in milliseconds.
--   Errors    app/exceptions.py (classes with their MRO, retry flag, message) and
--             app/domain/reason_class.py (`classify_exception`).
--   Exec      fallible code on a state, with try/except and the rules that carry an invariant.
--   Jobs      app/domain/entities/download_job.py, app/domain/enums.py and
--             app/infrastructure/db/repositories/jobs_repo_impl.py. A table is a list of keyed
--             rows; each repository method is one function of the clock and the table.
--   Links     app/domain/entities/temp_link.py, temp_links_repo_impl.py beside the jobs repository,
--             and app/api/public/downloads.py: Range is `starts_new_download`, Serve the handler.
--   Limits    app/domain/rate_limit.py, app/application/services/rate_limit.py,
--             app/infrastructure/cache/redis_rate_limit_gate.py and redis_notice_throttle.py, and
--             `parse_rl_window` of app/config.py.
--   Breaker   app/infrastructure/cache/redis_circuit_breaker.py: Calls is the class, Machine the
--             abstract breaker of one host.
--   World     the ports of app/application/ports and services, the worker's settings, and the state:
--             both tables, the delivery ledger, a log of what the outside saw, newest first.
--   Delivery  app/application/services/delivery_service.py and temp_link_service.py.
--   Process   app/application/use_cases/process_download.py: Store writes the row, Phases analyses,
--             downloads and delivers, UseCase is `_run` and `execute`; Task is
--             app/infrastructure/queue/tasks.py with the queue's tries around it.
--   Callbacks app/bot/callbacks/codec.py.
--   Enqueue   app/application/services/job_enqueue.py (Release), and enqueue_download.py (UseCase)
--             and auto_enqueue_download.py (Instant) of app/application/use_cases.
--   Cleanup   app/workers/cleanup_worker.py: Cycle is `_run_cycle`, Sweep its last step.
--   Downloader app/infrastructure/downloader/ytdlp_results.py (Results) and `_guarded` of
--             ytdlp_runner.py (Guard).
--   Utils     app/domain/text_utils.py (Texts) and app/utils/url.py (Urls, Routing).
--   Providers app/infrastructure/providers/youtube.py: Youtube has the options and the selectors,
--             Formats the size of a bucket (Audio and Best say what it is). instagram.py: Instagram has the options, Cookies the
--             use of the session's cookies.
--   Progress  the live progress of a download. Channel is
--             app/application/ports/progress_channel.py, Reporter
--             app/infrastructure/cache/redis_progress_reporter.py in the worker; of the bot, Caption
--             is app/bot/services/progress_caption.py, Updater the registry and the calls of
--             progress_updater.py beside it, and Events its handlers. Feed is
--             app/infrastructure/cache/redis_progress_feed.py.
--   Bot       app/bot/handlers/links.py (Link), its keyboard app/bot/keyboards/download_options.py
--             (Keyboard), and app/application/use_cases/analyze_link.py (Analysis); State has the log
--             of what goes out, newest first.
--   Sender    app/infrastructure/telegram/sender.py: Errors translates the library's exceptions,
--             Probe reads ffprobe's answer, Calls has the methods.
--   Checks    concrete runs.
--
-- How it interacts: `execute` reads the row (Jobs.Repo.get), takes it to PROCESSING by an update
-- under the version, runs Phases (which call Delivery, which may issue a link in Links), and writes
-- DONE or FAILED. The row comes from Enqueue, which takes one of the user's slots and hands the id to
-- the queue; what the user sent went through Utils and Limits before, in the order of Bot. The worker
-- tells its progress to the bot through the hashes of Progress. Every call of a port takes one
-- moment from a counter, and a port answers by that moment, so a repeated call may answer
-- differently. Before each access to the jobs table the port `others` may rewrite it, which stands
-- for the API, the reaper and other workers. Limits and Breaker run on a store of Redis instead, with
-- the times of the commands as arguments, and without other clients between them.
--
-- Numbers and bounds: ids, sizes and times are natural numbers, times on one clock. Waits of the
-- upload loop are in thousandths of a second. The upload loop runs on its number of attempts, the
-- queue's loop on `max_tries`; both are the source's own bounds, and the results below say that they
-- are enough. The providers' durations and sizes are whole numbers,
-- percents whole tenths. `format_size` rounds as the source does below 2^53. `int` refuses more than
-- 4300 digits, as the interpreter does. The updater of Progress and the handler of Bot keep a moment
-- of their own; a handler of theirs runs without another one in between.
--
-- Not modelled: the network side of the providers, storage, Telegram, Redis, `urllib` and the
-- database driver are parameters, whose failures are values of their answers. A failed database call
-- is rolled back as a whole. The lengths of the text columns (app/infrastructure/db/models.py) are
-- not checked: a text that is too long for its column is stored, unless a failure of the driver at
-- that moment stands for the refusal. Logging, durations, the byte-progress hook, the loops around the
-- updater's handlers and the cancellation of coroutines by the event loop are left out.
-- The JSON of the ledger and of the media cache is taken as read back as it was written.
pub mod Base
pub mod Bot
pub mod Strings
pub mod Redis
pub mod Limits
pub mod Breaker
pub mod Errors
pub mod Jobs
pub mod Exec
pub mod Links
pub mod World
pub mod Delivery
pub mod Process
pub mod Callbacks
pub mod Enqueue
pub mod Cleanup
pub mod Downloader
pub mod Utils
pub mod Providers
pub mod Sender
pub mod Progress
pub mod Checks
