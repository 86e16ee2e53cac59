-- ===== src/Enqueue/Release.antt =====
-- app/application/services/job_enqueue.py.
use dwtgbot.Base.{ℕ, none, some, Text, codes, ◌++◌}
use dwtgbot.Errors.{Exc, exc, value, Outcome}
use dwtgbot.Exec.{raise, catch, try_, ◌>>=◌, ◌>>◌}
use dwtgbot.Jobs.Entity.{Platform, DownloadJob, mark_failed}
use dwtgbot.World.Values.{DownloadOption, MediaInfo, queued}
use dwtgbot.World.Ports.{Ports}
use dwtgbot.World.Actions.{Action, call, emit, now, db_update}

-- The collaborators of the use cases beside those of the worker: the queue, the platform's provider
-- with its default option, the progress reporter, the store of post texts, and the name of an
-- exception's class.
pub record EnqueuePorts : Type 0 where
  pub base : Ports
  pub publish : ℕ → ℕ → Text → Outcome (Unit {0})
  pub default_option : Platform → MediaInfo → Outcome DownloadOption
  pub start_progress : ℕ → ℕ → Outcome (Unit {0})
  pub put_post_text : ℕ → ℕ → Text → Outcome (Unit {0})
  pub class_name : Exc → Text

module _ (p : EnqueuePorts) where
  -- `QueueProducer.enqueue_download`.
  unfoldable pub publish_job : ℕ → Text → Action (Unit {0})
  unfolding call emit
  publish_job k correlation_id =
      call (λ n. p.publish n k correlation_id) >> emit (queued k correlation_id)

  -- The `except` branch: what the write of the failed row raises is swallowed.
  unfoldable pub release : DownloadJob → Exc → Action (Unit {0})
  unfolding now
  release job e = do
    at ← now p.base
    _ ← try_ (db_update p.base (mark_failed at (codes "enqueue failed: " ++ p.class_name e) job))
    raise e

  unfoldable pub enqueue_or_release : DownloadJob → Text → Action (Unit {0})
  unfolding publish_job release
  enqueue_or_release job correlation_id = elim (job.id) [
    | none ↦ raise (exc value (codes "enqueue_or_release needs a persisted job"))
    | some k ↦ catch (publish_job k correlation_id) (release job)
  ]
