-- ===== src/World/Calm.antt =====
-- Runs in which the database answers and no other process writes.
use dwtgbot.Base.{ℕ, ◌+◌, ◌≡◌, refl, none}
use dwtgbot.Errors.{Outcome, returned}
use dwtgbot.Jobs.Repo.{JobsTable}
use dwtgbot.Jobs
use dwtgbot.World.Ports.{Ports, World}
use dwtgbot.World.Actions.{reached, on_jobs, db_get}

-- The database answers, and no other process writes meanwhile.
pub record IsCalm (p : Ports) : Type 0 where
  pub answers : (n : ℕ) → p.db_failure n ≡ none
  pub alone : (n : ℕ) (t : JobsTable) → p.others n t ≡ t

pub on_jobs-calm :
    {A : Type 0} (p : Ports) (op : ℕ → JobsTable → Outcome A × JobsTable) (w : World)
    → IsCalm p
    → on_jobs p op w ≡ (
      (op (p.clock w.moment) w.jobs).0,
      record w { jobs = (op (p.clock w.moment) w.jobs).1; moment = w.moment + 1 },
    )
unfolding on_jobs reached
on_jobs-calm p op w calm = rw (calm.answers w.moment, calm.alone w.moment w.jobs) refl

pub db_get-calm :
    (p : Ports) (k : ℕ) (w : World)
    → IsCalm p
    → db_get p k w ≡ (returned (Jobs.Repo.get k w.jobs), record w { moment = w.moment + 1 })
unfolding db_get
db_get-calm p k w calm = on_jobs-calm p (λ n t. (returned (Jobs.Repo.get k t), t)) w calm
