-- ===== src/World/Actions.antt =====
-- The elementary actions: each call of a port takes one moment.
use dwtgbot.Base.{ℕ, ◌+◌, Option, none, some, ◌∷◌, Text}
use dwtgbot.Errors.{exc, other, Outcome, returned, raised}
use dwtgbot.Exec.{Exec}
use dwtgbot.Jobs.Repo.{JobsTable}
use dwtgbot.Jobs.Entity.{DownloadJob}
use dwtgbot.Jobs
use dwtgbot.Links.Repo.{LinksTable}
use dwtgbot.World.Values.{Event}
use dwtgbot.World.Ports.{Ports, World}

abbrev pub Action : Type 0 → Type 0
Action A = Exec World A

-- The number of this call.
unfoldable pub moment : Action ℕ
moment w = (returned w.moment, record w { moment = w.moment + 1 })

unfoldable pub emit : Event → Action (Unit {0})
emit e w = (returned tt, record w { log = e ∷ w.log })

-- A call of a port that raises or answers.
unfoldable pub call : {A : Type 0} → (ℕ → Outcome A) → Action A
call f w = (f w.moment, record w { moment = w.moment + 1 })

module _ (p : Ports) where
  -- `datetime.now(UTC)`.
  unfoldable pub now : Action ℕ
  now w = (returned (p.clock w.moment), record w { moment = w.moment + 1 })

  unfoldable pub reached :
      {A : Type 0}
      → Option Text
      → (ℕ → JobsTable → Outcome A × JobsTable)
      → World
      → Outcome A × World
  reached (some m) op w = (raised (exc other m), record w { moment = w.moment + 1 })
  reached none op w =
      let t = p.others w.moment w.jobs in
      let done = op (p.clock w.moment) t in
      (done.0, record w { jobs = done.1; moment = w.moment + 1 })

  -- One transaction on the jobs table, after the writes of others; a driver failure rolls it back.
  unfoldable pub on_jobs : {A : Type 0} → (ℕ → JobsTable → Outcome A × JobsTable) → Action A
  unfolding reached
  on_jobs op w = reached (p.db_failure w.moment) op w

  -- `JobsRepository.get` and `JobsRepository.update`.
  unfoldable pub db_get : ℕ → Action (Option DownloadJob)
  unfolding on_jobs
  db_get k = on_jobs (λ _ t. (returned (Jobs.Repo.get k t), t))

  unfoldable pub db_update : DownloadJob → Action DownloadJob
  unfolding on_jobs
  db_update job = on_jobs (λ at t. Jobs.Repo.update at job t)

  -- `JobsRepository.create_if_under_cap`.
  unfoldable pub db_create_if_under_cap : ℕ → DownloadJob → Action (Option DownloadJob)
  unfolding on_jobs
  db_create_if_under_cap cap job = on_jobs (λ at t. Jobs.Repo.create_if_under_cap at cap job t)

  unfoldable pub linked :
      {A : Type 0}
      → Option Text
      → (ℕ → LinksTable → Outcome A × LinksTable)
      → World
      → Outcome A × World
  linked (some m) op w = (raised (exc other m), record w { moment = w.moment + 1 })
  linked none op w =
      let done = op (p.clock w.moment) w.links in
      (done.0, record w { links = done.1; moment = w.moment + 1 })

  -- One transaction on the links table.
  unfoldable pub on_links : {A : Type 0} → (ℕ → LinksTable → Outcome A × LinksTable) → Action A
  unfolding linked
  on_links op w = linked (p.db_failure w.moment) op w
