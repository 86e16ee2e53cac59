-- ===== src/Process/Redelivery.antt =====
-- The later attempts of a job whose delivery the ledger holds.
use dwtgbot.Base.{
  ℕ, ◌<◌, ◌≡◌, refl, ◌∙◌, ap, Bool, true, false, ◌&&◌, Option, none, some, arith, ltb, count, ◌+◌,
  Option-cases, inl, inr, if◌then◌else◌,
}
use dwtgbot.Errors.{Outcome, returned, raised}
use dwtgbot.Exec.{pure, catch, continue, ◌>>=◌}
use dwtgbot.Exec.Laws.{bind_returned}
use dwtgbot.Exec.Keeps.{Keeps}
use dwtgbot.Jobs.Entity.{processing, status_eq, DownloadJob}
use dwtgbot.Jobs.Rows.{get_row}
use dwtgbot.World.Values.{DeliveredRecord}
use dwtgbot.World.Ports.{Ports, Settings, World}
use dwtgbot.World.Actions.{Action, db_get}
use dwtgbot.Process.Store.{complete}
use dwtgbot.Process.Phases.{live_entry, ledger_get}
use dwtgbot.Process.UseCase.{
  finish_with, finish_if_delivered, attempt_body, download_and_deliver, guarded_body, start, run,
  run_found, execute,
}
use dwtgbot.Process.Silent.{is_upload, SentIs, db_get-silent, complete-silent, handled-silent}

taken : (b : Bool) (m n : Action (Unit {0})) → b ≡ true → (if b then m else n) ≡ m
taken b m n h = rw h refl

chosen :
    (b : Bool) (o : Option ℕ) (k : ℕ) (f : ℕ → Action Bool)
    → b ≡ true
    → o ≡ some k
    → (if b then elim o [ none ↦ pure false | some i ↦ f i ] else pure false) ≡ f k
chosen b o k f has keyed = rw (has, keyed) refl

module _ (p : Ports) (s : Settings) (job : DownloadJob) where
  ledger_get-silent : (n k : ℕ) → Keeps (SentIs n) (ledger_get p s k)
  unfolding ledger_get
  ledger_get-silent n k = record { at = λ w h. h }

  -- With a ledger entry the finish is `complete`.
  finish_eq :
      (k : ℕ) (d : DeliveredRecord) (w : World)
      → job.id ≡ some k
      → s.has_ledger ≡ true
      → (ledger_get p s k w).0 ≡ returned (some d)
      → finish_if_delivered p s job w
        ≡ (complete p s job d >>= (λ _. pure true)) (ledger_get p s k w).1
  unfolding finish_if_delivered finish_with
  finish_eq k d w keyed has found =
      ap (λ m. m w)
        (chosen s.has_ledger job.id k (λ i. ledger_get p s i >>= finish_with p s job) has keyed)
      ∙ bind_returned (ledger_get p s k) (finish_with p s job) w found

  -- What `complete` left is what the body leaves, whatever that ended with.
  finished_world :
      (r : Outcome (Unit {0})) (v : World)
      → let end = continue r (λ _. pure true) v in
        (continue end.0
          (λ finished. if finished then pure tt else download_and_deliver p s job)
          end.1).1
        ≡ v
  finished_world (returned _) v = refl
  finished_world (raised e) v = refl

  body_world :
      (attempt k : ℕ) (d : DeliveredRecord) (w : World)
      → 1 < attempt
      → job.id ≡ some k
      → s.has_ledger ≡ true
      → (ledger_get p s k w).0 ≡ returned (some d)
      → (attempt_body p s attempt job w).1 ≡ (complete p s job d (ledger_get p s k w).1).1
  unfolding attempt_body ◌>>=◌
  body_world attempt k d w later keyed has found =
      let late : ltb 1 attempt ≡ true = ground arith in
      let (r, v) = complete p s job d (ledger_get p s k w).1 in
      rw (late, finish_eq k d w keyed has found) (finished_world r v)

-- The reads at the start: of the row, and of the ledger where Redis answers with a live entry.
read_ledger :
    (p : Ports) (s : Settings) (k expires : ℕ) (d : DeliveredRecord) (w : World)
    → p.redis_up (w.moment + 1) ≡ true
    → get_row k w.ledger ≡ some (d, expires)
    → p.clock (w.moment + 1) < expires
    → (ledger_get p s k (db_get p k w).1).0 ≡ returned (some d)
unfolding db_get ledger_get
read_ledger p s k expires d w up found live = elim (Option-cases (p.db_failure w.moment)) [
  | inl ok ↦ rw (ok, up, found, live_entry) (ground (arith, live))
  | inr (m, down) ↦ rw (down, up, found, live_entry) (ground (arith, live))
]

-- A later attempt whose read of the row answers a `PROCESSING` job, and whose read of the ledger
-- Redis answers, with an entry of the job that has not expired, uploads no media and tries no
-- upload, whatever the database, Redis and the other processes do after the two reads. Nothing is
-- said of a read that Redis does not answer: the code then delivers again.
pub redelivered_sends_nothing :
    (p : Ports) (s : Settings) (job : DownloadJob) (k attempt expires : ℕ) (d : DeliveredRecord)
    (w : World)
    → 1 < attempt
    → s.has_ledger ≡ true
    → job.id ≡ some k
    → job.status ≡ processing
    → (db_get p k w).0 ≡ returned (some job)
    → p.redis_up (w.moment + 1) ≡ true
    → get_row k w.ledger ≡ some (d, expires)
    → p.clock (w.moment + 1) < expires
    → count is_upload (execute p s k attempt w).1.log ≡ count is_upload w.log
unfolding execute run_found run guarded_body catch
redelivered_sends_nothing p s job k attempt expires d w later has keyed running read up entry live =
    let found = read_ledger p s k expires d w up entry live in
    let n = count is_upload w.log in
    let w1 = (db_get p k w).1 in
    let late : ltb 1 attempt ≡ true = ground arith in
    let body = body_world p s job attempt k d w1 later keyed has found in
    let before = (ledger_get-silent p s job n k).at w1 ((db_get-silent n p k).at w refl) in
    let after = (complete-silent n p s job d).at (ledger_get p s k w1).1 before in
    let again : (ltb 1 attempt && status_eq job.status processing) ≡ true = ground arith in
    let runs : execute p s k attempt w ≡ guarded_body p s attempt job w1 =
      bind_returned (db_get p k) (run_found p s attempt) w read
      ∙ ap (λ m. m w1) (taken _ (guarded_body p s attempt job) (start p s attempt job) again) in
    ap (λ end. count is_upload end.1.log) runs
    ∙ handled-silent n p s job (attempt_body p s attempt job w1).0
        (attempt_body p s attempt job w1).1 (rw body after)
