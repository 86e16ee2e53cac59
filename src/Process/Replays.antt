-- ===== src/Process/Replays.antt =====
-- A replayed task leaves the job alone.
use dwtgbot.Base.{
  ℕ, ◌≤◌, ◌≡◌, refl, ap, ◌∙◌, ◌⊎◌, inl, inr, Bool, true, false, ◌&&◌, some, ◌∷◌, arith, ltb,
  if◌then◌else◌,
}
use dwtgbot.Errors.{returned}
use dwtgbot.Exec.{pure, continue, ◌>>=◌}
use dwtgbot.Exec.Laws.{bind_returned}
use dwtgbot.Jobs.Entity.{
  JobStatus, pending, processing, done, failed, status_eq, is_terminal, DownloadJob,
}
use dwtgbot.World.Values.{replay_ignored}
use dwtgbot.World.Ports.{Ports, Settings, World}
use dwtgbot.World.Actions.{Action, emit, db_get}
use dwtgbot.Process.Store.{guard_replay, guarded, transition_to_processing}
use dwtgbot.Process.UseCase.{guarded_body, after_transition, start, run, run_found, execute}

-- A run that is to be refused: a terminal job, or a running one at the first attempt.
abbrev pub IsReplay : ℕ → JobStatus → Type 0
IsReplay attempt status = (is_terminal status ≡ true) ⊎ ((status ≡ processing) × (attempt ≤ 1))

not_taken : (b : Bool) (m n : Action (Unit {0})) → b ≡ false → (if b then m else n) ≡ n
not_taken b m n h = rw h refl

guarded_replay :
    (attempt : ℕ) (status : JobStatus) (w : World)
    → IsReplay attempt status
    → guarded status w ≡ (returned true, record w { log = replay_ignored status ∷ w.log })
unfolding ◌>>=◌ emit
guarded_replay attempt pending w (inl h) = cc
guarded_replay attempt pending w (inr h) = absurd (cc)
guarded_replay attempt processing w h = refl
guarded_replay attempt done w h = refl
guarded_replay attempt failed w h = refl

not_resumed :
    (attempt : ℕ) (status : JobStatus)
    → IsReplay attempt status
    → (ltb 1 attempt && status_eq status processing) ≡ false
not_resumed attempt pending h = ground arith
not_resumed attempt done h = ground arith
not_resumed attempt failed h = ground arith
not_resumed attempt processing (inl h) = cc
not_resumed attempt processing (inr (_, first)) = ground arith

start_replay :
    (p : Ports) (s : Settings) (job : DownloadJob) (attempt : ℕ) (w : World)
    → IsReplay attempt job.status
    → start p s attempt job w ≡ (returned tt, record w { log = replay_ignored job.status ∷ w.log })
unfolding start guard_replay ◌>>=◌
start_replay p s job attempt w replay =
    ap
      (λ m.
        continue m.0
          (λ b.
            if b
            then pure tt
            else (transition_to_processing p s job >>= after_transition p s attempt))
          m.1)
      (guarded_replay attempt job.status w replay)

-- The run of a job that is `DONE` or `FAILED`, or `PROCESSING` at the first attempt, returns after
-- the one read of its row: the only thing it emits is `replay_ignored` with that status, and both
-- tables and the ledger are as the read left them.
pub replay_does_nothing :
    (p : Ports) (s : Settings) (job : DownloadJob) (k attempt : ℕ) (w : World)
    → (db_get p k w).0 ≡ returned (some job)
    → IsReplay attempt job.status
    → let w1 = (db_get p k w).1 in
      execute p s k attempt w
      ≡ (returned tt, record w1 { log = replay_ignored job.status ∷ w1.log })
unfolding execute run_found run
replay_does_nothing p s job k attempt w read replay =
    let w1 = (db_get p k w).1 in
    bind_returned (db_get p k) (run_found p s attempt) w read
    ∙ ap (λ m. m w1)
        (not_taken _ (guarded_body p s attempt job) (start p s attempt job)
          (not_resumed attempt job.status replay))
    ∙ start_replay p s job attempt w1 replay
