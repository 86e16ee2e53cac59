-- ===== src/Progress/Tombstones.antt =====
-- The tombstones of app/bot/services/progress_updater.py: a finished placeholder does not come back.
use mathlib.Core.List.{Memᴰ}
use dwtgbot.Base.{
  ℕ, ◌+◌, ◌<◌, ◌≤◌, ◌≡◌, refl, sym, ◌∙◌, Bool, true, false, none, some, List, [], ◌∷◌, arith,
  lt→ltb, ◌==◌, ==_iff, Bool-cases, inl, inr, if-keeps,
}
use dwtgbot.Jobs.Rows.{Rows, get_row}
use dwtgbot.World.Values.{ProgressStage, failed, is_terminal_stage}
use dwtgbot.Progress.Channel.{Hash}
use dwtgbot.Progress.Reporter.{stage_eq}
use dwtgbot.Progress.Updater.{
  UpdaterSettings, ActiveJob, Updater, UpdaterPorts, delete_message, dict_set, later, now, forget,
  terminate, finalize, tombstone_ttl_ms,
}
use dwtgbot.Progress.Events.{
  expiry_or_zero, unexpired, touched, frame_of, handle_event, watchdog_tick, Turn, event, watch,
  turn, turns,
}
use dwtgbot.Progress.Stable.{IsStable}
use dwtgbot.Progress.Handlers.{
  IsLive, get_row-IsLive, AllStable, check_jobs-keeps, handle_event-keeps,
}
use dwtgbot.Progress.Registry.{turn-IsLive, handle_event-IsLive}
use dwtgbot.Progress.Watchdog.{get_row-without-none, get_row-without_self, get_row-modify-none}
use dwtgbot.Progress.Terminal.{before_end, event_reaches, terminal_finalizes}

get_row-dict_set :
    {A : Type 0} (j k : ℕ) (a : A) (r : Rows A)
    → (k == j) ≡ false
    → get_row k (dict_set j a r) ≡ get_row k r
get_row-dict_set j k a [] h = rw h refl
get_row-dict_set j k a ((i, b) ∷ r) h = ground (arith, get_row-dict_set j k a r h)

get_row-dict_set_self :
    {A : Type 0} (k : ℕ) (a : A) (r : Rows A) → get_row k (dict_set k a r) ≡ some a
get_row-dict_set_self k a [] = ground arith
get_row-dict_set_self k a ((i, b) ∷ r) = ground (arith, get_row-dict_set_self k a r)

get_row-unexpired :
    (at k e : ℕ) (r : Rows ℕ) → get_row k r ≡ some e → at < e → get_row k (unexpired at r) ≡ some e
get_row-unexpired at k e [] h l = h
get_row-unexpired at k e ((i, x) ∷ r) h l = ground (arith, get_row-unexpired at k e r)

-- The job is not registered, and its tombstone lasts until `e`.
abbrev pub IsBuried : ℕ → ℕ → Updater → Type 0
IsBuried k e u = (get_row k u.active ≡ none) × (get_row k u.tombstones ≡ some e)

module _ (p : UpdaterPorts) (k e : ℕ) where
  forget-IsBuried :
      (j : ℕ) (b : Bool) (u : Updater)
      → (k == j) ≡ false
      → IsBuried k e u
      → IsBuried k e (forget p j b u)
  forget-IsBuried j b u other h = (
    get_row-without-none j k u.active h.0,
    if-keeps (λ (r : Rows ℕ). get_row k r ≡ some e) b _ u.tombstones
        (get_row-dict_set j k (now p u + tombstone_ttl_ms) u.tombstones other ∙ h.1) h.1,
  )

  IsBuried-IsStable : (job : ActiveJob) → (k == job.job_id) ≡ false → IsStable p (IsBuried k e) job
  IsBuried-IsStable job other = record {
    waits = λ u h. h;
    edits = λ caption u h. h;
    deletes = λ u h. h;
    books = λ set u same h. (get_row-modify-none job.job_id k set u h.0, h.1);
    drops = λ b u h. forget-IsBuried job.job_id b u other h;
    ends = λ b u h.
        forget-IsBuried job.job_id b (terminate job u) other
          (get_row-modify-none job.job_id k (λ j. record j { terminated = true }) u h.0, h.1);
  }

module _ (p : UpdaterPorts) (s : UpdaterSettings) (e : ℕ) where
  -- Every turn begins before `e`.
  abbrev pub IsEarly : List Turn → Updater → Type 0
  IsEarly [] u = Unit
  IsEarly (x ∷ xs) u = (now p (later u) < e) × IsEarly xs (turn p s x u)

module _ (p : UpdaterPorts) (s : UpdaterSettings) (k e : ℕ) where
  buried_event : (u : Updater) → IsBuried k e u → now p u < e → handle_event p s k u ≡ u
  unfolding handle_event
  buried_event u h early = rw (h.1, lt→ltb (now p u) e early) refl

  IsBuried-AllStable :
      (r : Rows ActiveJob) → IsLive r → get_row k r ≡ none → AllStable p s (IsBuried k e) r
  IsBuried-AllStable [] live h = tt
  IsBuried-AllStable ((j, job) ∷ r) live h =
      (IsBuried-IsStable p k e job (grind arith), IsBuried-AllStable r live.2 (grind arith))

  handle_event-IsBuried :
      (j : ℕ) (u : Updater)
      → IsLive u.active
      → now p u < e
      → IsBuried k e u
      → IsBuried k e (handle_event p s j u)
  handle_event-IsBuried j u live early h = elim (Bool-cases (k == j)) [
    | inl same ↦ let here : k ≡ j = (==_iff k j).0 same in rw (sym here, buried_event u h early) h
    | inr other ↦
        handle_event-keeps p s (IsBuried k e) j
          (λ job own. IsBuried-IsStable p k e job (rw own other))
          (λ job v own g. (get_row-dict_set j k job v.active other ∙ g.0, g.1)) (λ v g. g) u live h
  ]

  turn-IsBuried :
      (x : Turn) (u : Updater)
      → IsLive u.active
      → now p (later u) < e
      → IsBuried k e u
      → IsBuried k e (turn p s x u)
  unfolding turn watchdog_tick
  turn-IsBuried (event j) u live early h = handle_event-IsBuried j (later u) live early h
  turn-IsBuried watch u live early h =
      check_jobs-keeps p s (IsBuried k e) (now p (later u)) u.active _ live
        (IsBuried-AllStable u.active live h.0)
        (h.0, get_row-unexpired (now p (later u)) k e u.tombstones h.1 early)

  turns-IsBuried :
      (xs : List Turn) (u : Updater)
      → IsLive u.active
      → IsEarly p s e xs u
      → IsBuried k e u
      → IsBuried k e (turns p s xs u)
  unfolding turns
  turns-IsBuried [] u live early h = h
  turns-IsBuried (x ∷ xs) u live early h =
      turns-IsBuried xs (turn p s x u) (turn-IsLive p s x u live) early.1
        (turn-IsBuried x u live early.0 h)

module _ (p : UpdaterPorts) (s : UpdaterSettings) where
  -- The end of a job that did not fail deletes its placeholder and buries the job.
  finalize_buries :
      (job : ActiveJob) (stage : ProgressStage) (u : Updater)
      → stage_eq stage failed ≡ false
      → let v = finalize p job stage u in
        IsBuried job.job_id (now p v + tombstone_ttl_ms) v
        × Memᴰ (delete_message job.chat_id job.message_id) v.calls
  unfolding finalize
  finalize_buries job stage u well = rw well (
    (
      get_row-without_self job.job_id (terminate job u).active,
      get_row-dict_set_self job.job_id _ u.tombstones,
    ),
    Memᴰ.head refl,
  )

  finalize_buries_own :
      (k : ℕ) (job : ActiveJob) (stage : ProgressStage) (u : Updater)
      → job.job_id ≡ k
      → stage_eq stage failed ≡ false
      → let v = finalize p job stage u in
        IsBuried k (now p v + tombstone_ttl_ms) v
        × Memᴰ (delete_message job.chat_id job.message_id) v.calls
  finalize_buries_own k job stage u own well = rw (sym own) (finalize_buries job stage u well)

  -- Where the event of a registered job without a live tombstone reads a terminal frame other than
  -- FAILED, the placeholder has been asked to be deleted, and during any turns that begin within 60
  -- seconds the job stays out of the registry, and one more event of it then changes nothing.
  pub finished_stays_gone :
      (k : ℕ) (u : Updater) (job : ActiveJob) (progress : Hash) (stage : ProgressStage)
      (percent : ℕ) (xs : List Turn)
      → IsLive u.active
      → expiry_or_zero (get_row k u.tombstones) ≤ now p u
      → get_row k u.active ≡ some job
      → p.read_progress u.moment k ≡ some progress
      → frame_of p s progress ≡ some (stage, percent)
      → is_terminal_stage stage ≡ true
      → stage_eq stage failed ≡ false
      → let v = handle_event p s k u in
        let w = turns p s xs v in
        IsEarly p s (now p v + tombstone_ttl_ms) xs v
        → now p (later w) < now p v + tombstone_ttl_ms
        → Memᴰ (delete_message job.chat_id job.message_id) v.calls
          × (get_row k w.active ≡ none)
          × (handle_event p s k (later w) ≡ later w)
  finished_stays_gone k u job progress stage percent xs live free here read framed over well early
        last =
      let job' = touched (now p (later u)) job in
      let v = handle_event p s k u in
      let end : v ≡ finalize p job' stage (before_end p s k job progress stage percent u) =
        event_reaches p s k u job progress stage percent free here read framed
        ∙ terminal_finalizes p s k u job progress stage percent over in
      let (buried, deleted) =
        finalize_buries_own k job' stage (before_end p s k job progress stage percent u)
          (get_row-IsLive k u.active job live here).0 well in
      let buried' : IsBuried k (now p v + tombstone_ttl_ms) v = rw end buried in
      let stays =
        turns-IsBuried p s k (now p v + tombstone_ttl_ms) xs v (handle_event-IsLive p s k u live)
          early buried' in
      (
        rw end deleted,
        stays.0,
        buried_event p s k (now p v + tombstone_ttl_ms) (later (turns p s xs v)) stays last,
      )
