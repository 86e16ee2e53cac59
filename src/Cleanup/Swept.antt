-- ===== src/Cleanup/Swept.antt =====
-- Which directories the sweep removes.
use dwtgbot.Base.{
  ℕ, ◌+◌, ◌≤◌, ◌<◌, ◌≡◌, refl, ap, sym, ◌∙◌, ◌⊎◌, inl, inr, Bool, true, false, not, ◌&&◌, Option,
  none, some, List, [], ◌∷◌, ◌++◌, length, length-append, all, leb, arith, if◌then◌else◌,
}
use mathlib.Core.Path.{subst}
use dwtgbot.Errors.{Exc, Outcome, returned, raised}
use dwtgbot.Exec.{pure, continue, ◌>>=◌}
use dwtgbot.Jobs.Repo.{JobsTable}
use dwtgbot.World.Values.{Event, dir_removed}
use dwtgbot.World.Ports.{World}
use dwtgbot.World.Calm.{IsCalm}
use dwtgbot.World.Actions.{call, now}
use dwtgbot.Links.Entity.{LinkColumns, is_usable}
use dwtgbot.Cleanup.Sweep.{
  JobDir, CleanupPorts, sweep_entries, sweep_found, sweep_orphan_job_dirs, job_dir_sweep_age,
}
use dwtgbot.Cleanup.Turns.{may_go, removals, EntryOutcome, turn}

middle : (a b c d : Bool) → a && (b && (not c && d)) ≡ true → c ≡ false
middle a b c d h = ground (arith, h)

late :
    (p : CleanupPorts) (at age : ℕ) (t : JobsTable) (entry : JobDir)
    → may_go p at age t entry ≡ true
    → leb at (entry.mtime + age) ≡ false
late p at age t entry h =
    middle entry.is_dir (p.is_digit entry.name) (leb at (entry.mtime + age)) _ h

leb_false→lt : (a b : ℕ) → leb a b ≡ false → b < a
leb_false→lt a b h = ground arith

removals_snoc :
    (es : List JobDir) (e : JobDir) (log : List Event)
    → removals (es ++ (e ∷ [])) ++ log ≡ removals es ++ (dir_removed e.name ∷ log)
removals_snoc [] e log = refl
removals_snoc (x ∷ es) e log = ap (λ l. dir_removed x.name ∷ l) (removals_snoc es e log)

all_snoc :
    (test : JobDir → Bool) (es : List JobDir) (e : JobDir)
    → all test es ≡ true
    → test e ≡ true
    → all test (es ++ (e ∷ [])) ≡ true
all_snoc test [] e h k = ground (arith, k)
all_snoc test (x ∷ es) e h k = ground (arith, k, all_snoc test es e)

one_more :
    (n : ℕ) (gone : List JobDir) (entry : JobDir)
    → (◌≡◌ {A = Outcome ℕ} (returned n) (returned (length gone)))
      ⊎ ((e : Exc) × (◌≡◌ {A = Outcome ℕ} (returned n) (raised e)))
    → (◌≡◌ {A = Outcome ℕ} (returned (n + 1)) (returned (length (gone ++ (entry ∷ [])))))
      ⊎ ((e : Exc) × (◌≡◌ {A = Outcome ℕ} (returned (n + 1)) (raised e)))
one_more n gone entry (inl h) = inl (ground (arith, h, length-append gone (entry ∷ [])))
one_more n gone entry (inr (e, h)) = absurd (cc)

-- The first list is taken from the second, in the opposite order.
abbrev pub IsTaken : List JobDir → List JobDir → Type 0
IsTaken gone [] = gone ≡ []
IsTaken gone (e ∷ es) =
    IsTaken gone es ⊎ ((later : List JobDir) × (gone ≡ later ++ (e ∷ [])) × IsTaken later es)

nothing-IsTaken : (es : List JobDir) → IsTaken [] es
nothing-IsTaken [] = refl
nothing-IsTaken (e ∷ es) = inl (nothing-IsTaken es)

module _ (p : CleanupPorts) (at age : ℕ) (calm : IsCalm p.base) where
  -- What the turns for the entries have done: the removed directories, the last one first.
  abbrev Swept : List JobDir → World → Outcome ℕ × World → Type 0
  Swept es w (r, w') =
      (w'.jobs ≡ w.jobs)
      × ((gone : List JobDir) × IsTaken gone es
          × (w'.log ≡ removals gone ++ w.log)
          × (all (may_go p at age w.jobs) gone ≡ true)
          × ((r ≡ returned (length gone)) ⊎ ((e : Exc) × (r ≡ raised e))))

  skipped :
      (entry : JobDir) (es : List JobDir) (w v : World) (o : Outcome ℕ × World)
      → v.jobs ≡ w.jobs
      → v.log ≡ w.log
      → Swept es v o
      → Swept (entry ∷ es) w (continue o.0 (λ n. pure n) o.1)
  skipped entry es w v (returned n, u) jobs log (same, (gone, taken, logged, ok, ends)) = (
    same ∙ jobs,
    (
      gone,
      inl taken,
      logged ∙ ap (λ l. removals gone ++ l) log,
      subst (λ t. all (may_go p at age t) gone ≡ true) jobs ok,
      ends,
    ),
  )
  skipped entry es w v (raised e, u) jobs log (same, (gone, taken, logged, ok, ends)) = (
    same ∙ jobs,
    (
      gone,
      inl taken,
      logged ∙ ap (λ l. removals gone ++ l) log,
      subst (λ t. all (may_go p at age t) gone ≡ true) jobs ok,
      inr (e, refl),
    ),
  )

  joined :
      (w v u : World) (entry : JobDir) (gone : List JobDir)
      → v.jobs ≡ w.jobs
      → v.log ≡ dir_removed entry.name ∷ w.log
      → may_go p at age w.jobs entry ≡ true
      → u.log ≡ removals gone ++ v.log
      → all (may_go p at age v.jobs) gone ≡ true
      → (u.log ≡ removals (gone ++ (entry ∷ [])) ++ w.log)
        × (all (may_go p at age w.jobs) (gone ++ (entry ∷ [])) ≡ true)
  joined w v u entry gone jobs log here logged ok = (
    logged ∙ (ap (λ l. removals gone ++ l) log ∙ sym (removals_snoc gone entry w.log)),
    all_snoc (may_go p at age w.jobs) gone entry
        (subst (λ t. all (may_go p at age t) gone ≡ true) jobs ok) here,
  )

  removed_first :
      (es : List JobDir) (w v : World) (entry : JobDir) (o : Outcome ℕ × World)
      → v.jobs ≡ w.jobs
      → v.log ≡ dir_removed entry.name ∷ w.log
      → may_go p at age w.jobs entry ≡ true
      → Swept es v o
      → Swept (entry ∷ es) w (continue o.0 (λ n. pure (n + 1)) o.1)
  removed_first es w v entry (returned n, u) jobs log here (same, (gone, taken, logged, ok, ends)) =
      let (logged', ok') = joined w v u entry gone jobs log here logged ok in
      (
        same ∙ jobs,
        (gone ++ (entry ∷ []), inr (gone, refl, taken), logged', ok', one_more n gone entry ends),
      )
  removed_first es w v entry (raised e, u) jobs log here (same, (gone, taken, logged, ok, ends)) =
      let (logged', ok') = joined w v u entry gone jobs log here logged ok in
      (same ∙ jobs, (gone ++ (entry ∷ []), inr (gone, refl, taken), logged', ok', inr (e, refl)))

  after_turn :
      (w : World) (entry : JobDir) (entries : List JobDir) (o : Outcome Bool × World)
      → EntryOutcome p at age w entry o
      → ((v : World) → Swept entries v (sweep_entries p at age entries v))
      → Swept (entry ∷ entries) w (
          continue o.0
            (λ removed. sweep_entries p at age entries >>= λ n. pure (if removed then n + 1 else n))
            o.1)
  unfolding ◌>>=◌
  after_turn w entry entries (raised e, v) (jobs, inl (r, log, ok)) rest = absurd (cc)
  after_turn w entry entries (raised e, v) (jobs, inr (log, ends)) rest =
      (jobs, ([], nothing-IsTaken (entry ∷ entries), log, refl, inr (e, refl)))
  after_turn w entry entries (returned true, v) (jobs, inl (r, log, ok)) rest =
      removed_first entries w v entry (sweep_entries p at age entries v) jobs log ok (rest v)
  after_turn w entry entries (returned false, v) (jobs, inl (r, log, ok)) rest = absurd (cc)
  after_turn w entry entries (returned true, v) (jobs, inr (log, inl r)) rest = absurd (cc)
  after_turn w entry entries (returned true, v) (jobs, inr (log, inr (e, r))) rest = absurd (cc)
  after_turn w entry entries (returned false, v) (jobs, inr (log, ends)) rest =
      skipped entry entries w v (sweep_entries p at age entries v) jobs log (rest v)

  swept_lem :
      (entries : List JobDir) (w : World) → Swept entries w (sweep_entries p at age entries w)
  unfolding sweep_entries ◌>>=◌
  swept_lem [] w = (refl, ([], refl, refl, refl, inl refl))
  swept_lem (entry ∷ entries) w =
      after_turn w entry entries _ (turn p at age calm w entry) (swept_lem entries)

-- What a sweep has done, from `w` to `w'`, where the `jobs` directory was listed as `listed`: each
-- removed directory is an entry of the listing, and may go by the mtime that is listed.
abbrev pub SweepOutcome :
    CleanupPorts → ℕ → Option (List JobDir) → World → Outcome ℕ → World → Type 0
SweepOutcome p age listed w r w' =
    (w'.jobs ≡ w.jobs)
    × ((gone : List JobDir) × IsTaken gone (elim listed [ none ↦ [] | some l ↦ l ])
        × (w'.log ≡ removals gone ++ w.log)
        × (all (may_go p (p.base.clock (w.moment + 1)) age w.jobs) gone ≡ true)
        × ((r ≡ returned (length gone)) ⊎ ((e : Exc) × (r ≡ raised e))))

found_swept :
    (p : CleanupPorts) (age : ℕ) (w : World) (listed : Option (List JobDir))
    → IsCalm p.base
    → let (r, w') = sweep_found p age listed (record w { moment = w.moment + 1 }) in
      SweepOutcome p age listed w r w'
unfolding sweep_found ◌>>=◌ now
found_swept p age w none calm = (refl, ([], refl, refl, refl, inl refl))
found_swept p age w (some entries) calm =
    swept_lem p (p.base.clock (w.moment + 1)) age calm entries
      (record w { moment = w.moment + 1 + 1 })

-- While the database answers and no other process writes, a sweep leaves the table of jobs as it
-- is. The directories that it removes are entries of the `jobs` directory as listed at its start, in
-- their order, and each of them is listed as a directory whose name is a job's id, was last written
-- longer ago than the age by the listed mtime, and belongs to a job that is not in the table or is
-- `DONE` or `FAILED`. The sweep answers the number of directories removed, unless it raises.
pub sweep_orphan_job_dirs_lem :
    (p : CleanupPorts) (age : ℕ) (w : World)
    → IsCalm p.base
    → let (r, w') = sweep_orphan_job_dirs p age w in SweepOutcome p age (p.job_dirs w.moment) w r w'
unfolding sweep_orphan_job_dirs ◌>>=◌ call
sweep_orphan_job_dirs_lem p age w calm = found_swept p age w (p.job_dirs w.moment) calm

an_hour_more : (ttl : ℕ) → ttl + 3600 ≤ job_dir_sweep_age ttl
unfolding job_dir_sweep_age
an_hour_more ttl = omega arith

expired_unusable : (at : ℕ) (link : LinkColumns) → link.expires_at ≤ at → is_usable at link ≡ false
expired_unusable at link h = ground arith

-- A directory that may go at the worker's age has no usable link: not one that was issued, with the
-- worker's TTL, up to an hour after the directory was written last.
pub may_go-is_usable :
    (p : CleanupPorts) (at ttl issued : ℕ) (t : JobsTable) (entry : JobDir) (link : LinkColumns)
    → may_go p at (job_dir_sweep_age ttl) t entry ≡ true
    → issued ≤ entry.mtime + 3600
    → link.expires_at ≡ issued + ttl
    → is_usable at link ≡ false
may_go-is_usable p at ttl issued t entry link gone soon expires =
    let age = job_dir_sweep_age ttl in
    let old = leb_false→lt at (entry.mtime + age) (late p at age t entry gone) in
    expired_unusable at link (omega (arith, old, soon, expires, an_hour_more ttl))
