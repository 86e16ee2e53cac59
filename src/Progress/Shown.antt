-- ===== src/Progress/Shown.antt =====
-- The debounce of app/infrastructure/cache/redis_progress_reporter.py: what the hash of a job shows.
use mathlib.Core.Path.{subst}
use dwtgbot.Base.{
  ℕ, ◌<◌, ◌≡◌, refl, sym, ◌∙◌, ◌⊎◌, inl, inr, Bool, true, false, Option, none, some, List, [], ◌∷◌,
  Text, codes, ltb→lt, ◌==◌, ==_self, arith, if◌then◌else◌,
}
use dwtgbot.Strings.Digits.{Number}
use dwtgbot.Jobs.Rows.{Rows, get_row}
use dwtgbot.World.Values.{ProgressStage, is_terminal_stage}
use dwtgbot.Progress.Channel.{stage_value, field, StoredHash, Channel, fields_of, percent_text}
use dwtgbot.Progress.Reporter.{
  ReporterSettings, Debounce, Reporter, Times, executed, without, distance, stage_eq, clamp_percent,
  is_debounced_by, is_debounced, report_update, report_terminal, written_frame,
}

-- The hash gives this stage and this percent.
abbrev pub Shows : ProgressStage → ℕ → Option StoredHash → Type 0
Shows stage tenths h =
    (field (codes "stage") (fields_of h) ≡ some (stage_value stage))
    × (field (codes "percent") (fields_of h) ≡ some (percent_text tenths))

-- Every entry of the debounce is what the job's hash gives.
abbrev pub IsShown : Reporter → Type 0
IsShown r =
    (k : ℕ) (d : Debounce)
    → get_row k r.states ≡ some d
    → Shows d.stage d.percent (get_row k r.channel.progress)

-- The calls after `start`: an update, or an end with its stage and reason.
pub data Write : Type 0 where
  updated : ℕ → Number → ProgressStage → Times → Write
  ended_at : ℕ → ProgressStage → Option Text → Times → Write

get_row-without :
    (k : ℕ) (rows : Rows Debounce) (j : ℕ)
    → get_row j (without k rows) ≡ (if j == k then none else get_row j rows)
get_row-without k [] j = ground arith
get_row-without k ((i, d) ∷ rows) j = ground (arith, get_row-without k rows j)

stage_eq→eq : (a b : ProgressStage) → stage_eq a b ≡ true → a ≡ b
stage_eq→eq a b h = ground arith

picked-Shows :
    (b : Bool) (d0 d : Debounce) (o : Option Debounce) (h0 h : Option StoredHash)
    → Shows d0.stage d0.percent h0
    → (o ≡ some d → Shows d.stage d.percent h)
    → (if b then some d0 else o) ≡ some d
    → Shows d.stage d.percent (if b then h0 else h)
picked-Shows true d0 d o h0 h new old e = let same : d0 ≡ d = cc in rw (sym same) new
picked-Shows false d0 d o h0 h new old e = old e

kept-Shows :
    (b : Bool) (d : Debounce) (o : Option Debounce) (h0 h : Option StoredHash)
    → (o ≡ some d → Shows d.stage d.percent h)
    → (if b then none else o) ≡ some d
    → Shows d.stage d.percent (if b then h0 else h)
kept-Shows true d o h0 h old e = absurd (cc)
kept-Shows false d o h0 h old e = old e

module _ (s : ReporterSettings) where
  unfoldable pub write : Write → Reporter → Reporter
  unfolding report_update report_terminal
  write (updated k percent stage t) r = report_update s k percent stage t executed r
  write (ended_at k stage reason t) r = report_terminal s k stage reason t executed r

  unfoldable pub writes : List Write → Reporter → Reporter
  unfolding write
  writes [] r = r
  writes (x ∷ xs) r = writes xs (write x r)

  written-IsShown :
      (k clamped : ℕ) (stage : ProgressStage) (t : Times) (r : Reporter)
      → IsShown r
      → IsShown (written_frame s k clamped stage t executed r)
  written-IsShown k clamped stage t r inv j d h =
      picked-Shows (j == k) (record { written_at = t.written_ms; percent = clamped; stage = stage })
        d (get_row j r.states) (some _) (get_row j r.channel.progress) (refl, refl) (inv j d) h

  terminal-IsShown :
      (k : ℕ) (stage : ProgressStage) (reason : Option Text) (t : Times) (r : Reporter)
      → IsShown r
      → IsShown (report_terminal s k stage reason t executed r)
  unfolding report_terminal
  terminal-IsShown k stage reason t r inv j d h =
      kept-Shows (j == k) d (get_row j r.states) (some _) (get_row j r.channel.progress) (inv j d)
        (sym (get_row-without k r.states j) ∙ h)

  write-IsShown : (x : Write) (r : Reporter) → IsShown r → IsShown (write x r)
  unfolding write report_update
  write-IsShown (updated k percent stage t) r inv =
      kept_or (is_debounced s t.checked_ms k (clamp_percent percent) stage r)
    where
      kept_or :
          (b : Bool)
          → IsShown (if b then r else written_frame s k (clamp_percent percent) stage t executed r)
      kept_or true = inv
      kept_or false = written-IsShown k (clamp_percent percent) stage t r inv
  write-IsShown (ended_at k stage reason t) r inv = terminal-IsShown k stage reason t r inv

  writes-IsShown : (ws : List Write) (r : Reporter) → IsShown r → IsShown (writes ws r)
  unfolding writes
  writes-IsShown [] r inv = inv
  writes-IsShown (x ∷ xs) r inv = writes-IsShown xs (write x r) (write-IsShown x r inv)

  -- What a debounced update finds: an entry of its stage that is less than the step away.
  debounced_entry :
      (now k clamped : ℕ) (stage : ProgressStage) (r : Reporter)
      → is_debounced s now k clamped stage r ≡ true
      → (d : Debounce) × (get_row k r.states ≡ some d)
        × (d.stage ≡ stage)
        × (distance clamped d.percent < s.debounce_tenths)
  unfolding is_debounced
  debounced_entry now k clamped stage r h =
      found (is_terminal_stage stage) (get_row k r.states) refl h
    where
      found :
          (b : Bool) (o : Option Debounce)
          → get_row k r.states ≡ o
          → (if b then false else is_debounced_by s now clamped stage o) ≡ true
          → (d : Debounce) × (get_row k r.states ≡ some d)
            × (d.stage ≡ stage)
            × (distance clamped d.percent < s.debounce_tenths)
      found true o e h = absurd (cc)
      found false none e h = absurd (cc)
      found false (some d) e h = (
        d,
        e,
        stage_eq→eq d.stage stage (grind arith),
        ltb→lt (distance clamped d.percent) s.debounce_tenths (grind arith),
      )

  -- The hash shows the stage, and a percent within the debounce step.
  abbrev pub ShowsNear : ProgressStage → ℕ → Option StoredHash → Type 0
  ShowsNear stage clamped h =
      (q : ℕ) × Shows stage q h × ((q ≡ clamped) ⊎ (distance clamped q < s.debounce_tenths))

  update-ShowsNear :
      (k : ℕ) (percent : Number) (stage : ProgressStage) (t : Times) (r : Reporter)
      → IsShown r
      → ShowsNear stage
          (clamp_percent percent)
          (get_row k (report_update s k percent stage t executed r).channel.progress)
  unfolding report_update
  update-ShowsNear k percent stage t r inv =
      by_test (is_debounced s t.checked_ms k (clamp_percent percent) stage r) refl
    where
      by_test :
          (b : Bool)
          → is_debounced s t.checked_ms k (clamp_percent percent) stage r ≡ b
          → ShowsNear stage (clamp_percent percent) (
              get_row k
                (if b
                  then r
                  else written_frame s k
                      (clamp_percent percent)
                      stage
                      t
                      executed
                      r).channel.progress)
      by_test true e =
          let (d, found, same, near) =
            debounced_entry t.checked_ms k (clamp_percent percent) stage r e in
          (
            d.percent,
            subst (λ st. Shows st d.percent (get_row k r.channel.progress)) same (inv k d found),
            inr near,
          )
      by_test false e = (clamp_percent percent, rw (==_self k) (refl, refl), inl refl)

  -- After any updates and ends of a reporter that starts without debounce entries, while Redis
  -- answers, each update leaves the job's hash with the update's stage and with a percent that is
  -- the clamped one or less than the debounce step away from it.
  pub update_shows :
      (c : Channel) (ws : List Write) (k : ℕ) (percent : Number) (stage : ProgressStage) (t : Times)
      → ShowsNear stage (clamp_percent percent) (
          get_row k
            (report_update s k percent stage t executed
              (writes ws (record { states = []; channel = c }))).channel.progress)
  update_shows c ws k percent stage t =
      update-ShowsNear k percent stage t (writes ws _) (writes-IsShown ws _ λ j d h. absurd (cc))
