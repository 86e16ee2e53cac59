-- ===== src/Progress/Failed.antt =====
-- FAILED in app/bot/services/progress_updater.py: `_finalize` unregisters the job, and the watchdog
-- walks over registered jobs only.
use mathlib.Core.Path.{subst}
use dwtgbot.Base.{
  ℕ, zero, suc, ◌≤◌, ◌≡◌, refl, sym, ◌∙◌, Bool, true, false, ◌&&◌, none, some, [], ◌∷◌, arith,
  count, ◌==◌,
}
use dwtgbot.Strings.Digits.{Number}
use dwtgbot.Jobs.Rows.{Rows, get_row, update_where}
use dwtgbot.World.Values.{failed}
use dwtgbot.Progress.Channel.{Hash}
use dwtgbot.Progress.Reporter.{without}
use dwtgbot.Progress.Updater.{
  UpdaterSettings, ActiveJob, BotCall, edit_caption, edit_text, delete_message, Updater,
  UpdaterPorts, later, now, terminate, finalize,
}
use dwtgbot.Progress.Events.{
  expiry_or_zero, touched, frame_of, on_frame, handle_event, watchdog_tick, watch, turn,
}
use dwtgbot.Progress.Stable.{IsBooking, IsStable}
use dwtgbot.Progress.Handlers.{IsLive, get_row-IsLive, AllStable, check_jobs-keeps, on_frame-keeps}
use dwtgbot.Progress.Registry.{without-update, turn-IsLive, handle_event-IsLive}
use dwtgbot.Progress.Watchdog.{get_row-without_self}
use dwtgbot.Progress.Terminal.{before_end, event_reaches, terminal_finalizes}

abbrev same_bool : Bool → Bool → Bool
same_bool true b = b
same_bool false true = false
same_bool false false = true

abbrev number_eq : Number → Number → Bool
number_eq a b = same_bool a.is_negative b.is_negative && a.magnitude == b.magnitude

abbrev same_message : Number → Number → Number → Number → Bool
same_message chat message chat' message' = number_eq chat chat' && number_eq message message'

-- The call is about the placeholder of the job.
abbrev pub is_about : ActiveJob → BotCall → Bool
is_about job (edit_caption chat message _) = same_message job.chat_id job.message_id chat message
is_about job (edit_text chat message _) = same_message job.chat_id job.message_id chat message
is_about job (delete_message chat message) = same_message job.chat_id job.message_id chat message

-- No entry has the placeholder of the job.
abbrev pub IsApart : ActiveJob → Rows ActiveJob → Type 0
IsApart job [] = Unit
IsApart job ((k, other) ∷ r) =
    (same_message job.chat_id job.message_id other.chat_id other.message_id ≡ false) × IsApart job r

IsApart-without :
    (job : ActiveJob) (k : ℕ) (r : Rows ActiveJob) → IsApart job r → IsApart job (without k r)
IsApart-without job k [] h = tt
IsApart-without job k ((j, c) ∷ r) h = ground (arith, IsApart-without job k r h.1)

IsApart-update :
    (job : ActiveJob) (k : ℕ) (set : ActiveJob → ActiveJob) (r : Rows ActiveJob)
    → IsBooking set
    → IsApart job r
    → IsApart job (update_where (λ row. k == row.0) set r)
IsApart-update job k set [] same h = tt
IsApart-update job k set ((j, c) ∷ r) same h =
    ground (arith, same c, IsApart-update job k set r same h.1)

without-without : (k : ℕ) (r : Rows ActiveJob) → without k (without k r) ≡ without k r
without-without k [] = refl
without-without k ((j, c) ∷ r) = ground (arith, without-without k r)

-- The registry has no entry with the job's placeholder, and this many calls were about it.
abbrev pub IsQuiet : ActiveJob → ℕ → Updater → Type 0
IsQuiet job n u = IsApart job u.active × (count (is_about job) u.calls ≡ n)

-- The other entries have other placeholders.
abbrev IsApartBut : ActiveJob → ℕ → Updater → Type 0
IsApartBut job k u = IsApart job (without k u.active)

module _ (p : UpdaterPorts) (job : ActiveJob) where
  IsQuiet-IsStable :
      (n : ℕ) (other : ActiveJob)
      → same_message job.chat_id job.message_id other.chat_id other.message_id ≡ false
      → IsStable p (IsQuiet job n) other
  IsQuiet-IsStable n other apart = record {
    waits = λ u h. h;
    edits = λ caption u h. (h.0, ground (arith, h.1, apart));
    deletes = λ u h. (h.0, ground (arith, h.1, apart));
    books = λ set u same h. (IsApart-update job other.job_id set u.active same h.0, h.1);
    drops = λ b u h. (IsApart-without job other.job_id u.active h.0, h.1);
    ends = λ b u h. (
      rw (without-update other.job_id (λ j. record j { terminated = true }) u.active)
          (IsApart-without job other.job_id u.active h.0),
      h.1,
    );
  }

  IsApartBut-IsStable : (c : ActiveJob) → IsStable p (IsApartBut job c.job_id) c
  IsApartBut-IsStable c = record {
    waits = λ u h. h;
    edits = λ caption u h. h;
    deletes = λ u h. h;
    books = λ set u same h. rw (without-update c.job_id set u.active) h;
    drops = λ b u h. rw (without-without c.job_id u.active) h;
    ends = λ b u h.
        rw
          (
            without-update c.job_id (λ j. record j { terminated = true }) u.active,
            without-without c.job_id u.active,
          )
          h;
  }

module _ (p : UpdaterPorts) (s : UpdaterSettings) (job : ActiveJob) where
  IsQuiet-AllStable : (n : ℕ) (r : Rows ActiveJob) → IsApart job r → AllStable p s (IsQuiet job n) r
  IsQuiet-AllStable n [] h = tt
  IsQuiet-AllStable n ((k, other) ∷ r) h =
      (IsQuiet-IsStable p job n other h.0, IsQuiet-AllStable n r h.1)

  abbrev pub ticks : ℕ → Updater → Updater
  ticks zero u = u
  ticks (suc n) u = ticks n (turn p s watch u)

  ticks-IsQuiet :
      (n m : ℕ) (u : Updater) → IsLive u.active → IsQuiet job m u → IsQuiet job m (ticks n u)
  unfolding turn watchdog_tick
  ticks-IsQuiet zero m u live h = h
  ticks-IsQuiet (suc n) m u live h =
      ticks-IsQuiet n m (turn p s watch u) (turn-IsLive p s watch u live) (
        check_jobs-keeps p s (IsQuiet job m) (now p (later u)) u.active _ live
          (IsQuiet-AllStable m u.active h.0) h)

  finalize-IsApart :
      (c : ActiveJob) (u : Updater)
      → IsApartBut job c.job_id (finalize p c failed u)
      → IsApart job (finalize p c failed u).active
        × (get_row c.job_id (finalize p c failed u).active ≡ none)
  unfolding finalize
  finalize-IsApart c u h = (
    rw (sym (without-without c.job_id (terminate c u).active)) h,
    get_row-without_self c.job_id (terminate c u).active,
  )

  finalize-IsApart_own :
      (k : ℕ) (c : ActiveJob) (u : Updater)
      → c.job_id ≡ k
      → IsApartBut job k (finalize p c failed u)
      → IsApart job (finalize p c failed u).active
        × (get_row k (finalize p c failed u).active ≡ none)
  finalize-IsApart_own k c u own = rw (sym own) (finalize-IsApart c u)

  IsApartBut-IsStable_own : (k : ℕ) → job.job_id ≡ k → IsStable p (IsApartBut job k) job
  IsApartBut-IsStable_own k own = rw (sym own) (IsApartBut-IsStable p job job)

  -- Where the event of a registered job without a live tombstone reads a FAILED frame, and no other
  -- entry shares its placeholder, the job is out of the registry, and no number of later ticks makes
  -- a call about its placeholder.
  pub failed_placeholder_stays :
      (k : ℕ) (u : Updater) (progress : Hash) (percent n : ℕ)
      → IsLive u.active
      → IsApart job (without k u.active)
      → expiry_or_zero (get_row k u.tombstones) ≤ now p u
      → get_row k u.active ≡ some job
      → p.read_progress u.moment k ≡ some progress
      → frame_of p s progress ≡ some (failed, percent)
      → let v = handle_event p s k u in
        (get_row k v.active ≡ none)
        × (count (is_about job) (ticks n v).calls ≡ count (is_about job) v.calls)
  failed_placeholder_stays k u progress percent n live apart free here read framed =
      let job' = touched (now p (later u)) job in
      let v = handle_event p s k u in
      let own = (get_row-IsLive k u.active job live here).0 in
      let reached = event_reaches p s k u job progress failed percent free here read framed in
      let end = terminal_finalizes p s k u job progress failed percent refl in
      let kept : IsApartBut job k (on_frame p s k job progress (some (failed, percent)) (later u)) =
        on_frame-keeps p s (IsApartBut job k) k job progress (some (failed, percent)) (later u)
          (IsApartBut-IsStable_own k own) own apart in
      let (apart', gone) =
        finalize-IsApart_own k job' (before_end p s k job progress failed percent u) own
          (subst (IsApartBut job k) end kept) in
      (
        subst IsUnlisted (sym (reached ∙ end)) gone,
        (ticks-IsQuiet n (count (is_about job) v.calls) v (handle_event-IsLive p s k u live)
            (subst (λ (w : Updater). IsApart job w.active) (sym (reached ∙ end)) apart', refl)).1,
      )
    where
      IsUnlisted : Updater → Type 0
      IsUnlisted w = get_row k w.active ≡ none
