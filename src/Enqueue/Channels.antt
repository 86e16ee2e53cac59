-- ===== src/Enqueue/Channels.antt =====
-- The instant path against the picker's: its side channels never undo an enqueued job.
use dwtgbot.Base.{
  ℕ, Option, none, some, ◌+◌, ◌≡◌, refl, List, [], ◌∷◌, ◌++◌, if◌then◌else◌, Bool-cases, inl, inr,
}
use dwtgbot.Errors.{Outcome, returned, raised}
use dwtgbot.Exec.{◌>>=◌, try_}
use dwtgbot.Strings.Trim.{strip}
use dwtgbot.Jobs.Entity.{DownloadJob}
use dwtgbot.World.Values.{DownloadOption, Event, job_created, progress_started, post_text_stored}
use dwtgbot.World.Ports.{World}
use dwtgbot.World.Actions.{call, emit, db_create_if_under_cap}
use dwtgbot.Process.Store.{id_or_zero}
use dwtgbot.Enqueue.Release.{EnqueuePorts, enqueue_or_release}
use dwtgbot.Enqueue.UseCase.{EnqueueInput, handed_over, enqueue}
use dwtgbot.Enqueue.Instant.{
  InstantInput, InstantResult, instant_job, after_create, register, has_post_text, keep_text,
  side_channels, auto_execute,
}

-- The picker's input for the same job, to compare the two paths.
abbrev pub picked : InstantInput → DownloadOption → EnqueueInput
picked payload selected = record {
  user_id = payload.user_id;
  chat_id = payload.chat_id;
  source_url = payload.source_url;
  platform = payload.info.platform;
  selected_option_key = selected.key;
  correlation_id = payload.correlation_id;
}

-- An event, where the call before it succeeded.
abbrev pub if_returned : Outcome (Unit {0}) → Event → List Event
if_returned (returned _) e = e ∷ []
if_returned (raised _) e = []

module _ (p : EnqueuePorts) (min_chars k : ℕ) (payload : InstantInput) where
  abbrev pub started : ℕ → List Event
  started n =
      if_returned (p.start_progress n k) (
        progress_started k payload.chat_id payload.placeholder_message_id
          payload.info.thumbnail_url)

  abbrev pub stored : ℕ → List Event
  stored n =
      let text = strip payload.info.description in
      if has_post_text min_chars payload.info.description
      then if_returned (p.put_post_text n k text) (post_text_stored k text)
      else []

  registered :
      (w : World) (r : Outcome (Unit {0}))
      → p.start_progress w.moment k ≡ r
      → register p k payload w
        ≡ (returned tt, record w { moment = w.moment + 1; log = started w.moment ++ w.log })
  unfolding register ◌>>=◌ try_ call emit
  registered w (returned u) e = rw e refl
  registered w (raised x) e = rw e refl

  kept :
      (w : World) (r : Outcome (Unit {0}))
      → p.put_post_text w.moment k (strip payload.info.description) ≡ r
      → keep_text p k (strip payload.info.description) w ≡ (
        returned tt,
        record w {
          moment = w.moment + 1;
          log =
              if_returned
                (p.put_post_text w.moment k (strip payload.info.description))
                (post_text_stored k (strip payload.info.description))
              ++ w.log;
        },
      )
  unfolding keep_text ◌>>=◌ try_ call emit
  kept w (returned u) e = rw e refl
  kept w (raised x) e = rw e refl

  side_channels_lem :
      (w : World)
      → let (r, w') = side_channels p min_chars k payload w in
        (r ≡ returned tt)
        × (w'.jobs ≡ w.jobs)
        × (w'.log ≡ stored (w.moment + 1) ++ (started w.moment ++ w.log))
  unfolding side_channels ◌>>=◌
  side_channels_lem w =
      rw (registered w _ refl)
        (elim (Bool-cases (has_post_text min_chars payload.info.description)) [
          | inl e ↦ rw e (
              rw (kept (record w { moment = w.moment + 1; log = started w.moment ++ w.log }) _ refl)
                (refl, refl, refl))
          | inr e ↦ rw e (refl, refl, refl)
        ])

-- What the instant call has done, where the picker's call with the selected option would end in
-- `(r, v)`.
abbrev pub InstantOutcome :
    EnqueuePorts
    → ℕ
    → InstantInput
    → DownloadOption
    → Outcome DownloadJob × World
    → Outcome InstantResult × World
    → Type 0
InstantOutcome p min_chars payload selected (raised e, v) end = end ≡ (raised e, v)
InstantOutcome p min_chars payload selected (returned job, v) (r, w) =
    (r
      ≡ returned (record {
        job_id = id_or_zero job;
        selected = selected;
        has_description = has_post_text min_chars payload.info.description;
      }))
    × (w.jobs ≡ v.jobs)
    × (w.log
        ≡ stored p min_chars (id_or_zero job) payload (v.moment + 1)
          ++ (started p min_chars (id_or_zero job) payload v.moment ++ v.log))

module _ (p : EnqueuePorts) (cap min_chars : ℕ) (payload : InstantInput)
    (selected : DownloadOption) where
  queued-InstantOutcome :
      (job : DownloadJob) (w : World) (r : Outcome (Unit {0}) × World)
      → enqueue_or_release p job payload.correlation_id w ≡ r
      → InstantOutcome p min_chars payload selected
          (handed_over p cap (picked payload selected) (some job) w)
          (after_create p cap min_chars payload selected (some job) w)
  unfolding handed_over after_create ◌>>=◌ emit
  queued-InstantOutcome job w (raised e, v) ran = rw ran refl
  queued-InstantOutcome job w (returned u, v) ran =
      let v' = record v { log = job_created payload.info.platform ∷ v.log } in
      let (a, b, c) = side_channels_lem p min_chars (id_or_zero job) payload v' in
      rw ran (rw a (refl, b, c))

  created-InstantOutcome :
      (created : Option DownloadJob) (w : World)
      → InstantOutcome p min_chars payload selected
          (handed_over p cap (picked payload selected) created w)
          (after_create p cap min_chars payload selected created w)
  unfolding handed_over after_create
  created-InstantOutcome none w = refl
  created-InstantOutcome (some job) w = queued-InstantOutcome job w _ refl

  ran-InstantOutcome :
      (at : ℕ) (w : World) (end : Outcome (Option DownloadJob) × World)
      → p.default_option payload.info.platform payload.info ≡ returned selected
      → db_create_if_under_cap p.base cap (instant_job at payload selected) w ≡ end
      → InstantOutcome p min_chars payload selected
          (enqueue p cap at (picked payload selected) w)
          (auto_execute p cap min_chars at payload w)
  unfolding auto_execute enqueue ◌>>=◌
  ran-InstantOutcome at w (raised e, v) chosen ran = rw (chosen, ran) refl
  ran-InstantOutcome at w (returned created, v) chosen ran =
      rw (chosen, ran) (created-InstantOutcome created v)

-- Once the provider has picked the default option, the instant path ends as the picker's path does
-- for that option: where that raises, it raises the same and leaves the same state; where that
-- enqueues a job, it answers with the job's id and the option, and leaves the same table of jobs,
-- whether or not the reporter and the post-text store fail. Beyond what the picker's path emits
-- there is at most the start of the progress display and then the stripped description, and the
-- description only where it has `min_chars` characters, which is what the answer says.
pub auto_execute-enqueue :
    (p : EnqueuePorts) (cap min_chars at : ℕ) (payload : InstantInput) (w : World)
    (selected : DownloadOption)
    → p.default_option payload.info.platform payload.info ≡ returned selected
    → InstantOutcome p min_chars payload selected
        (enqueue p cap at (picked payload selected) w)
        (auto_execute p cap min_chars at payload w)
auto_execute-enqueue p cap min_chars at payload w selected chosen =
    ran-InstantOutcome p cap min_chars payload selected at w _ chosen refl
