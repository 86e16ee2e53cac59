-- ===== src/Checks/Progress.antt =====
-- A reporter, and an updater whose placeholder is message 9 of chat 5 for job 7.
use mathlib.Core.List.{Memᴰ}
use dwtgbot.Base.{
  ℕ, ◌*◌, ◌≡◌, refl, false, none, some, [], ◌∷◌, codes, text_eq, arith, count, if◌then◌else◌,
}
use dwtgbot.Strings.Digits.{Number}
use dwtgbot.Strings.Trim.{lstrip, rstrip}
use dwtgbot.Jobs.Rows.{get_row}
use dwtgbot.World.Values.{analyzing, downloading, done, failed}
use dwtgbot.Progress.Channel.{Hash}
use dwtgbot.Progress.Caption.{render_caption, stage_phrase, stale_caption}
use dwtgbot.Progress.Reporter.{
  ReporterSettings, Times, executed, frame, meta_frame, clamp_percent, report_update,
}
use dwtgbot.Progress.Shown.{updated, ended_at, writes, ShowsNear, update_shows}
use dwtgbot.Progress.Updater.{
  UpdaterSettings, ActiveJob, Updater, UpdaterPorts, delete_message, edited, edit_text, later,
}
use dwtgbot.Progress.Events.{
  frame_of, handle_event, watchdog_tick, recover_active_jobs, turns, event, watch,
}
use dwtgbot.Progress.Watchdog.{IsGone, silent_job_dropped}
use dwtgbot.Progress.Tombstones.{finished_stays_gone}
use dwtgbot.Progress.Failed.{ticks, is_about, failed_placeholder_stays}
use dwtgbot.Progress.Stale.{stale_notice_stays}

abbrev natural : ℕ → Number
natural n = record { is_negative = false; magnitude = n }

abbrev reporting : ReporterSettings
reporting = record {
  progress_ttl_s = 60;
  progress_meta_ttl_s = 600;
  redraw_interval_ms = 3000;
  debounce_tenths = 20;
}

abbrev at_ms : ℕ → Times
at_ms n = record { checked_ms = n; unix_s = 1; written_ms = n }

-- The second update of job 7 comes a second after the first and one percent further.
update_shows_example :
    let writes_before =
      updated 7 (natural 400) downloading (at_ms 1000)
      ∷ ended_at 8 failed (some (codes "gone")) (at_ms 1500)
      ∷ [] in
    let r = report_update reporting 7 (natural 410) downloading (at_ms 2000) executed (
      writes reporting writes_before
        (record { states = []; channel = record { progress = []; meta = []; published = [] } })) in
    ShowsNear reporting downloading (clamp_percent (natural 410)) (get_row 7 r.channel.progress)
update_shows_example =
    update_shows reporting (record { progress = []; meta = []; published = [] })
      (updated 7 (natural 400) downloading (at_ms 1000)
        ∷ ended_at 8 failed (some (codes "gone")) (at_ms 1500)
        ∷ [])
      7 (natural 410) downloading (at_ms 2000)

-- A clock of a second per wait, a feed with this frame, and a bot that accepts every edit.
abbrev ports_with : Hash → UpdaterPorts
ports_with progress = record {
  clock = λ m. m * 1000;
  read_progress = λ m k. some progress;
  read_meta = λ m k. some (meta_frame 5 9 none 1);
  placeholders = λ m. (7, meta_frame 5 9 none 1) ∷ [];
  edit = λ m c. edited;
  read_float = λ t. if text_eq t (codes "0.0") then some 0 else some 1000;
  wide_digit = λ c. none;
  lower = λ t. t;
}

abbrev limits : UpdaterSettings
limits = record {
  stale_warn_ms = 500;
  stale_drop_ms = 900;
  redraw_interval_ms = 3000;
  debounce_tenths = 20;
}

-- The job as its meta attaches it at this time.
abbrev attached_at : ℕ → ActiveJob
attached_at at = record {
  job_id = 7;
  chat_id = natural 5;
  message_id = natural 9;
  has_photo = false;
  last_event_at = at;
  last_apply_at = 0;
  last_percent = 0;
  last_stage = none;
  last_caption = [];
  stale_notified = false;
  terminated = false;
}

abbrev empty_updater : Updater
empty_updater = record { active = []; tombstones = []; calls = []; moment = 0 }

silent_job_dropped_example : IsGone 7 (delete_message (natural 5) (natural 9)) (
    watchdog_tick (ports_with []) limits (recover_active_jobs (ports_with []) limits empty_updater))
unfolding recover_active_jobs turns rstrip lstrip
silent_job_dropped_example =
    silent_job_dropped (ports_with []) limits 0 7 (attached_at 1000) [] refl (omega arith)

abbrev with_entry : ActiveJob → Updater
with_entry job = record { active = (7, job) ∷ []; tombstones = []; calls = []; moment = 2 }

abbrev done_frame : Hash
done_frame = frame done (codes "100.0") 1

finished_stays_gone_example :
    let v = handle_event (ports_with done_frame) limits 7 (with_entry (attached_at 1000)) in
    let w = turns (ports_with done_frame) limits (watch ∷ event 7 ∷ []) v in
    Memᴰ (delete_message (natural 5) (natural 9)) v.calls
    × (get_row 7 w.active ≡ none)
    × (handle_event (ports_with done_frame) limits 7 (later w) ≡ later w)
unfolding handle_event turns
finished_stays_gone_example =
    finished_stays_gone (ports_with done_frame) limits 7 (with_entry (attached_at 1000))
      (attached_at 1000) done_frame done 1000 (watch ∷ event 7 ∷ []) (refl, refl, tt) (omega arith)
      refl refl refl refl refl (omega arith, (omega arith, tt)) (omega arith)

abbrev failed_frame : Hash
failed_frame = frame failed (codes "0.0") 1

failed_placeholder_stays_example :
    let v = handle_event (ports_with failed_frame) limits 7 (with_entry (attached_at 1000)) in
    (get_row 7 v.active ≡ none)
    × (count
          (is_about (attached_at 1000))
          (ticks (ports_with failed_frame) limits (attached_at 1000) 9 v).calls
        ≡ count (is_about (attached_at 1000)) v.calls)
unfolding handle_event
failed_placeholder_stays_example =
    failed_placeholder_stays (ports_with failed_frame) limits (attached_at 1000) 7
      (with_entry (attached_at 1000)) failed_frame 0 9 (refl, refl, tt) tt (omega arith) refl refl
      refl

-- The job has been silent for 700 ms, and shows that its link is analysed.
abbrev analysed : ActiveJob
analysed = record (attached_at 1300) {
  last_stage = some analyzing;
  last_caption = stage_phrase analyzing;
}

abbrev analyzing_frame : Hash
analyzing_frame = frame analyzing (codes "0.0") 1

stale_notice_stays_example :
    (handle_event
      (ports_with analyzing_frame)
      limits
      7
      (watchdog_tick (ports_with analyzing_frame) limits (with_entry analysed))).calls
    ≡ edit_text (natural 5) (natural 9) stale_caption ∷ []
unfolding watchdog_tick frame_of render_caption
stale_notice_stays_example =
    stale_notice_stays (ports_with analyzing_frame) limits 7 (with_entry analysed) analysed
      analyzing_frame analyzing 0 refl refl refl refl (omega arith) (omega arith) refl (omega arith)
      refl refl refl refl
