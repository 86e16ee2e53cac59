-- ===== src/Process/Frame.antt =====
-- The phases before the row is written leave the jobs table alone.
use dwtgbot.Base.{ℕ, Option, none, some, Text, arith}
use dwtgbot.Errors.{Outcome, returned, raised}
use dwtgbot.Exec.{pure}
use dwtgbot.Exec.Keeps.{Keeps, Keeps-pure, Keeps-raise, Keeps-option}
use dwtgbot.Jobs.Entity.{DownloadJob, Platform, video, MediaKind}
use dwtgbot.Jobs.Repo.{JobsTable}
use dwtgbot.World.Values.{progress, ProgressStage, MediaInfo, DownloadOption, DeliveredRecord}
use dwtgbot.World.Ports.{Ports, Settings}
use dwtgbot.World.Actions.{Action}
use dwtgbot.Delivery.Frame.{JobsAre, frame_rules, emit-frame, deliver-frame}
use dwtgbot.Process.Store.{when_id}
use dwtgbot.Process.Phases.{
  emit_progress, no_space, assert_free_space, check_cancel, cached_record, cached_info, probed,
  resolve_pre_download_size, reject_estimate, reject_if_estimate_exceeds_cap, analyze, download,
  ledger_record, when_ledger, deliver_phases, info_or_ask, or_gone,
}

module _ (t : JobsTable) where
  pub when_id-frame :
      (job : DownloadJob) (f : ℕ → Action (Unit {0}))
      → ((k : ℕ) → Keeps (JobsAre t) (f k))
      → Keeps (JobsAre t) (when_id job f)
  when_id-frame job f h = Keeps-option job.id (pure tt) f (Keeps-pure tt) h

  emit_progress-frame :
      (job : DownloadJob) (percent : ℕ) (stage : ProgressStage)
      → Keeps (JobsAre t) (emit_progress job percent stage)
  unfolding emit_progress
  emit_progress-frame job percent stage =
      when_id-frame job _ (λ k. emit-frame t (progress k percent stage))

  module _ (p : Ports) (s : Settings) where
    no_space-frame : (n : ℕ) (free : Option ℕ) → Keeps (JobsAre t) (no_space p s n free)
    unfolding no_space
    no_space-frame n none = search frame_rules
    no_space-frame n (some free) = search frame_rules

    assert_free_space-frame : Keeps (JobsAre t) (assert_free_space p s)
    unfolding assert_free_space
    assert_free_space-frame = search (frame_rules, no_space-frame)

    check_cancel-frame : (job : DownloadJob) → Keeps (JobsAre t) (check_cancel p s job)
    unfolding check_cancel
    check_cancel-frame job = Keeps-option job.id _ _ (Keeps-pure tt) (λ k. search frame_rules)

    cached_record-frame :
        (platform : Platform) (r : Outcome (Option Text))
        → Keeps (JobsAre t) (cached_record p s platform r)
    unfolding cached_record
    cached_record-frame platform (raised e) = search frame_rules
    cached_record-frame platform (returned none) = search frame_rules
    cached_record-frame platform (returned (some row)) = search frame_rules

    cached_info-frame : (job : DownloadJob) → Keeps (JobsAre t) (cached_info p s job)
    unfolding cached_info
    cached_info-frame job = search (frame_rules, cached_record-frame)

    probed-kind :
        (kind : MediaKind) (m n : Action (Option ℕ))
        → Keeps (JobsAre t) m
        → Keeps (JobsAre t) n
        → Keeps (JobsAre t) (elim kind [ video ↦ m | _ ↦ n ])
    probed-kind video m n km kn = km
    probed-kind _ m n km kn = kn

    probed-frame :
        (option : DownloadOption) (r : Option ℕ) → Keeps (JobsAre t) (probed p s option r)
    unfolding probed
    probed-frame option (some size) = search frame_rules
    probed-frame option none = probed-kind option.kind _ _ (Keeps-raise _) (Keeps-pure none)

    resolve-frame :
        (job : DownloadJob) (info : MediaInfo) (option : DownloadOption)
        → Keeps (JobsAre t) (resolve_pre_download_size p s job info option)
    unfolding resolve_pre_download_size
    resolve-frame job info option =
        Keeps-option option.estimated_size_bytes _ _ (search (frame_rules, probed-frame))
          (λ n. Keeps-pure _)

    estimate-frame : (n : Option ℕ) → Keeps (JobsAre t) (reject_estimate p s n)
    unfolding reject_estimate
    estimate-frame none = search frame_rules
    estimate-frame (some n) = search frame_rules

    reject-frame :
        (option : DownloadOption) (n : Option ℕ)
        → Keeps (JobsAre t) (reject_if_estimate_exceeds_cap p s option n)
    unfolding reject_if_estimate_exceeds_cap
    reject-frame option none = estimate-frame option.estimated_size_bytes
    reject-frame option (some n) = estimate-frame (some n)

    ask-frame :
        (job : DownloadJob) (o : Option MediaInfo) → Keeps (JobsAre t) (info_or_ask p s job o)
    ask-frame job none = search frame_rules
    ask-frame job (some info) = search frame_rules

    gone-frame :
        (job : DownloadJob) (o : Option DownloadOption) → Keeps (JobsAre t) (or_gone p s job o)
    gone-frame job none = search frame_rules
    gone-frame job (some option) = search frame_rules

    analyze-frame : (job : DownloadJob) → Keeps (JobsAre t) (analyze p s job)
    unfolding analyze
    analyze-frame job =
        search (frame_rules, cached_info-frame, ask-frame, gone-frame, resolve-frame, reject-frame)
          depth 12

    download-frame :
        (job : DownloadJob) (info : MediaInfo) (option : DownloadOption)
        → Keeps (JobsAre t) (download p s job info option)
    unfolding download
    download-frame job info option = search frame_rules

    ledger_record-frame : (k : ℕ) (d : DeliveredRecord) → Keeps (JobsAre t) (ledger_record p s k d)
    unfolding ledger_record
    ledger_record-frame k d = record { at = λ w h. ground arith }

    when_ledger-frame :
        (job : DownloadJob) (d : DeliveredRecord)
        → Keeps (JobsAre t) (when_ledger p s job (λ k. ledger_record p s k d))
    when_ledger-frame job d = search (frame_rules, when_id-frame, ledger_record-frame)

    -- Nothing that a run does before it completes touches the jobs table.
    pub deliver_phases-frame : (job : DownloadJob) → Keeps (JobsAre t) (deliver_phases p s job)
    unfolding deliver_phases
    deliver_phases-frame job =
        search
          (
            frame_rules, assert_free_space-frame, emit_progress-frame, check_cancel-frame,
            analyze-frame, download-frame, deliver-frame, when_ledger-frame,
          )
          depth 20
