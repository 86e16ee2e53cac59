-- ===== src/Delivery/Frame.antt =====
-- Delivery leaves the jobs table alone.
use dwtgbot.Base.{ℕ, zero, suc, ◌+◌, ◌≡◌, Option, List, [], ◌∷◌, Text, arith}
use dwtgbot.Errors.{Outcome, returned, raised}
use dwtgbot.Exec.Keeps.{
  Keeps, keeps_rules, Keeps-pure, Keeps-bind, Keeps-try_, Keeps-option, Keeps-result,
}
use dwtgbot.Jobs.Entity.{MediaKind}
use dwtgbot.Jobs.Repo.{JobsTable}
use dwtgbot.Links.Repo.{LinksTable}
use dwtgbot.World.Values.{Event, Keyboard, DownloadResult}
use dwtgbot.World.Ports.{Ports, Settings, World}
use dwtgbot.World.Actions.{Action, emit, call, now, on_links}
use dwtgbot.Delivery.Upload.{
  upload_retry_attempts, upload_one, after_upload, upload_loop, upload_one_with_retry,
}
use dwtgbot.Delivery.Service.{
  assert_under_max, post_text_markup, issue, deliver_via_link, small_each, send_each,
  deliver_single, deliver_gallery, deliver_zip, by_files, deliver,
}

-- The jobs table is `t`.
abbrev pub JobsAre : JobsTable → World → Type 0
JobsAre t w = w.jobs ≡ t

module _ (t : JobsTable) where
  pub emit-frame : (e : Event) → Keeps (JobsAre t) (emit e)
  unfolding emit
  emit-frame e = record { at = λ w h. h }

  pub call-frame : {A : Type 0} (f : ℕ → Outcome A) → Keeps (JobsAre t) (call f)
  unfolding call
  call-frame f = record { at = λ w h. h }

  pub now-frame : (p : Ports) → Keeps (JobsAre t) (now p)
  unfolding now
  now-frame p = record { at = λ w h. h }

  pub on_links-frame :
      {A : Type 0} (p : Ports) (op : ℕ → LinksTable → Outcome A × LinksTable)
      → Keeps (JobsAre t) (on_links p op)
  unfolding on_links
  on_links-frame p op = record { at = λ w h. ground arith }

  pub ruleset frame_rules = (keeps_rules, emit-frame, call-frame, now-frame, on_links-frame)

  module _ (p : Ports) where
    pub upload_one-frame :
        (chat : ℕ) (file : Text) (kind : MediaKind) (caption : Option Text) (markup : Keyboard)
        → Keeps (JobsAre t) (upload_one p chat file kind caption markup)
    unfolding upload_one
    upload_one-frame chat file kind caption markup = search frame_rules

    after_upload-frame :
        (attempt : ℕ) (again : Action (Option Text)) (r : Outcome (Option Text))
        → Keeps (JobsAre t) again
        → Keeps (JobsAre t) (after_upload p attempt again r)
    unfolding after_upload
    after_upload-frame attempt again (returned id) h = Keeps-pure id
    after_upload-frame attempt again (raised e) h = search frame_rules

    upload_loop-step :
        (rounds attempt chat : ℕ) (file : Text) (kind : MediaKind) (caption : Option Text)
        (markup : Keyboard)
        → Keeps (JobsAre t) (upload_loop p rounds (attempt + 1) chat file kind caption markup)
        → Keeps (JobsAre t) (upload_loop p (suc rounds) attempt chat file kind caption markup)
    unfolding upload_loop
    upload_loop-step rounds attempt chat file kind caption markup again =
        Keeps-bind _ _ (Keeps-try_ _ (upload_one-frame chat file kind caption markup))
          λ r. after_upload-frame attempt _ r again

    pub upload_loop-frame :
        (rounds attempt chat : ℕ) (file : Text) (kind : MediaKind) (caption : Option Text)
        (markup : Keyboard)
        → Keeps (JobsAre t) (upload_loop p rounds attempt chat file kind caption markup)
    unfolding upload_loop
    upload_loop-frame zero attempt chat file kind caption markup = search frame_rules
    upload_loop-frame (suc rounds) attempt chat file kind caption markup =
        upload_loop-step rounds attempt chat file kind caption markup
          (upload_loop-frame rounds (attempt + 1) chat file kind caption markup)

    pub upload_one_with_retry-frame :
        (chat : ℕ) (file : Text) (kind : MediaKind) (caption : Option Text) (markup : Keyboard)
        → Keeps (JobsAre t) (upload_one_with_retry p chat file kind caption markup)
    unfolding upload_one_with_retry
    upload_one_with_retry-frame chat file kind caption markup =
        upload_loop-frame upload_retry_attempts 1 chat file kind caption markup

    module _ (s : Settings) where
      pub post_text_markup-frame : (job_id : ℕ) → Keeps (JobsAre t) (post_text_markup p s job_id)
      unfolding post_text_markup
      post_text_markup-frame job_id = search frame_rules

      pub issue-frame : (job_id : ℕ) (file : Text) → Keeps (JobsAre t) (issue p s job_id file)
      unfolding issue
      issue-frame job_id file = search frame_rules depth 12

      pub deliver_via_link-frame :
          (job_id chat : ℕ) (file : Text) (markup : Keyboard)
          → Keeps (JobsAre t) (deliver_via_link p s job_id chat file markup)
      unfolding deliver_via_link
      deliver_via_link-frame job_id chat file markup = search (frame_rules, issue-frame) depth 12

      small_each-step :
          (f : Text) (fs : List Text)
          → Keeps (JobsAre t) (small_each p s fs)
          → Keeps (JobsAre t) (small_each p s (f ∷ fs))
      unfolding small_each
      small_each-step f fs rest = search frame_rules

      pub small_each-frame : (files : List Text) → Keeps (JobsAre t) (small_each p s files)
      unfolding small_each
      small_each-frame [] = search frame_rules
      small_each-frame (f ∷ fs) = small_each-step f fs (small_each-frame fs)

      pub send_each-frame :
          (chat : ℕ) (files : List Text) (primary : Option Text)
          → Keeps (JobsAre t) (send_each p s chat files primary)
      unfolding send_each
      send_each-frame chat [] primary = search frame_rules
      send_each-frame chat (f ∷ fs) primary =
          search (frame_rules, upload_one_with_retry-frame, send_each-frame chat fs)

      pub deliver_single-frame :
          (job_id chat : ℕ) (r : DownloadResult) (file : Text) (markup : Keyboard)
          → Keeps (JobsAre t) (deliver_single p s job_id chat r file markup)
      unfolding deliver_single
      deliver_single-frame job_id chat r file markup =
          search (frame_rules, upload_one_with_retry-frame, deliver_via_link-frame)

      pub deliver_gallery-frame :
          (chat : ℕ) (r : DownloadResult) (first : Text) (markup : Keyboard)
          → Keeps (JobsAre t) (deliver_gallery p s chat r first markup)
      unfolding deliver_gallery
      deliver_gallery-frame chat r first markup = search (frame_rules, send_each-frame) depth 9

      pub deliver_zip-frame :
          (job_id chat : ℕ) (r : DownloadResult) (markup : Keyboard)
          → Keeps (JobsAre t) (deliver_zip p s job_id chat r markup)
      unfolding deliver_zip
      deliver_zip-frame job_id chat r markup = search (frame_rules, deliver_via_link-frame)

      by_files-frame :
          (job_id chat : ℕ) (r : DownloadResult) (files : List Text) (markup : Keyboard)
          → Keeps (JobsAre t) (by_files p s job_id chat r files markup)
      unfolding by_files
      by_files-frame job_id chat r [] markup = search (frame_rules, deliver_gallery-frame)
      by_files-frame job_id chat r (f ∷ []) markup = deliver_single-frame job_id chat r f markup
      by_files-frame job_id chat r (f ∷ g ∷ more) markup =
          search (frame_rules, small_each-frame, deliver_gallery-frame, deliver_zip-frame)

      pub deliver-frame :
          (job_id chat : ℕ) (r : DownloadResult) → Keeps (JobsAre t) (deliver p s job_id chat r)
      unfolding deliver assert_under_max
      deliver-frame job_id chat r = search (frame_rules, post_text_markup-frame, by_files-frame)
