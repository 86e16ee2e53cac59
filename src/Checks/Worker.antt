-- ===== src/Checks/Worker.antt =====
-- A whole run of one job on concrete ports.
use dwtgbot.Base.{◌≡◌, refl, ◌⊎◌, inl, inr, none, some, [], ◌∷◌, codes, arith, count}
use dwtgbot.Errors.{Exc, returned}
use dwtgbot.Jobs.Entity.{pending, processing, telegram_upload, video}
use dwtgbot.Jobs.Repo.{get}
use dwtgbot.World.Values.{DeliveredRecord, replay_ignored}
use dwtgbot.World.Ports.{World}
use dwtgbot.World.Actions.{db_get}
use dwtgbot.Delivery.Upload.{upload_one_with_retry}
use dwtgbot.Delivery.Retries.{IsBounded, upload_one_with_retry-IsBounded}
use dwtgbot.Process.UseCase.{execute}
use dwtgbot.Process.Bodies.{Settled}
use dwtgbot.Process.Settles.{execute_settles}
use dwtgbot.Process.Task.{finished, aborted, run_tries}
use dwtgbot.Process.Ending.{IsOver, run_tries_settle}
use dwtgbot.Process.Silent.{is_upload}
use dwtgbot.Process.Redelivery.{redelivered_sends_nothing}
use dwtgbot.Process.Replays.{replay_does_nothing}
use dwtgbot.Checks.Data.{row, job_of, ports, settings, world}

execute_settles_example :
    Settled 1 (execute ports settings 1 1 world).0 (execute ports settings 1 1 world).1.jobs
execute_settles_example =
    execute_settles ports settings (λ _ _. refl) 1 1 (row 7 pending 50) world refl (inl refl)

run_tries_settle_example :
    let m = run_tries ports settings 3 1 3 1 in
    (((m world).0 ≡ returned finished) ⊎ ((e : Exc) × ((m world).0 ≡ returned (aborted e))))
    × IsOver 1 (m world).1.jobs
run_tries_settle_example =
    run_tries_settle ports settings (λ _ _. refl) (λ _. refl) 1 3 world (omega arith)
      (row 7 pending 50, refl, refl)

upload_one_with_retry-IsBounded_example :
    let (r, w') = upload_one_with_retry ports 900 (codes "/data/1/a.mp4") video none [] world in
    IsBounded 2 r world w'
upload_one_with_retry-IsBounded_example =
    upload_one_with_retry-IsBounded ports 900 (codes "/data/1/a.mp4") video none [] world

abbrev delivered : DeliveredRecord
delivered = record {
  method = telegram_upload;
  public_url = none;
  primary_telegram_file_id = some (codes "id");
  delivered_path = codes "/data/2/a.mp4";
  file_size = 1000;
  mime_type = none;
  title = codes "A clip";
  media_id = codes "x";
  selected_format = none;
}

-- Job 2 was sent by the attempt that died: its ledger entry is live.
abbrev sent_before : World
sent_before = record world { ledger = (2, (delivered, 9000)) ∷ [] }

redelivered_sends_nothing_example :
    count is_upload (execute ports settings 2 2 sent_before).1.log ≡ 0
unfolding db_get get
redelivered_sends_nothing_example =
    redelivered_sends_nothing ports settings (job_of 2 (row 8 processing 20)) 2 2 9000 delivered
      sent_before (omega arith) refl refl refl refl refl refl (omega arith)

replay_does_nothing_example :
    let w1 = (db_get ports 2 world).1 in
    execute ports settings 2 1 world
    ≡ (returned tt, record w1 { log = replay_ignored processing ∷ w1.log })
unfolding db_get get
replay_does_nothing_example =
    replay_does_nothing ports settings (job_of 2 (row 8 processing 20)) 2 1 world refl
      (inr (refl, omega arith))
