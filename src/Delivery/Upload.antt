-- ===== src/Delivery/Upload.antt =====
-- `DeliveryService._upload_one_with_retry`: the direct upload with its retries in place.
use dwtgbot.Base.{
  ℕ, zero, suc, ◌+◌, Bool, ◌||◌, Option, none, some, [], ◌∷◌, Text, ltb, leb, max, if◌then◌else◌,
}
use dwtgbot.Errors.{
  Exc, exc, other, delivery_transient, delivery_rejected, is_instance, Outcome, returned, raised,
}
use dwtgbot.Exec.{pure, raise, try_, ◌>>=◌, ◌>>◌}
use dwtgbot.Jobs.Entity.{MediaKind}
use dwtgbot.World.Values.{Keyboard, upload_tried, sent_media, slept}
use dwtgbot.World.Ports.{Ports}
use dwtgbot.World.Actions.{Action, call, emit}

abbrev pub upload_retry_attempts : ℕ
upload_retry_attempts = 3

-- Waits are in thousandths of a second.
abbrev pub upload_retry_backoff_ms : ℕ
upload_retry_backoff_ms = 3000

abbrev pub retry_after_cap_ms : ℕ
retry_after_cap_ms = 60000

abbrev pub is_upload_error : Exc → Bool
is_upload_error e = is_instance e.cls (delivery_transient ∷ delivery_rejected ∷ [])

-- `exc.retry_after_s or 0.0` of a transient error, else 0.
abbrev pub asked_wait : Exc → ℕ
asked_wait e =
    if is_instance e.cls (delivery_transient ∷ [])
    then elim (e.retry_after_ms) [ none ↦ 0 | some ms ↦ ms ]
    else 0

-- The test before `raise`.
abbrev pub gives_up : ℕ → Exc → Bool
gives_up attempt e = leb upload_retry_attempts attempt || ltb retry_after_cap_ms (asked_wait e)

module _ (p : Ports) where
  -- `_upload_one`, with the method that the kind selects.
  unfoldable pub upload_one : ℕ → Text → MediaKind → Option Text → Keyboard → Action (Option Text)
  upload_one chat file kind caption markup = do
    emit (upload_tried chat file kind)
    id ← call (λ n. p.send_media n kind chat file caption markup)
    emit (sent_media chat file kind)
    pure id

  -- What follows one attempt, with the rest of the loop.
  unfoldable pub after_upload :
      ℕ → Action (Option Text) → Outcome (Option Text) → Action (Option Text)
  after_upload attempt again (returned id) = pure id
  after_upload attempt again (raised e) =
      if is_upload_error e
      then if gives_up attempt e
        then raise e
        else (emit (slept (max upload_retry_backoff_ms (asked_wait e))) >> again)
      else raise e

  -- The loop `for attempt in range(1, attempts + 1)`, by the rounds left; after the last round
  -- stands an assertion that is never reached.
  unfoldable pub upload_loop :
      ℕ → ℕ → ℕ → Text → MediaKind → Option Text → Keyboard → Action (Option Text)
  unfolding upload_one after_upload
  upload_loop zero attempt chat file kind caption markup = raise (exc other [])
  upload_loop (suc rounds) attempt chat file kind caption markup =
      let again = upload_loop rounds (attempt + 1) chat file kind caption markup in
      try_ (upload_one chat file kind caption markup) >>= after_upload attempt again

  unfoldable pub upload_one_with_retry :
      ℕ → Text → MediaKind → Option Text → Keyboard → Action (Option Text)
  unfolding upload_loop
  upload_one_with_retry chat file kind caption markup =
      upload_loop (max 1 upload_retry_attempts) 1 chat file kind caption markup
