-- ===== src/Delivery/Retries.antt =====
-- The bounds of the upload's retries in place (app/application/services/delivery_service.py).
use dwtgbot.Base.{
  ℕ, zero, suc, ◌+◌, ltb, ◌||◌, ◌≤◌, ◌≡◌, refl, inl, inr, Bool, Bool-cases, true, false, Option,
  ◌∷◌, Text, arith, max, count,
}
use dwtgbot.Errors.{Exc, Outcome, returned, raised}
use dwtgbot.Jobs.Entity.{MediaKind}
use dwtgbot.World.Values.{Keyboard, Event, upload_tried, sent_media, slept}
use dwtgbot.World.Ports.{Ports, World}
use dwtgbot.World.Actions.{Action}
use dwtgbot.Exec.{◌>>=◌, ◌>>◌, pure, try_}
use dwtgbot.World.Actions.{call, emit}
use dwtgbot.Delivery.Upload.{
  upload_retry_attempts, is_upload_error, asked_wait, gives_up, upload_one, after_upload,
  upload_retry_backoff_ms, upload_loop, upload_one_with_retry,
}

-- The calls that upload a file, and those of them that Telegram answered with a message.
abbrev is_tried : Event → Bool
is_tried (upload_tried _ _ _) = true
is_tried _ = false

abbrev is_confirmed : Event → Bool
is_confirmed (sent_media _ _ _) = true
is_confirmed _ = false

-- The waits, and those of them that are shorter than 2 s or longer than 60 s.
abbrev is_wait : Event → Bool
is_wait (slept _) = true
is_wait _ = false

abbrev is_odd_wait : Event → Bool
is_odd_wait (slept ms) = ltb ms 2000 || ltb 60000 ms
is_odd_wait _ = false

abbrev uploads_of : {A : Type 0} → Outcome A → ℕ
uploads_of (returned _) = 1
uploads_of (raised _) = 0

-- One call and at most this many more, one wait for each of those, none shorter or longer than the
-- bounds, and one confirmed upload where a file id (or its absence) is returned.
abbrev pub IsBounded : ℕ → {A : Type 0} → Outcome A → World → World → Type 0
IsBounded more r w w' =
    (count is_tried w.log + 1 ≤ count is_tried w'.log)
    × (count is_tried w'.log ≤ count is_tried w.log + 1 + more)
    × (count is_wait w'.log + count is_tried w.log + 1
        ≡ count is_wait w.log + count is_tried w'.log)
    × (count is_odd_wait w'.log ≡ count is_odd_wait w.log)
    × (count is_confirmed w'.log ≡ count is_confirmed w.log + uploads_of r)
    × (w'.jobs ≡ w.jobs)
    × (w'.links ≡ w.links)

-- The same of what follows the first call, which gave `r`.
abbrev IsAfter : ℕ → {A : Type 0} → Outcome A → World → Outcome A → World → Type 0
IsAfter more r v o w' =
    (count is_tried v.log ≤ count is_tried w'.log)
    × (count is_tried w'.log ≤ count is_tried v.log + more)
    × (count is_wait w'.log + count is_tried v.log ≡ count is_wait v.log + count is_tried w'.log)
    × (count is_odd_wait w'.log ≡ count is_odd_wait v.log)
    × (count is_confirmed w'.log + uploads_of r ≡ count is_confirmed v.log + uploads_of o)
    × (w'.jobs ≡ v.jobs)
    × (w'.links ≡ v.links)

wait_capped :
    (attempt : ℕ) (e : Exc)
    → gives_up attempt e ≡ false
    → is_odd_wait (slept (max upload_retry_backoff_ms (asked_wait e))) ≡ false
wait_capped attempt e h = ground arith

last_gives_up :
    (attempt : ℕ) (e : Exc) → attempt ≡ upload_retry_attempts → gives_up attempt e ≡ true
last_gives_up attempt e h = ground arith

module _ (p : Ports) where
  -- One attempt takes one call and waits for nothing.
  one-IsBounded :
      (chat : ℕ) (file : Text) (kind : MediaKind) (caption : Option Text) (markup : Keyboard)
      (w : World)
      → let (r, w') = upload_one p chat file kind caption markup w in IsBounded 0 r w w'
  unfolding upload_one ◌>>=◌ call emit
  one-IsBounded chat file kind caption markup w =
      sent (p.send_media w.moment kind chat file caption markup)
    where
      sent :
          (o : Outcome (Option Text))
          → let (r, w') =
              (do
                emit (upload_tried chat file kind)
                id ← call (λ _. o)
                emit (sent_media chat file kind)
                pure id)
                w in
            IsBounded 0 r w w'
      sent (returned id) = ground arith
      sent (raised e) = ground arith

  after_upload-IsAfter :
      (more attempt : ℕ) (again : Action (Option Text)) (r : Outcome (Option Text)) (v : World)
      → suc more + attempt ≡ upload_retry_attempts
      → ((u : World) → let (o, w') = again u in IsBounded more o u w')
      → let (o, w') = after_upload p attempt again r v in IsAfter (suc more) r v o w'
  unfolding after_upload ◌>>=◌ emit
  after_upload-IsAfter more attempt again (returned id) v h ih = ground arith
  after_upload-IsAfter more attempt again (raised e) v h ih =
      elim (Bool-cases (is_upload_error e)) [
        | inr passed ↦ rw passed (ground arith)
        | inl caught ↦ elim (Bool-cases (gives_up attempt e)) [
          | inl stop ↦ rw (caught, stop) (ground arith)
          | inr on ↦
              let ms = max upload_retry_backoff_ms (asked_wait e) in
              rw (caught, on)
                (ground (arith, ih (record v { log = slept ms ∷ v.log }), wait_capped attempt e on))
        ]
      ]

  last_upload-IsAfter :
      (attempt : ℕ) (again : Action (Option Text)) (r : Outcome (Option Text)) (v : World)
      → attempt ≡ upload_retry_attempts
      → let (o, w') = after_upload p attempt again r v in IsAfter 0 r v o w'
  unfolding after_upload
  last_upload-IsAfter attempt again (returned id) v h = ground arith
  last_upload-IsAfter attempt again (raised e) v h = elim (Bool-cases (is_upload_error e)) [
    | inr passed ↦ rw passed (ground arith)
    | inl caught ↦ rw (caught, last_gives_up attempt e h) (ground arith)
  ]

  loop-IsBounded :
      (more attempt chat : ℕ) (file : Text) (kind : MediaKind) (caption : Option Text)
      (markup : Keyboard) (w : World)
      → more + attempt ≡ upload_retry_attempts
      → let (r, w') = upload_loop p (suc more) attempt chat file kind caption markup w in
        IsBounded more r w w'
  unfolding upload_loop ◌>>=◌ try_
  loop-IsBounded zero attempt chat file kind caption markup w h =
      let (r, v) = upload_one p chat file kind caption markup w in
      let again = upload_loop p 0 (attempt + 1) chat file kind caption markup in
      ground (
        arith,
        one-IsBounded chat file kind caption markup w,
        last_upload-IsAfter attempt again r v (omega arith),
      )
  loop-IsBounded (suc more) attempt chat file kind caption markup w h =
      let (r, v) = upload_one p chat file kind caption markup w in
      let again = upload_loop p (suc more) (attempt + 1) chat file kind caption markup in
      let ih = loop-IsBounded more (attempt + 1) chat file kind caption markup in
      ground (
        arith,
        one-IsBounded chat file kind caption markup w,
        after_upload-IsAfter more attempt again r v h (λ u. ih u (omega arith)),
      )

-- A direct upload tries at least one and at most three calls of Telegram, waits once for each try
-- after the first, never less than 2 s or more than 60 s at a time, leaves both tables alone, and
-- has exactly one call answered with a message where it returns and none where it raises.
pub upload_one_with_retry-IsBounded :
    (p : Ports) (chat : ℕ) (file : Text) (kind : MediaKind) (caption : Option Text)
    (markup : Keyboard) (w : World)
    → let (r, w') = upload_one_with_retry p chat file kind caption markup w in IsBounded 2 r w w'
unfolding upload_one_with_retry
upload_one_with_retry-IsBounded p chat file kind caption markup w =
    loop-IsBounded p 2 1 chat file kind caption markup w refl
