-- ===== src/Bot/Placed.antt =====
-- `_handle_instant_download` of app/bot/handlers/links.py: one download behind its placeholder.
use dwtgbot.Base.{
  ℕ, suc, ◌≡◌, refl, ap, ◌⊎◌, inl, inr, Bool, true, false, Option, none, some, List, [], ◌∷◌, ◌++◌,
  Text, is_empty, arith, count, if-keeps,
}
use dwtgbot.Errors.{Outcome, returned, raised}
use dwtgbot.Exec.{try_, continue, ◌>>=◌}
use dwtgbot.Exec.Keeps.{Keeps, keeps_rules}
use dwtgbot.Bot.State.{
  Analyzed, Effect, reply_text, reply_photo, enqueue_instant, BotState, BotPorts, BotAction, act,
}
use dwtgbot.Bot.Link.{
  analyze_caption, tell, text_placeholder, or_text_placeholder, edit_placeholder_text,
  send_placeholder, after_enqueue, enqueue_behind, handle_instant_download,
}
use dwtgbot.Bot.Silent.{is_instant, is_placeholder, instants}

module _ (n : ℕ) (p : BotPorts) where
  -- Where a placeholder is answered, it is the latest effect, and Telegram took it.
  abbrev Placed : Outcome (Option (ℕ × Bool)) → BotState → Type 0
  Placed (returned (some (id, _))) w =
      (k : ℕ) × (e : Effect) × (older : List Effect) × (w.log ≡ e ∷ older)
      × (is_placeholder e ≡ true)
      × (p.telegram k e ≡ returned id)
      × (count is_instant older ≡ n)
  Placed (returned none) w = instants w ≡ n
  Placed (raised _) w = instants w ≡ n

  -- One download was enqueued, right behind a placeholder that Telegram took under the id that
  -- the download carries.
  abbrev pub OneInstant : BotState → Type 0
  OneInstant w =
      (analyzed : Analyzed) × (k id : ℕ) × (e : Effect) × (newer older : List Effect) × (w.log
        ≡ newer ++ (enqueue_instant analyzed id ∷ (e ∷ older)))
      × (is_placeholder e ≡ true)
      × (p.telegram k e ≡ returned id)
      × (instants w ≡ suc n)

  text-Placed :
      (w : BotState) (r : Outcome ℕ)
      → instants w ≡ n
      → p.telegram w.moment (reply_text analyze_caption) ≡ r
      → Placed (text_placeholder p w).0 (text_placeholder p w).1
  unfolding act try_ ◌>>=◌
  text-Placed w (returned id) h e =
      rw e (w.moment, reply_text analyze_caption, w.log, refl, refl, e, h)
  text-Placed w (raised _) h e = rw e (omega (arith, h))

  photo-Placed :
      (url : Text) (w : BotState) (r : Outcome ℕ)
      → instants w ≡ n
      → p.telegram w.moment (reply_photo url analyze_caption) ≡ r
      → let body = try_ (tell p (reply_photo url analyze_caption)) >>= or_text_placeholder p in
        Placed (body w).0 (body w).1
  unfolding act try_ ◌>>=◌
  photo-Placed url w (returned id) h e =
      rw e (w.moment, reply_photo url analyze_caption, w.log, refl, refl, e, h)
  photo-Placed url w (raised _) h e = rw e (
      text-Placed (record { log = reply_photo url analyze_caption ∷ w.log; moment = suc w.moment })
        _ (omega (arith, h)) refl)

  send-Placed :
      (o : Option Text) (w : BotState)
      → instants w ≡ n
      → Placed (send_placeholder p o w).0 (send_placeholder p o w).1
  unfolding send_placeholder
  send-Placed none w h = text-Placed w _ h refl
  send-Placed (some url) w h =
      if-keeps (λ (m : BotAction (Option (ℕ × Bool))). Placed (m w).0 (m w).1) (is_empty url)
        (text_placeholder p) _ (text-Placed w _ h refl) (photo-Placed url w _ h refl)

  act-OneInstant :
      {A : Type 0} (e : Effect) (f : ℕ → Outcome A)
      → is_instant e ≡ false
      → Keeps OneInstant (act e f)
  unfolding act
  act-OneInstant e f quiet = record {
    at = λ w (a, k, id, e', newer, older, shape, placed, took, sum). (
      a,
      k,
      id,
      e',
      e ∷ newer,
      older,
      ap (λ (l : List Effect). e ∷ l) shape,
      placed,
      took,
      ground (arith, sum, quiet),
    );
  }

  ruleset one_rules = (keeps_rules, act-OneInstant)

  edit-OneInstant :
      (id : ℕ) (b : Bool) (text : Text) → Keeps OneInstant (edit_placeholder_text p id b text)
  unfolding edit_placeholder_text
  edit-OneInstant id b text = search one_rules

  after_enqueue-OneInstant :
      (id : ℕ) (b : Bool) (r : Outcome ℕ) → Keeps OneInstant (after_enqueue p id b r)
  after_enqueue-OneInstant id b (raised e) = search (one_rules, edit-OneInstant)
  after_enqueue-OneInstant id b (returned job_id) = search one_rules

  abbrev pub AtMostOne : BotState → Type 0
  AtMostOne w = (instants w ≡ n) ⊎ OneInstant w

  enqueue_behind-AtMostOne :
      (a : Analyzed) (r : Outcome (Option (ℕ × Bool))) (w : BotState)
      → Placed r w
      → AtMostOne (continue r (enqueue_behind p a) w).1
  unfolding enqueue_behind act try_ ◌>>=◌
  enqueue_behind-AtMostOne a (raised _) w h = inl h
  enqueue_behind-AtMostOne a (returned none) w h = inl h
  enqueue_behind-AtMostOne a (returned (some (id, b))) w (k, e, older, shape, placed, took, sum) =
      inr (
        (after_enqueue-OneInstant id b (p.auto_enqueue w.moment a id)).at
          (record { log = enqueue_instant a id ∷ w.log; moment = suc w.moment })
          (
            a,
            k,
            id,
            e,
            [],
            older,
            ap (λ (l : List Effect). enqueue_instant a id ∷ l) shape,
            placed,
            took,
            rw shape (counted e placed sum),
          ))
    where
      counted :
          (e : Effect)
          → is_placeholder e ≡ true
          → count is_instant older ≡ n
          → count is_instant (enqueue_instant a id ∷ (e ∷ older)) ≡ suc n
      counted e placed sum = ground (arith, placed, sum)

  pub handle_instant_download-AtMostOne :
      (a : Analyzed) (w : BotState) → instants w ≡ n → AtMostOne (handle_instant_download p a w).1
  unfolding handle_instant_download ◌>>=◌
  handle_instant_download-AtMostOne a w h =
      enqueue_behind-AtMostOne a (send_placeholder p a.info.thumbnail_url w).0
        (send_placeholder p a.info.thumbnail_url w).1 (send-Placed a.info.thumbnail_url w h)
