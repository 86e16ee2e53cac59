-- ===== src/Bot/Instant.antt =====
-- What `handle_link` of app/bot/handlers/links.py enqueues.
use dwtgbot.Base.{
  ℕ, suc, ◌≡◌, refl, ap, ◌⊎◌, inl, inr, Bool, true, false, not, ◌&&◌, some, List, [], ◌∷◌, ◌++◌,
  Text, codes, decimal, is_empty, if-keeps, if◌then◌else◌,
}
use dwtgbot.Errors.{Outcome, returned, raised}
use dwtgbot.Exec.{pure, try_, continue, ◌>>=◌}
use dwtgbot.Exec.Keeps.{Keeps}
use dwtgbot.World.Values.{DownloadOption}
use dwtgbot.Limits.Window.{LimitDecision}
use dwtgbot.Bot.State.{
  Analysis, Effect, typing, reply_text, BotState, BotPorts, BotAction, act, ask,
}
use dwtgbot.Bot.Analysis.{analyze_link}
use dwtgbot.Bot.Link.{
  tell, IncomingMessage, domain_in, format_user_message, is_youtube, handle_instant_download,
  offer_options, on_options, after_analysis, admitted_link, denied_link, limited_link, handle_link,
}
use dwtgbot.Bot.Silent.{instants, InstantsAre, bot_rules, analyze_link-silent, offer_options-silent}
use dwtgbot.Bot.Placed.{OneInstant, handle_instant_download-AtMostOne}

module _ (n : ℕ) (p : BotPorts) where
  -- At most one download, and that only where the instant flow is on.
  abbrev pub IsSparing : BotState → Type 0
  IsSparing w = (instants w ≡ n) ⊎ ((p.instant_enabled ≡ true) × OneInstant n p w)

  silent-IsSparing :
      {A : Type 0} (m : BotAction A) (w : BotState)
      → Keeps (InstantsAre n) m
      → instants w ≡ n
      → IsSparing (m w).1
  silent-IsSparing m w kept h = inl (kept.at w h)

  on_options-IsSparing :
      (result : Analysis) (options : List DownloadOption) (w : BotState)
      → instants w ≡ n
      → IsSparing (on_options p result options w).1
  unfolding on_options
  on_options-IsSparing result [] w h = silent-IsSparing (_ >>= λ _. pure tt) w (search bot_rules) h
  on_options-IsSparing result (_ ∷ _) w h =
      by_flow p.instant_enabled (is_youtube result.analyzed.info.platform) refl
    where
      by_flow :
          (b y : Bool)
          → p.instant_enabled ≡ b
          → IsSparing
              ((if b && not y
                  then handle_instant_download p result.analyzed
                  else offer_options p result)
                w).1
      by_flow true false on = elim (handle_instant_download-AtMostOne n p result.analyzed w h) [
        | inl none_ ↦ inl none_
        | inr one ↦ inr (on, one)
      ]
      by_flow true true on = inl ((offer_options-silent n p result).at w h)
      by_flow false y on = inl ((offer_options-silent n p result).at w h)

  after_analysis-IsSparing :
      (r : Outcome Analysis) (w : BotState) → instants w ≡ n → IsSparing (after_analysis p r w).1
  unfolding after_analysis
  after_analysis-IsSparing (raised e) w h =
      silent-IsSparing (_ >>= λ _. pure tt) w (search bot_rules) h
  after_analysis-IsSparing (returned result) w h =
      on_options-IsSparing result result.analyzed.options w h

  -- A silent part, and what follows on any of its answers.
  then-IsSparing :
      {A B : Type 0} (m : BotAction A) (next : A → BotAction B) (w : BotState)
      → Keeps (InstantsAre n) m
      → ((a : A) (v : BotState) → instants v ≡ n → IsSparing (next a v).1)
      → instants w ≡ n
      → IsSparing ((m >>= next) w).1
  unfolding ◌>>=◌
  then-IsSparing m next w kept after h = by_answer (m w).0 (m w).1 (kept.at w h)
    where
      by_answer : (r : Outcome _) (v : BotState) → instants v ≡ n → IsSparing (continue r next v).1
      by_answer (returned a) v h = after a v h
      by_answer (raised e) v h = inl h

  admitted_link-IsSparing :
      (text : Text) (w : BotState) → instants w ≡ n → IsSparing (admitted_link p text w).1
  unfolding admitted_link
  admitted_link-IsSparing text w h =
      then-IsSparing (tell p typing) _ w (search bot_rules)
        (λ _ v hv.
          then-IsSparing (try_ (analyze_link p text)) (after_analysis p) v
            (search (bot_rules, analyze_link-silent n p)) after_analysis-IsSparing hv)
        h

module _ (p : BotPorts) where
  -- Nothing, or one text reply.
  abbrev pub IsReplyAtMost : Text → BotState → BotState → Type 0
  IsReplyAtMost text before after =
      (after.log ≡ before.log) ⊎ (after.log ≡ reply_text text ∷ before.log)

  told-IsReplyAtMost :
      (text : Text) (w v : BotState)
      → v.log ≡ w.log
      → IsReplyAtMost text w ((tell p (reply_text text) >>= λ _. pure tt) v).1
  unfolding act ◌>>=◌
  told-IsReplyAtMost text w v same = by_answer (p.telegram v.moment (reply_text text))
    where
      after : BotState
      after = record { log = reply_text text ∷ v.log; moment = suc v.moment }

      by_answer : (r : Outcome ℕ) → IsReplyAtMost text w (continue r (λ _. pure tt) after).1
      by_answer (returned _) = inr (ap (λ (l : List Effect). reply_text text ∷ l) same)
      by_answer (raised _) = inr (ap (λ (l : List Effect). reply_text text ∷ l) same)

  denied_link-IsReplyAtMost :
      (user_id : ℕ) (d : LimitDecision) (w v : BotState)
      → v.log ≡ w.log
      → IsReplyAtMost (format_user_message d) w (denied_link p user_id d v).1
  unfolding denied_link ask ◌>>=◌
  denied_link-IsReplyAtMost user_id d w v same =
      if-keeps
        (λ (m : BotAction (Unit {0})).
          IsReplyAtMost (format_user_message d) w
            (m (record { log = v.log; moment = suc v.moment })).1)
        (p.should_notify v.moment (codes "u:" ++ decimal user_id))
        (tell p (reply_text (format_user_message d)) >>= λ _. pure tt) (pure tt)
        (told-IsReplyAtMost (format_user_message d) w _ same) (inl same)

  -- A message with a user and a chat, whatever the ports answer. Either nothing goes out but the
  -- reply of the limits at most; or the limits allow it, and at most one download is enqueued, and
  -- that only where the instant flow is on and right behind a placeholder that Telegram took, under
  -- the placeholder's id.
  pub handle_link-IsSparing :
      (m : IncomingMessage) (w : BotState)
      → let d = p.evaluate w.moment m.user_id m.chat_id (domain_in p m.text) in
        let w' = (handle_link p (some m) w).1 in
        IsReplyAtMost (format_user_message d) w w'
        ⊎ ((d.allowed ≡ true) × IsSparing (instants w) p w')
  unfolding handle_link limited_link ask ◌>>=◌
  handle_link-IsSparing m w =
      if-keeps (λ (body : BotAction (Unit {0})). IsGood (body w).1) (is_empty m.text) (pure tt) _
        (inl (inl refl)) (by_limits d.allowed refl)
    where
      d : LimitDecision
      d = p.evaluate w.moment m.user_id m.chat_id (domain_in p m.text)

      asked : BotState
      asked = record { log = w.log; moment = suc w.moment }

      IsGood : BotState → Type 0
      IsGood w' =
          IsReplyAtMost (format_user_message d) w w'
          ⊎ ((d.allowed ≡ true) × IsSparing (instants w) p w')

      by_limits :
          (b : Bool)
          → d.allowed ≡ b
          → IsGood ((if b then admitted_link p m.text else denied_link p m.user_id d) asked).1
      by_limits true open_ = inr (open_, admitted_link-IsSparing (instants w) p m.text asked refl)
      by_limits false shut = inl (denied_link-IsReplyAtMost m.user_id d w asked refl)
