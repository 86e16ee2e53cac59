-- ===== src/Sender/Errors.antt =====
-- `_delivery_errors` of app/infrastructure/telegram/sender.py. The classes of the Telegram library
-- with what the translation reads of an instance; a wait is in thousandths of a second.
use dwtgbot.Base.{ℕ, some, Text}
use dwtgbot.Errors.{
  Exc, exc, delivery_transient, delivery_rejected, recipient_unavailable, Outcome, returned, raised,
}

-- What a call of the library raises: a class under `TelegramError`, or another exception.
-- `BadRequest`, `TimedOut` and the base stand under `NetworkError`.
pub data TelegramClass : Type 0 where
  retry_after_error forbidden chat_migrated bad_request timed_out network_error other_error :
      TelegramClass

pub data Raised : Type 0 where
  telegram_raised : TelegramClass → Text → ℕ → Raised
  foreign_raised : Exc → Raised

abbrev transient_after : Text → ℕ → Exc
transient_after message wait_ms = record (exc delivery_transient message) {
  retry_after_ms = some wait_ms;
}

-- The clauses in their order; `BadRequest` comes before the `TelegramError` that stands above it.
unfoldable pub delivery_error : Raised → Exc
delivery_error (foreign_raised e) = e
delivery_error (telegram_raised retry_after_error message wait_ms) = transient_after message wait_ms
delivery_error (telegram_raised forbidden message _) = exc recipient_unavailable message
delivery_error (telegram_raised chat_migrated message _) = exc recipient_unavailable message
delivery_error (telegram_raised bad_request message _) = exc delivery_rejected message
delivery_error (telegram_raised timed_out message _) = exc delivery_transient message
delivery_error (telegram_raised network_error message _) = exc delivery_transient message
delivery_error (telegram_raised other_error message _) = exc delivery_transient message

-- How a call of the library ends.
pub data CallEnd {ℓ} (A : Type ℓ) : Type ℓ where
  answered : A → CallEnd A
  failed_with : Raised → CallEnd A

-- `with _delivery_errors():` around a call.
unfoldable pub translated {ℓ} : {A : Type ℓ} → CallEnd A → Outcome A
unfolding delivery_error
translated (answered a) = returned a
translated (failed_with r) = raised (delivery_error r)
