-- ===== src/Sender/Calls.antt =====
-- `TelegramSender` and `_to_markup` of app/infrastructure/telegram/sender.py.
use dwtgbot.Base.{
  ℕ, suc, Bool, true, false, not, Option, none, some, List, [], ◌∷◌, Text, is_empty, map,
}
use dwtgbot.Errors.{Outcome, returned, raised}
use dwtgbot.World.Values.{Button, url_button, callback_button, Keyboard}
use dwtgbot.Sender.Errors.{CallEnd, translated}
use dwtgbot.Sender.Probe.{VideoMeta, ProbeRun, probe_video}

-- `InlineKeyboardButton`: exactly one of the two is set.
pub record PtbButton : Type 0 where
  pub text : Text
  pub url : Option Text
  pub callback_data : Option Text

abbrev pub to_button : Button → PtbButton
to_button (url_button text url) = record { text = text; url = some url; callback_data = none }
to_button (callback_button text data_) = record {
  text = text;
  url = none;
  callback_data = some data_;
}

-- `_to_markup`.
unfoldable pub to_markup : Option Keyboard → Option (List (List PtbButton))
to_markup none = none
to_markup (some rows) = some (map (map to_button) rows)

pub data MediaMethod : Type 0 where
  video_method audio_method photo_method document_method : MediaMethod

-- The arguments of a call of `telegram.Bot`. `html` is `parse_mode`, set or not; `data` is what was
-- read of the file, and a video has what was probed.
pub record MessageCall : Type 0 where
  pub chat_id : ℕ
  pub text : Text
  pub html : Bool
  pub preview_disabled : Bool
  pub markup : Option (List (List PtbButton))

pub record MediaCall : Type 0 where
  pub method : MediaMethod
  pub chat_id : ℕ
  pub data_ : List ℕ
  pub filename : Text
  pub caption : Option Text
  pub html : Bool
  pub probed : Option VideoMeta
  pub markup : Option (List (List PtbButton))

-- What the answer has: the video, the audio or the document, or the photo in its sizes.
pub data SentMessage : Type 0 where
  with_file : Option Text → SentMessage
  with_photos : List Text → SentMessage

-- The library and the file system, asked at a moment.
pub record SenderPorts : Type 0 where
  pub send_message : ℕ → MessageCall → CallEnd (Unit {0})
  pub send_media : ℕ → MediaCall → CallEnd SentMessage
  pub ffprobe : ℕ → Text → ProbeRun
  pub read_bytes : ℕ → Text → Outcome (List ℕ)
  pub name : Text → Text

abbrev last_photo : List Text → Option Text
last_photo [] = none
last_photo (a ∷ []) = some a
last_photo (a ∷ b ∷ r) = last_photo (b ∷ r)

-- `msg.video.file_id if msg.video else None`, and `msg.photo[-1].file_id` for a photo.
unfoldable pub file_id : SentMessage → Option Text
file_id (with_file id) = id
file_id (with_photos sizes) = last_photo sizes

-- `ParseMode.HTML if caption else None`.
abbrev pub has_caption : Option Text → Bool
has_caption none = false
has_caption (some caption) = not (is_empty caption)

abbrev pub id_of : Outcome SentMessage → Outcome (Option Text)
id_of (returned m) = returned (file_id m)
id_of (raised e) = raised e

module _ (p : SenderPorts) where
  unfoldable pub send_text : ℕ → ℕ → Text → Option Keyboard → Bool → Outcome (Unit {0})
  unfolding to_markup translated
  send_text n chat_id text reply_markup disable_web_page_preview = translated (
      p.send_message n (record {
        chat_id = chat_id;
        text = text;
        html = true;
        preview_disabled = disable_web_page_preview;
        markup = to_markup reply_markup;
      }))

  -- The file that was read goes out; an unreadable one raises as it is.
  unfoldable pub send_read :
      ℕ
      → MediaMethod
      → Option VideoMeta
      → ℕ
      → Text
      → Option Text
      → Option Keyboard
      → Outcome (List ℕ)
      → Outcome (Option Text)
  unfolding to_markup translated file_id
  send_read n method probed chat_id file_path caption reply_markup (raised e) = raised e
  send_read n method probed chat_id file_path caption reply_markup (returned data_) = id_of (
      translated (
        p.send_media n (record {
          method = method;
          chat_id = chat_id;
          data_ = data_;
          filename = p.name file_path;
          caption = caption;
          html = has_caption caption;
          probed = probed;
          markup = to_markup reply_markup;
        })))

  -- The probe comes first, then the reading, then the call.
  unfoldable pub send_video : ℕ → ℕ → Text → Option Text → Option Keyboard → Outcome (Option Text)
  unfolding send_read probe_video
  send_video n chat_id file_path caption reply_markup =
      send_read (suc (suc n)) video_method (some (probe_video (p.ffprobe n file_path))) chat_id
        file_path caption reply_markup (p.read_bytes (suc n) file_path)

  unfoldable pub send_audio : ℕ → ℕ → Text → Option Text → Option Keyboard → Outcome (Option Text)
  unfolding send_read
  send_audio n chat_id file_path caption reply_markup =
      send_read (suc n) audio_method none chat_id file_path caption reply_markup
        (p.read_bytes n file_path)

  unfoldable pub send_photo : ℕ → ℕ → Text → Option Text → Option Keyboard → Outcome (Option Text)
  unfolding send_read
  send_photo n chat_id file_path caption reply_markup =
      send_read (suc n) photo_method none chat_id file_path caption reply_markup
        (p.read_bytes n file_path)

  unfoldable pub send_document :
      ℕ → ℕ → Text → Option Text → Option Keyboard → Outcome (Option Text)
  unfolding send_read
  send_document n chat_id file_path caption reply_markup =
      send_read (suc n) document_method none chat_id file_path caption reply_markup
        (p.read_bytes n file_path)
