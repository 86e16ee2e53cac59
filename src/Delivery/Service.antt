-- ===== src/Delivery/Service.antt =====
-- `DeliveryService.deliver`: direct upload, gallery file by file, or a temporary link.
use dwtgbot.Base.{
  ℕ, ◌+◌, ◌/◌, Bool, true, false, ◌&&◌, Option, none, some, List, [], ◌∷◌, ◌++◌, Text, codes,
  decimal, is_empty, ltb, leb, length, if◌then◌else◌,
}
use dwtgbot.Errors.{exc, other, storage, file_too_large, returned, raised}
use dwtgbot.Exec.{pure, raise, try_, ◌>>=◌, ◌>>◌}
use dwtgbot.Jobs.Entity.{telegram_upload, temp_link}
use dwtgbot.Links.Entity.{TempLink}
use dwtgbot.Links
use dwtgbot.World.Values.{
  url_button, callback_button, Keyboard, DownloadResult, DeliveryOutcome, sent_text,
}
use dwtgbot.World.Ports.{Ports, Settings}
use dwtgbot.World.Actions.{Action, call, emit, now, on_links}
use dwtgbot.Delivery.Format.{escape, format_size, caption, file_name, infer_kind}
use dwtgbot.Delivery.Upload.{upload_one_with_retry}

abbrev pub max_individual_files : ℕ
max_individual_files = 10

-- `self._post_text_callback_data`: the wire form that `PostTextCallback` decodes.
unfoldable pub post_text_callback_data : ℕ → Text
unfolding decimal
post_text_callback_data job_id = codes "pt|" ++ decimal job_id

-- `primary_file_id or fid`: an empty id counts as none.
abbrev pub or_id : Option Text → Option Text → Option Text
or_id none b = b
or_id (some []) b = b
or_id (some (c ∷ s)) b = some (c ∷ s)

module _ (p : Ports) (s : Settings) where
  -- `LocalStorage.assert_under_max`.
  unfoldable pub assert_under_max : ℕ → Action (Unit {0})
  unfolding decimal
  assert_under_max size =
      if ltb s.max_file_size_bytes size
      then raise (
          exc storage (
            codes "Result size "
            ++ (decimal size
                ++ (codes " exceeds MAX_FILE_SIZE_MB ("
                    ++ (decimal (s.max_file_size_bytes / 1024 / 1024) ++ codes " MB)")))))
      else pure tt

  -- `_post_text_markup`; a failing store means no button.
  unfoldable pub post_text_markup : ℕ → Action Keyboard
  unfolding post_text_callback_data
  post_text_markup job_id =
      if s.has_post_text
      then (do
        r ← try_ (call (λ n. p.post_text_exists n job_id))
        pure (elim r [
          | returned true ↦
              (callback_button (codes "Получить текст поста 👇") (post_text_callback_data job_id)
                ∷ [])
              ∷ []
          | returned false ↦ []
          | raised _ ↦ []
        ]))
      else pure []

  -- `TempLinkService.issue`.
  unfoldable pub issue : ℕ → Text → Action (TempLink × Text)
  unfolding on_links now call
  issue job_id file_path = do
    token ← call (λ n. returned (p.token_urlsafe n))
    at ← now p
    made ← now p
    created ← on_links p (λ t l.
        Links.Repo.create t
          (record {
            id = none;
            columns = record {
              token = token;
              job_id = job_id;
              file_path = file_path;
              expires_at = at + s.temp_link_ttl_seconds;
              max_downloads = s.temp_link_max_downloads;
              downloads_count = 0;
              is_active = true;
              created_at = made;
              updated_at = made;
            };
          })
          l)
    pure (created, s.public_base_url ++ (codes "/d/" ++ token))

  -- The lines of the message, with the footer where there is one.
  abbrev link_message : Text → ℕ → Text
  link_message file size =
      let base =
        codes "📦 <b>"
        ++ (escape (file_name file)
            ++ (codes "</b>\nФайл слишком большой для Telegram ("
                ++ (format_size size
                    ++ codes
                        ").\nСсылка действует ограниченное время и фиксированное число скачиваний."))) in
      if is_empty s.brand_footer then base else base ++ (codes "\n\n" ++ escape s.brand_footer)

  -- `_deliver_via_link`; the download button goes on top of the keyboard.
  unfoldable pub deliver_via_link : ℕ → ℕ → Text → Keyboard → Action DeliveryOutcome
  unfolding issue call escape file_name format_size
  deliver_via_link job_id chat file markup = do
    size ← call (λ n. p.file_size n file)
    if ltb s.max_file_size_bytes size
        then raise (
            exc file_too_large
              (codes "File " ++ (file_name file ++ codes " exceeds MAX_FILE_SIZE_MB")))
        else (do
          (_, url) ← issue job_id file
          let rows = (url_button (codes "📥 Скачать") url ∷ []) ∷ markup
          call (λ n. p.send_text n chat (link_message file size) rows)
          emit (sent_text chat (link_message file size) rows)
          pure (record {
            method = temp_link;
            public_url = some url;
            primary_telegram_file_id = none;
            delivered_path = file;
            file_size = size;
          }))

  -- `all(f.stat().st_size <= max_tg for f in files)`, which stops at the first large file.
  unfoldable pub small_each : List Text → Action Bool
  unfolding call
  small_each [] = pure true
  small_each (f ∷ fs) =
      let rest = small_each fs in
      do
        size ← call (λ n. p.file_size n f)
        if leb size s.telegram_max_upload_bytes then rest else pure false

  -- The loop over the files of a gallery; the size is read once more for the log.
  unfoldable pub send_each : ℕ → List Text → Option Text → Action (Option Text)
  unfolding upload_one_with_retry infer_kind call
  send_each chat [] primary = pure primary
  send_each chat (f ∷ fs) primary = do
    call (λ n. p.file_size n f)
    id ← upload_one_with_retry p chat f (infer_kind f) none []
    send_each chat fs (or_id primary id)

  unfoldable pub deliver_single : ℕ → ℕ → DownloadResult → Text → Keyboard → Action DeliveryOutcome
  unfolding deliver_via_link upload_one_with_retry caption call
  deliver_single job_id chat r file markup = do
    size ← call (λ n. p.file_size n file)
    if leb size s.telegram_max_upload_bytes
        then (do
          id ←
              upload_one_with_retry p chat file r.kind (some (caption r size s.brand_footer)) markup
          pure (record {
            method = telegram_upload;
            public_url = none;
            primary_telegram_file_id = id;
            delivered_path = file;
            file_size = size;
          }))
        else deliver_via_link job_id chat file markup

  unfoldable pub deliver_gallery : ℕ → DownloadResult → Text → Keyboard → Action DeliveryOutcome
  unfolding send_each caption call
  deliver_gallery chat r first markup = do
    id ← send_each chat r.files none
    call (λ n. p.send_text n chat (caption r r.total_size_bytes s.brand_footer) markup)
    emit (sent_text chat (caption r r.total_size_bytes s.brand_footer) markup)
    pure (record {
      method = telegram_upload;
      public_url = none;
      primary_telegram_file_id = id;
      delivered_path = first;
      file_size = r.total_size_bytes;
    })

  unfoldable pub deliver_zip : ℕ → ℕ → DownloadResult → Keyboard → Action DeliveryOutcome
  unfolding deliver_via_link call
  deliver_zip job_id chat r markup = do
    zip ← call (λ n. p.package_zip n r.files job_id r.title)
    deliver_via_link job_id chat zip markup

  -- The choice between the three ways. With no file at all the gallery loop sends nothing, its
  -- summary goes out, and `files[0]` is an `IndexError`.
  unfoldable pub by_files : ℕ → ℕ → DownloadResult → List Text → Keyboard → Action DeliveryOutcome
  by_files job_id chat r (file ∷ []) markup = deliver_single job_id chat r file markup
  by_files job_id chat r [] markup =
      deliver_gallery chat r [] markup >> raise (exc other (codes "list index out of range"))
  by_files job_id chat r (file ∷ more) markup = do
    small ← small_each (file ∷ more)
    if small && leb (length (file ∷ more)) max_individual_files
        then deliver_gallery chat r file markup
        else deliver_zip job_id chat r markup

  unfoldable pub deliver : ℕ → ℕ → DownloadResult → Action DeliveryOutcome
  unfolding assert_under_max post_text_markup by_files
  deliver job_id chat r = do
    assert_under_max r.total_size_bytes
    markup ← post_text_markup job_id
    by_files job_id chat r r.files markup
