-- ===== src/Errors/Classes.antt =====
-- The classes of app/exceptions.py, and the builtin classes that app/domain/reason_class.py tests.
use dwtgbot.Base.{ℕ, Bool, true, false, Option, none, some, List, [], ◌∷◌, Text, codes, ◌==◌, any}

-- One constructor for each class; `value`, `lookup`, `timeout` and `connection` are Python's
-- `ValueError`, `LookupError`, `TimeoutError` and `ConnectionError`, and `other` is any class that
-- no test of the program names.
pub data ErrorClass : Type 0 where
  app config invalid_url unsupported_platform provider media_not_found media_private : ErrorClass
  download download_timeout file_too_large size_unknown ffmpeg storage : ErrorClass
  job_concurrent_update temp_link_expired temp_link_exhausted too_many_jobs : ErrorClass
  upstream_unavailable delivery delivery_transient delivery_rejected : ErrorClass
  recipient_unavailable job_cancelled timeout connection lookup value other : ErrorClass

abbrev pub tag : ErrorClass → ℕ
tag app = 0
tag config = 1
tag invalid_url = 2
tag unsupported_platform = 3
tag provider = 4
tag media_not_found = 5
tag media_private = 6
tag download = 7
tag download_timeout = 8
tag file_too_large = 9
tag size_unknown = 10
tag ffmpeg = 11
tag storage = 12
tag job_concurrent_update = 13
tag temp_link_expired = 14
tag temp_link_exhausted = 15
tag too_many_jobs = 16
tag upstream_unavailable = 17
tag delivery = 18
tag delivery_transient = 19
tag delivery_rejected = 20
tag recipient_unavailable = 21
tag job_cancelled = 22
tag timeout = 23
tag connection = 24
tag lookup = 25
tag value = 26
tag other = 27

abbrev pub same_class : ErrorClass → ErrorClass → Bool
same_class a b = tag a == tag b

-- `cls.__mro__`, without `Exception` and what stands above it: no test names those.
abbrev pub mro : ErrorClass → List ErrorClass
mro app = app ∷ []
mro config = config ∷ app ∷ []
mro invalid_url = invalid_url ∷ app ∷ []
mro unsupported_platform = unsupported_platform ∷ app ∷ []
mro provider = provider ∷ app ∷ []
mro media_not_found = media_not_found ∷ provider ∷ app ∷ []
mro media_private = media_private ∷ provider ∷ app ∷ []
mro download = download ∷ app ∷ []
mro download_timeout = download_timeout ∷ download ∷ app ∷ []
mro file_too_large = file_too_large ∷ download ∷ app ∷ []
mro size_unknown = size_unknown ∷ download ∷ app ∷ []
mro ffmpeg = ffmpeg ∷ download ∷ app ∷ []
mro storage = storage ∷ app ∷ []
mro job_concurrent_update = job_concurrent_update ∷ app ∷ []
mro temp_link_expired = temp_link_expired ∷ app ∷ []
mro temp_link_exhausted = temp_link_exhausted ∷ app ∷ []
mro too_many_jobs = too_many_jobs ∷ app ∷ []
mro upstream_unavailable = upstream_unavailable ∷ download ∷ app ∷ []
mro delivery = delivery ∷ app ∷ []
mro delivery_transient = delivery_transient ∷ delivery ∷ app ∷ []
mro delivery_rejected = delivery_rejected ∷ delivery ∷ app ∷ []
mro recipient_unavailable = recipient_unavailable ∷ delivery ∷ app ∷ []
mro job_cancelled = job_cancelled ∷ app ∷ []
mro timeout = timeout ∷ []
mro connection = connection ∷ []
mro lookup = lookup ∷ []
mro value = value ∷ []
mro other = other ∷ []

-- `isinstance(exc, classes)` for an exception of class `c`.
abbrev pub is_instance : ErrorClass → List ErrorClass → Bool
is_instance c classes = any (λ k. any (same_class k) classes) (mro c)

-- The flag where a class body sets it.
abbrev pub own_is_retryable : ErrorClass → Option Bool
own_is_retryable app = some false
own_is_retryable provider = some true
own_is_retryable media_not_found = some false
own_is_retryable media_private = some false
own_is_retryable download = some true
own_is_retryable download_timeout = some false
own_is_retryable file_too_large = some false
own_is_retryable size_unknown = some false
own_is_retryable ffmpeg = some false
own_is_retryable job_concurrent_update = some true
own_is_retryable delivery_transient = some true
own_is_retryable delivery_rejected = some false
own_is_retryable recipient_unavailable = some false
own_is_retryable job_cancelled = some false
own_is_retryable _ = none

-- Attribute lookup: the first class of the MRO that sets it.
abbrev pub inherited : {A : Type 0} → (ErrorClass → Option A) → A → List ErrorClass → A
inherited own d [] = d
inherited own d (c ∷ cs) = elim (own c) [ some a ↦ a | none ↦ inherited own d cs ]

-- `exc.is_retryable`; no class outside `AppError` has the attribute, and the code asks only there.
abbrev pub is_retryable : ErrorClass → Bool
is_retryable c = inherited own_is_retryable false (mro c)

-- The `user_message` that a class body sets.
abbrev pub own_user_message : ErrorClass → Option Text
own_user_message app = some (codes "Что-то пошло не так. Попробуйте позже.")
own_user_message config = some (codes "Сервис временно недоступен (ошибка конфигурации).")
own_user_message invalid_url = some (codes "Это не похоже на ссылку. Пришлите URL целиком.")
own_user_message unsupported_platform = some (codes "Эту площадку я пока не поддерживаю.")
own_user_message provider = some (codes "Не удалось получить информацию о медиа.")
own_user_message media_not_found = some (codes "Медиа не найдено или удалено.")
own_user_message media_private = some (codes "Контент приватный или требует авторизации.")
own_user_message download = some (codes "Не удалось скачать файл. Попробуйте ещё раз.")
own_user_message download_timeout = some (codes "Скачивание заняло слишком много времени.")
own_user_message file_too_large = some (codes "Файл слишком большой даже для временной ссылки.")
own_user_message size_unknown =
    some (codes "Не удалось заранее определить размер файла. Попробуйте другую ссылку.")
own_user_message ffmpeg = some (codes "Не удалось обработать медиа.")
own_user_message storage = some (codes "Ошибка хранилища.")
own_user_message job_concurrent_update =
    some (codes "Задача обновлялась параллельно. Попробуйте ещё раз.")
own_user_message temp_link_expired = some (codes "Ссылка устарела.")
own_user_message temp_link_exhausted = some (codes "Лимит скачиваний по этой ссылке исчерпан.")
own_user_message too_many_jobs = some (
    codes
      "Сейчас у вас уже выполняется несколько задач. Дождитесь их завершения и попробуйте снова.")
own_user_message upstream_unavailable =
    some (codes "Источник временно ограничивает скачивание. Попробуйте через несколько минут.")
own_user_message delivery = some (codes "Не удалось отправить файл в Telegram. Попробуйте позже.")
own_user_message delivery_rejected =
    some (codes "Telegram не принял файл. Попробуйте другое качество или другую ссылку.")
own_user_message recipient_unavailable = some (codes "Не удалось отправить сообщение в этот чат.")
own_user_message job_cancelled = some (codes "Отменено.")
own_user_message _ = none

-- An exception: its class, `str(exc)`, the `user_message` that the constructor was given, and the
-- `retry_after_s` of a `DeliveryTransientError`, in thousandths of a second.
pub record Exc : Type 0 where
  pub cls : ErrorClass
  pub message : Text
  pub given_user_message : Option Text
  pub retry_after_ms : Option ℕ

abbrev pub exc : ErrorClass → Text → Exc
exc c m = record { cls = c; message = m; given_user_message = none; retry_after_ms = none }

-- `exc.user_message`: the instance's own, else the class's.
abbrev pub user_message : Exc → Text
user_message e = elim (e.given_user_message) [
  | some m ↦ m
  | none ↦ inherited own_user_message [] (mro e.cls)
]
