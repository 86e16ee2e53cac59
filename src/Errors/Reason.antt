-- ===== src/Errors/Reason.antt =====
-- app/domain/reason_class.py: the classification of failures for metrics and service levels.
use dwtgbot.Base.{false, ◌≡◌, refl, Option, none, some, List, [], ◌∷◌, any, if◌then◌else◌, arith}
use dwtgbot.Errors.Classes.{
  ErrorClass, app, config, invalid_url, unsupported_platform, provider, media_not_found,
  media_private, download, download_timeout, file_too_large, size_unknown, ffmpeg, storage,
  job_concurrent_update, temp_link_expired, temp_link_exhausted, too_many_jobs,
  upstream_unavailable, delivery, delivery_transient, delivery_rejected, recipient_unavailable,
  job_cancelled, timeout, connection, same_class, mro, is_instance, is_retryable,
}

pub data ReasonClass : Type 0 where
  ok user_error provider_error network_error internal_error : ReasonClass

abbrev pub user_error_types : List ErrorClass
user_error_types =
    invalid_url ∷ unsupported_platform ∷ media_not_found ∷ media_private ∷ too_many_jobs
    ∷ temp_link_expired ∷ temp_link_exhausted ∷ job_cancelled ∷ recipient_unavailable ∷ []

abbrev pub provider_error_types : List ErrorClass
provider_error_types = provider ∷ ffmpeg ∷ file_too_large ∷ size_unknown ∷ upstream_unavailable ∷ []

abbrev pub network_error_types : List ErrorClass
network_error_types = download_timeout ∷ delivery_transient ∷ timeout ∷ connection ∷ []

abbrev pub internal_error_types : List ErrorClass
internal_error_types = storage ∷ delivery_rejected ∷ delivery ∷ job_concurrent_update ∷ config ∷ []

abbrev pub fallback_bases : List ErrorClass
fallback_bases = app ∷ download ∷ []

unfoldable pub classify_exception : ErrorClass → ReasonClass
classify_exception c =
    if is_instance c user_error_types
    then user_error
    else if is_instance c network_error_types
    then network_error
    else if is_instance c provider_error_types
    then provider_error
    else if is_instance c internal_error_types
    then internal_error
    else if is_instance c (download ∷ app ∷ [])
    then provider_error
    else internal_error

-- What the tuples say of one class by itself.
abbrev pub listed_reason : ErrorClass → Option ReasonClass
listed_reason c =
    if any (same_class c) user_error_types
    then some user_error
    else if any (same_class c) network_error_types
    then some network_error
    else if any (same_class c) provider_error_types
    then some provider_error
    else if any (same_class c) internal_error_types
    then some internal_error
    else if any (same_class c) fallback_bases
    then some provider_error
    else none

-- The reason of the nearest ancestor that a tuple lists, an independent reading of the table.
abbrev pub nearest_reason : List ErrorClass → ReasonClass
nearest_reason [] = internal_error
nearest_reason (c ∷ cs) = elim (listed_reason c) [ some r ↦ r | none ↦ nearest_reason cs ]

-- For every exception class the order of the tests gives the reason of the most specific class of
-- its MRO that any tuple lists (`AppError` and `DownloadError` count as listed, for
-- `PROVIDER_ERROR`), and `INTERNAL_ERROR` where none is listed.
pub classify-nearest : (c : ErrorClass) → classify_exception c ≡ nearest_reason (mro c)
unfolding classify_exception
classify-nearest app = refl
classify-nearest _ = refl

-- An exception that is booked as the user's own error is never retried.
pub user_error_not_retried :
    (c : ErrorClass) → classify_exception c ≡ user_error → is_retryable c ≡ false
unfolding classify_exception
user_error_not_retried app h = cc
user_error_not_retried _ h = ground arith
