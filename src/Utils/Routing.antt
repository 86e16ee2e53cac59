-- ===== src/Utils/Routing.antt =====
-- app/utils/url.py: the platform, the rate-limit domain and the allow-list of a URL.
use dwtgbot.Base.{
  Bool, false, ◌||◌, Option, none, some, [], ◌∷◌, ◌++◌, Text, codes, is_empty, starts_with, any,
  text_eq, drop, if◌then◌else◌,
}
use dwtgbot.Strings.Trim.{strip}
use dwtgbot.Strings.Cut.{before}
use dwtgbot.Errors.{exc, invalid_url, unsupported_platform, Outcome, returned, raised}
use dwtgbot.Jobs.Entity.{Platform, youtube, instagram}
use dwtgbot.Utils.Urls.{
  ParsedUrl, UrlParser, youtube_hosts, instagram_hosts, allowed_host_suffixes, listed, ends_with,
  rstrip_dots, extract_first_url,
}

-- `DetectedUrl`.
pub record DetectedUrl : Type 0 where
  pub raw : Text
  pub normalized : Text
  pub platform : Platform

abbrev pub platform_of_host : Text → Outcome Platform
platform_of_host host =
    if listed youtube_hosts host
    then returned youtube
    else if listed instagram_hosts host
    then returned instagram
    else raised (exc unsupported_platform (codes "Host not supported: " ++ host))

-- The limiter's name of a host that is not empty.
abbrev pub domain_of_host : Text → Text
domain_of_host host =
    if listed youtube_hosts host
    then codes "youtube.com"
    else if listed instagram_hosts host
    then codes "instagram.com"
    else if starts_with (codes "www.") host
    then drop 4 host
    else host

abbrev pub hostname_or_empty : Option Text → Text
hostname_or_empty none = []
hostname_or_empty (some host) = host

abbrev pub has_allowed_suffix : Text → Bool
has_allowed_suffix host =
    any (λ suffix. text_eq host suffix || ends_with (b'.' ∷ suffix) host) allowed_host_suffixes

abbrev pub url_in : Text → Option Text
url_in candidate =
    if starts_with (codes "http://") candidate || starts_with (codes "https://") candidate
    then some candidate
    else extract_first_url candidate

unfoldable pub with_platform : Text → Text → Outcome Platform → Outcome DetectedUrl
with_platform candidate url (raised e) = raised e
with_platform candidate url (returned platform) =
    returned (record { raw = candidate; normalized = url; platform = platform })

module _ (u : UrlParser) where
  unfoldable pub routed : Outcome ParsedUrl → Outcome Platform
  routed (raised e) = raised (exc invalid_url e.message)
  routed (returned parsed) =
      if is_empty parsed.scheme || is_empty parsed.netloc
      then raised (exc invalid_url (codes "URL is missing scheme or host"))
      else platform_of_host (u.lower parsed.netloc)

  unfoldable pub detect_platform : Text → Outcome Platform
  unfolding routed
  detect_platform url = routed (u.urlparse url)

  unfoldable pub domain_of : Outcome ParsedUrl → Option Text
  domain_of (raised e) = none
  domain_of (returned parsed) =
      let host = before b':' (u.lower parsed.netloc) in
      if is_empty host then none else some (domain_of_host host)

  unfoldable pub normalize_domain : Text → Option Text
  unfolding domain_of
  normalize_domain url = if is_empty url then none else domain_of (u.urlparse url)

  -- The host of a parsed URL that the allow-list looks at.
  abbrev pub allowed_host_of : ParsedUrl → Text
  allowed_host_of parsed = rstrip_dots (u.lower (hostname_or_empty parsed.hostname))

  unfoldable pub allowed : Outcome ParsedUrl → Bool
  allowed (raised e) = false
  allowed (returned parsed) =
      let host = allowed_host_of parsed in if is_empty host then false else has_allowed_suffix host

  unfoldable pub is_allowed_host : Text → Bool
  unfolding allowed
  is_allowed_host url = if is_empty url then false else allowed (u.urlparse url)

  unfoldable pub detected_in : Text → Option Text → Outcome DetectedUrl
  unfolding with_platform
  detected_in candidate none = raised (exc invalid_url (codes "No URL found in message"))
  detected_in candidate (some url) = with_platform candidate url (detect_platform url)

  unfoldable pub detect : Text → Outcome DetectedUrl
  unfolding detected_in
  detect url_or_text =
      let candidate = strip url_or_text in
      if is_empty candidate
      then raised (exc invalid_url (codes "Empty input"))
      else detected_in candidate (url_in candidate)
