-- ===== src/Utils/Hosts.antt =====
-- How the three readers of a URL agree: the platform, the rate-limit domain and the allow-list.
use dwtgbot.Base.{
  ◌≡◌, refl, sym, Bool, true, false, not, ◌||◌, Option, none, some, List, [], ◌∷◌, Text, codes, all,
  is_empty, text_eq, text_eq→eq, ◌==◌, if◌then◌else◌, Bool-cases, inl, inr, arith, ap,
}
use mathlib.Core.Path.{subst}
use dwtgbot.Strings.Trim.{strip}
use dwtgbot.Strings.Cut.{before}
use dwtgbot.Errors.{Exc, Outcome, returned, raised}
use dwtgbot.Jobs.Entity.{Platform, youtube, instagram}
use dwtgbot.Utils.Urls.{
  ParsedUrl, UrlParser, youtube_hosts, instagram_hosts, listed, ends_with, rstrip_dots,
  extract_first_url, extract_first_url_nonempty,
}
use dwtgbot.Utils.Routing.{
  DetectedUrl, platform_of_host, domain_of_host, has_allowed_suffix, routed, detect_platform,
  domain_of, normalize_domain, allowed, is_allowed_host, url_in, with_platform, detected_in, detect,
}

-- No character that sets a user, a port, a zone or an address in brackets apart.
abbrev is_plain : Text → Bool
is_plain s = all (λ c. not (c == b'@' || (c == b':' || (c == b'[' || c == b'%')))) s

-- What `urllib.parse` and `str.lower` document: a network location without user, port, zone and
-- brackets is the host name in lower case, and lower case stays as it is.
pub record IsUrlParser (u : UrlParser) : Type 0 where
  pub hostname_plain :
      (url : Text) (parsed : ParsedUrl)
      → u.urlparse url ≡ returned parsed
      → is_plain (u.lower parsed.netloc) ≡ true
      → is_empty parsed.netloc ≡ false
      → parsed.hostname ≡ some (u.lower parsed.netloc)
  pub lower_twice : (s : Text) → u.lower (u.lower s) ≡ u.lower s

-- The limiter's domain of a platform.
abbrev pub platform_domain : Platform → Text
platform_domain youtube = codes "youtube.com"
platform_domain instagram = codes "instagram.com"

-- What holds of every host of a platform.
abbrev HostFacts : Platform → Text → Type 0
HostFacts platform host =
    (is_plain host ≡ true)
    × (before b':' host ≡ host)
    × (is_empty host ≡ false)
    × (domain_of_host host ≡ platform_domain platform)
    × (rstrip_dots host ≡ host)
    × (has_allowed_suffix host ≡ true)

abbrev Each : (Text → Type 0) → List Text → Type 0
Each P [] = Unit
Each P (h ∷ hs) = P h × Each P hs

listed-Each :
    (P : Text → Type 0) (hosts : List Text) (host : Text)
    → Each P hosts
    → listed hosts host ≡ true
    → P host
listed-Each P [] host each h = absurd (cc)
listed-Each P (k ∷ ks) host each h = elim (Bool-cases (text_eq host k)) [
  | inl e ↦ subst P (sym (text_eq→eq host k e)) each.0
  | inr e ↦ listed-Each P ks host each.1 (ground (arith, e, h))
]

youtube_facts : Each (HostFacts youtube) youtube_hosts
unfolding before rstrip_dots ends_with
youtube_facts = (
  (refl, refl, refl, refl, refl, refl),
  (
    (refl, refl, refl, refl, refl, refl),
    (
      (refl, refl, refl, refl, refl, refl),
      ((refl, refl, refl, refl, refl, refl), ((refl, refl, refl, refl, refl, refl), tt)),
    ),
  ),
)

instagram_facts : Each (HostFacts instagram) instagram_hosts
unfolding before rstrip_dots ends_with
instagram_facts = (
  (refl, refl, refl, refl, refl, refl),
  ((refl, refl, refl, refl, refl, refl), ((refl, refl, refl, refl, refl, refl), tt)),
)

facts_by :
    (a b : Bool) (platform : Platform) (host : Text) (e : Exc)
    → listed youtube_hosts host ≡ a
    → listed instagram_hosts host ≡ b
    → (if a then returned youtube else if b then returned instagram else raised e)
      ≡ returned platform
    → HostFacts platform host
facts_by true b youtube host e y i h =
    listed-Each (HostFacts youtube) youtube_hosts host youtube_facts y
facts_by true b instagram host e y i h = absurd (cc)
facts_by false true youtube host e y i h = absurd (cc)
facts_by false true instagram host e y i h =
    listed-Each (HostFacts instagram) instagram_hosts host instagram_facts i
facts_by false false platform host e y i h = absurd (cc)

platform_facts :
    (platform : Platform) (host : Text)
    → platform_of_host host ≡ returned platform
    → HostFacts platform host
platform_facts platform host h =
    facts_by (listed youtube_hosts host) (listed instagram_hosts host) platform host _ refl refl h

-- An accepted URL is one that the parser read, with a host of the platform.
routed_host :
    (u : UrlParser) (r : Outcome ParsedUrl) (platform : Platform)
    → routed u r ≡ returned platform
    → (parsed : ParsedUrl) × (r ≡ returned parsed)
      × (is_empty parsed.netloc ≡ false)
      × (platform_of_host (u.lower parsed.netloc) ≡ returned platform)
unfolding routed
routed_host u (raised e) platform h = absurd (cc)
routed_host u (returned parsed) platform h = (parsed, refl, ground (arith, h), ground (arith, h))

keys_agree :
    (u : UrlParser) (url : Text) (platform : Platform)
    → IsUrlParser u
    → is_empty url ≡ false
    → detect_platform u url ≡ returned platform
    → (normalize_domain u url ≡ some (platform_domain platform)) × (is_allowed_host u url ≡ true)
unfolding detect_platform normalize_domain domain_of is_allowed_host allowed
keys_agree u url platform parser full h =
    let (parsed, read, net, named) = routed_host u (u.urlparse url) platform h in
    let (plain, port, some_host, domain, dots, suffix) =
      platform_facts platform (u.lower parsed.netloc) named in
    let host = parser.hostname_plain url parsed read plain net in
    (
      rw (full, read, port, some_host, domain) refl,
      rw (full, read, host, parser.lower_twice parsed.netloc, dots, some_host) suffix,
    )

url_in_nonempty :
    (b : Bool) (candidate url : Text)
    → is_empty candidate ≡ false
    → (if b then some candidate else extract_first_url candidate) ≡ some url
    → is_empty url ≡ false
url_in_nonempty true candidate url full h = ground (arith, h, full)
url_in_nonempty false candidate url full h = extract_first_url_nonempty candidate url h

with_platform_inv :
    (candidate url : Text) (r : Outcome Platform) (d : DetectedUrl)
    → with_platform candidate url r ≡ returned d
    → (d.raw ≡ candidate) × (d.normalized ≡ url) × (r ≡ returned d.platform)
unfolding with_platform
with_platform_inv candidate url (raised e) d h = absurd (cc)
with_platform_inv candidate url (returned platform) d h = ground (arith, h)

detected :
    (u : UrlParser) (candidate : Text) (o : Option Text) (d : DetectedUrl)
    → detected_in u candidate o ≡ returned d
    → (o ≡ some d.normalized)
      × (d.raw ≡ candidate)
      × (detect_platform u d.normalized ≡ returned d.platform)
unfolding detected_in
detected u candidate none d h = absurd (cc)
detected u candidate (some url) d h =
    let (raw, url_eq, plat) = with_platform_inv candidate url (detect_platform u url) d h in
    (ap some (sym url_eq), raw, rw url_eq plat)

not_raised :
    (b : Bool) (e : Exc) (r : Outcome DetectedUrl) (d : DetectedUrl)
    → (if b then raised e else r) ≡ returned d
    → (b ≡ false) × (r ≡ returned d)
not_raised true e r d h = absurd (cc)
not_raised false e r d h = (refl, h)

-- A message in which `detect` finds a supported URL: `raw` is the message without the white space
-- at its ends, the URL's rate-limit domain is the platform's own, whichever of the platform's
-- hosts the URL names, and the allow-list of the downloader lets the URL pass.
pub detect-normalize_domain :
    (u : UrlParser) (text : Text) (d : DetectedUrl)
    → IsUrlParser u
    → detect u text ≡ returned d
    → (d.raw ≡ strip text)
      × (normalize_domain u d.normalized ≡ some (platform_domain d.platform))
      × (is_allowed_host u d.normalized ≡ true)
unfolding detect
detect-normalize_domain u text d parser h =
    let candidate = strip text in
    let (full, here) =
      not_raised (is_empty candidate) _ (detected_in u candidate (url_in candidate)) d h in
    let (found, raw, plat) = detected u candidate (url_in candidate) d here in
    let found_full = url_in_nonempty _ candidate d.normalized full found in
    let (domain, ok) = keys_agree u d.normalized d.platform parser found_full plat in
    (raw, domain, ok)
