-- ===== src/Utils/Urls.antt =====
-- app/utils/url.py.
use dwtgbot.Base.{
  ℕ, ◌+◌, ◌-◌, ◌≡◌, refl, arith, Bool, false, not, ◌&&◌, ◌||◌, Option, none, some, List, [], ◌∷◌,
  ◌++◌, Text, codes, text_eq, is_empty, ◌==◌, leb, any, drop, length, if◌then◌else◌,
}
use dwtgbot.Strings.Trim.{is_space}
use dwtgbot.Errors.{Outcome}

-- The parts of a `urllib.parse.urlparse` result that the module reads.
pub record ParsedUrl : Type 0 where
  pub scheme : Text
  pub netloc : Text
  pub hostname : Option Text

-- The standard library's parser, whose `ValueError` is told by its message, and `str.lower`.
pub record UrlParser : Type 0 where
  pub urlparse : Text → Outcome ParsedUrl
  pub lower : Text → Text

abbrev pub youtube_hosts : List Text
youtube_hosts =
    codes "youtube.com"
    ∷ codes "www.youtube.com"
    ∷ codes "m.youtube.com"
    ∷ codes "music.youtube.com"
    ∷ codes "youtu.be"
    ∷ []

abbrev pub instagram_hosts : List Text
instagram_hosts = codes "instagram.com" ∷ codes "www.instagram.com" ∷ codes "m.instagram.com" ∷ []

abbrev pub allowed_host_suffixes : List Text
allowed_host_suffixes =
    codes "youtube.com"
    ∷ codes "youtu.be"
    ∷ codes "googlevideo.com"
    ∷ codes "ytimg.com"
    ∷ codes "ggpht.com"
    ∷ codes "instagram.com"
    ∷ codes "cdninstagram.com"
    ∷ codes "fbcdn.net"
    ∷ []

-- `host in hosts`.
abbrev pub listed : List Text → Text → Bool
listed hosts host = any (text_eq host) hosts

-- `s.endswith(t)`.
unfoldable pub ends_with : Text → Text → Bool
ends_with t s = leb (length t) (length s) && text_eq (drop (length s - length t) s) t

-- `s.rstrip(".")`.
unfoldable pub rstrip_dots : Text → Text
rstrip_dots [] = []
rstrip_dots (c ∷ s) =
    let rest = rstrip_dots s in if c == b'.' && is_empty rest then [] else c ∷ rest

-- The characters that `_URL_RE` takes after the two slashes.
abbrev is_url_char : ℕ → Bool
is_url_char c = not (is_space c || (c == b'<' || (c == b'>' || c == b'"')))

unfoldable url_chars : Text → Text
url_chars [] = []
url_chars (c ∷ s) = let rest = url_chars s in if is_url_char c then c ∷ rest else []

abbrev at_least_one : Text → Option Text
at_least_one [] = none
at_least_one (c ∷ s) = some (c ∷ s)

-- A letter of the pattern without regard to case: the long s counts as an `s`.
abbrev letter : ℕ → ℕ → Bool
letter l c = c == l || (c + 32 == l || (l == b's' && c == 0x17f))

-- The first characters of the text, each by its test, and what follows them.
unfoldable after_tests : List (ℕ → Bool) → Text → Option (Text × Text)
after_tests [] s = some ([], s)
after_tests (t ∷ ts) [] = none
after_tests (t ∷ ts) (c ∷ s) =
    if t c
    then elim (after_tests ts s) [ none ↦ none | some (taken, rest) ↦ some (c ∷ taken, rest) ]
    else none

abbrev http_tests : List (ℕ → Bool) → List (ℕ → Bool)
http_tests more = letter b'h' ∷ letter b't' ∷ letter b't' ∷ letter b'p' ∷ more

abbrev slash_tests : List (ℕ → Bool)
slash_tests = (λ c. c == b':') ∷ (λ c. c == b'/') ∷ (λ c. c == b'/') ∷ []

unfoldable with_rest : Option (Text × Text) → Option Text
unfolding url_chars
with_rest none = none
with_rest (some (taken, rest)) = elim (at_least_one (url_chars rest)) [
  | none ↦ none
  | some more ↦ some (taken ++ more)
]

-- `_URL_RE.match` at this place, and `.search`.
unfoldable url_here : Text → Option Text
unfolding after_tests with_rest
url_here s = elim (with_rest (after_tests (http_tests (letter b's' ∷ slash_tests)) s)) [
  | some url ↦ some url
  | none ↦ with_rest (after_tests (http_tests slash_tests) s)
]

unfoldable pub extract_first_url : Text → Option Text
unfolding url_here
extract_first_url [] = none
extract_first_url (c ∷ s) = elim (url_here (c ∷ s)) [
  | some url ↦ some url
  | none ↦ extract_first_url s
]

append_nonempty : (s : Text) (c : ℕ) (t : Text) → is_empty (s ++ (c ∷ t)) ≡ false
append_nonempty [] c t = refl
append_nonempty (x ∷ s) c t = refl

some_nonempty :
    (taken : Text) (o : Option Text) (url more : Text)
    → o ≡ at_least_one more
    → elim o [ none ↦ none | some m ↦ some (taken ++ m) ] ≡ some url
    → is_empty url ≡ false
some_nonempty taken none url more e h = absurd (cc)
some_nonempty taken (some []) url [] e h = absurd (cc)
some_nonempty taken (some []) url (c ∷ s) e h = absurd (cc)
some_nonempty taken (some (c ∷ s)) url more e h = ground (arith, h, append_nonempty taken c s)

with_rest_nonempty :
    (o : Option (Text × Text)) (url : Text) → with_rest o ≡ some url → is_empty url ≡ false
unfolding with_rest
with_rest_nonempty none url h = absurd (cc)
with_rest_nonempty (some (taken, rest)) url h =
    some_nonempty taken (at_least_one (url_chars rest)) url (url_chars rest) refl h

either_nonempty :
    (a b : Option Text) (url : Text)
    → ((v : Text) → a ≡ some v → is_empty v ≡ false)
    → ((v : Text) → b ≡ some v → is_empty v ≡ false)
    → elim a [ some v ↦ some v | none ↦ b ] ≡ some url
    → is_empty url ≡ false
either_nonempty none b url ha hb h = hb url h
either_nonempty (some v) b url ha hb h = ha url h

-- What the search finds is never empty.
pub extract_first_url_nonempty :
    (text url : Text) → extract_first_url text ≡ some url → is_empty url ≡ false
unfolding extract_first_url url_here
extract_first_url_nonempty [] url h = absurd (cc)
extract_first_url_nonempty (c ∷ s) url h =
    either_nonempty (url_here (c ∷ s)) (extract_first_url s) url
      (λ v.
        let secure = after_tests (http_tests (letter b's' ∷ slash_tests)) (c ∷ s) in
        let plain = after_tests (http_tests slash_tests) (c ∷ s) in
        either_nonempty (with_rest secure) (with_rest plain) v (with_rest_nonempty secure)
          (with_rest_nonempty plain))
      (extract_first_url_nonempty s) h
