-- ===== src/Checks/Bot.antt =====
-- What the bot runs: buttons, enqueued jobs, URLs and options.
use dwtgbot.Base.{ℕ, ◌≡◌, ◌≤◌, ◌<◌, ◌⊎◌, refl, true, none, some, [], ◌∷◌, codes, length, arith}
use dwtgbot.Errors.{provider, Exc, download, exc, connection, returned, raised}
use dwtgbot.Jobs.Entity.{youtube}
use dwtgbot.Checks.Data.{ports, world, choice, info}
use dwtgbot.Callbacks.Codec.{DownloadCallback, encode_download, decode_download, max_callback_len}
use dwtgbot.Callbacks.RoundTrip.{decode_download-encode}
use dwtgbot.Enqueue.Release.{EnqueuePorts}
use dwtgbot.Enqueue.UseCase.{EnqueueInput, enqueue, enqueue_download}
use dwtgbot.Enqueue.Slots.{SlotOutcome, enqueue_download_exact}
use dwtgbot.Enqueue.Instant.{InstantInput, auto_execute}
use dwtgbot.Enqueue.Channels.{picked, InstantOutcome, auto_execute-enqueue}
use dwtgbot.Utils.Urls.{extract_first_url, ParsedUrl, UrlParser}
use dwtgbot.Utils.Texts.{truncate_description}
use dwtgbot.Utils.Trimmed.{IsTidy, truncate_description-IsTidy}
use dwtgbot.Strings.Trim.{strip, lstrip, rstrip}
use dwtgbot.Utils.Routing.{detect_platform, DetectedUrl, detect, normalize_domain, is_allowed_host}
use dwtgbot.Utils.Hosts.{detect-normalize_domain}
use dwtgbot.Providers.Youtube.{YoutubeInfo, default_option, max_height}
use dwtgbot.Providers.Choice.{IsHighest, default_option-IsHighest}
use dwtgbot.Providers.Formats.{VideoFormat, real_video_size_for_height}
use dwtgbot.Providers.Cookies.{CookieUse, RejectedOutcome, cookie_runs-rejected}
use dwtgbot.Providers.Best.{SizeOutcome, real_video_size_for_height-IsPicked}

abbrev button : DownloadCallback
button = record { request_id = codes "r1"; option_key = codes "video_720" }

decode_download-encode_example :
    (decode_download (codes "dl|r1|video_720") ≡ some button)
    × (length (codes "dl|r1|video_720") ≤ max_callback_len)
unfolding encode_download
decode_download-encode_example =
    decode_download-encode button (codes "dl|r1|video_720") refl refl refl refl

-- A queue that refuses, as where Redis is down.
abbrev no_queue : EnqueuePorts
no_queue = record {
  base = ports;
  publish = λ n k c. raised (exc connection (codes "down"));
  default_option = λ platform i. returned choice;
  start_progress = λ n k. raised (exc connection (codes "down"));
  put_post_text = λ n k t. returned tt;
  class_name = λ e. codes "ConnectionError";
}

abbrev wish : EnqueueInput
wish = record {
  user_id = 7;
  chat_id = 900;
  source_url = codes "https://youtu.be/x";
  platform = youtube;
  selected_option_key = codes "video_720";
  correlation_id = codes "c";
}

enqueue_download_exact_example :
    let (r, w') = enqueue_download no_queue 2 5 wish world in
    SlotOutcome 2 wish world (raised (exc connection (codes "down"))) r w'
enqueue_download_exact_example =
    enqueue_download_exact no_queue 2 5 wish world
      (record { answers = λ n. refl; alone = λ n t. refl }) (omega arith)
      (omega arith, (omega arith, tt))

abbrev link_sent : InstantInput
link_sent = record {
  user_id = 7;
  chat_id = 900;
  info = info;
  source_url = codes "https://youtu.be/x";
  placeholder_message_id = 55;
  correlation_id = codes "c";
}

abbrev with_queue : EnqueuePorts
with_queue = record no_queue { publish = λ n k c. returned tt }

auto_execute-enqueue_example :
    InstantOutcome with_queue 40 link_sent choice
      (enqueue with_queue 2 5 (picked link_sent choice) world)
      (auto_execute with_queue 2 40 5 link_sent world)
auto_execute-enqueue_example = auto_execute-enqueue with_queue 2 40 5 link_sent world choice refl

abbrev short_link : ParsedUrl
short_link = record {
  scheme = codes "https";
  netloc = codes "youtu.be";
  hostname = some (codes "youtu.be");
}

abbrev one_answer : UrlParser
one_answer = record { urlparse = λ url. returned short_link; lower = λ s. s }

same_answer :
    (parsed : ParsedUrl)
    → returned short_link ≡ returned parsed
    → parsed.hostname ≡ some parsed.netloc
same_answer parsed h = ground (arith, h)

abbrev seen : DetectedUrl
seen = record {
  raw = codes "look https://youtu.be/x";
  normalized = codes "https://youtu.be/x";
  platform = youtube;
}

detect-normalize_domain_example :
    (codes "look https://youtu.be/x" ≡ strip (codes " look https://youtu.be/x"))
    × (normalize_domain one_answer (codes "https://youtu.be/x") ≡ some (codes "youtube.com"))
    × (is_allowed_host one_answer (codes "https://youtu.be/x") ≡ true)
unfolding detect detect_platform extract_first_url lstrip rstrip
detect-normalize_domain_example =
    detect-normalize_domain one_answer (codes " look https://youtu.be/x") seen
      (record {
        hostname_plain = λ url parsed h plain full. same_answer parsed h;
        lower_twice = λ s. refl;
      })
      refl

truncate_description-IsTidy_example :
    IsTidy 12 (truncate_description (some (codes " some words that go on ")) 12)
truncate_description-IsTidy_example =
    truncate_description-IsTidy (some (codes " some words that go on ")) 12

abbrev clip : YoutubeInfo
clip = record {
  media_id = codes "x";
  title = codes "A clip";
  available_heights = 240 ∷ 1440 ∷ 720 ∷ [];
  duration = some 60;
  size_by_height = (codes "720", 9000) ∷ [];
}

default_option-IsHighest_example :
    ((max_height clip.available_heights < 360)
      × ((e : Exc) × (default_option (λ t. t) clip ≡ raised e) × (e.cls ≡ download)))
    ⊎ ((360 ≤ max_height clip.available_heights) × ((h : ℕ) × IsHighest (λ t. t) clip h))
default_option-IsHighest_example = default_option-IsHighest (λ t. t) clip

abbrev vp9 : VideoFormat
vp9 = record {
  height = some 1080;
  vcodec = some (codes "vp9");
  ext = some (codes "webm");
  filesize = none;
  filesize_approx = some 7000;
}

real_video_size_for_height-IsPicked_example :
    SizeOutcome 1080 (vp9 ∷ []) (real_video_size_for_height (vp9 ∷ []) 1080)
real_video_size_for_height-IsPicked_example = real_video_size_for_height-IsPicked (vp9 ∷ []) 1080

abbrev first_use : CookieUse ℕ
first_use = record {
  at = 5;
  rejected_at = 40;
  has_cookies = true;
  with_cookies = raised (exc provider (codes "HTTP 400"));
  anonymous = returned 1;
}

abbrev second_use : CookieUse ℕ
second_use = record first_use { at = 500000 }

cookie_runs-rejected_example :
    RejectedOutcome first_use (second_use ∷ []) 0 (exc provider (codes "HTTP 400"))
cookie_runs-rejected_example =
    cookie_runs-rejected first_use (second_use ∷ []) 0 (exc provider (codes "HTTP 400"))
      (omega arith) refl refl (omega arith, tt)
