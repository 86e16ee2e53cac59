-- ===== src/Checks/Handler.antt =====
-- The message handler on an Instagram link, with the instant flow on.
use dwtgbot.Strings.Trim.{lstrip, rstrip}
use dwtgbot.Exec.{try_, ◌>>=◌}
use dwtgbot.Utils.Routing.{detect, detect_platform, normalize_domain}
use dwtgbot.Base.{refl, ◌≡◌, ◌⊎◌, true, false, none, some, [], ◌∷◌, codes}
use dwtgbot.Errors.{returned}
use dwtgbot.Jobs.Entity.{instagram}
use dwtgbot.World.Values.{MediaInfo}
use dwtgbot.Limits.Window.{allow}
use dwtgbot.Utils.Urls.{extract_first_url, ParsedUrl, UrlParser}
use dwtgbot.Checks.Data.{info, choice}
use dwtgbot.Bot.State.{BotPorts, BotState, act, ask}
use dwtgbot.Bot.Link.{IncomingMessage, format_user_message, handle_link}
use dwtgbot.Bot.Silent.{instants}
use dwtgbot.Bot.Instant.{IsReplyAtMost, IsSparing, handle_link-IsSparing}

abbrev reel_link : ParsedUrl
reel_link = record {
  scheme = codes "https";
  netloc = codes "instagram.com";
  hostname = some (codes "instagram.com");
}

abbrev reel_info : MediaInfo
reel_info = record info { platform = instagram; thumbnail_url = some (codes "https://cdn/t.jpg") }

abbrev reel_parser : UrlParser
reel_parser = record { urlparse = λ url. returned reel_link; lower = λ s. s }

-- Telegram numbers its messages by the moment; the cache is empty.
abbrev bot_ports : BotPorts
bot_ports = record {
  urls = reel_parser;
  evaluate = λ n user chat domain. allow;
  should_notify = λ n key. true;
  telegram = λ n e. returned n;
  has_cache = true;
  platforms = λ platform. true;
  get_fresh = λ n url. returned none;
  info_from_cache = λ row platform. returned reel_info;
  get_info = λ n platform url. returned reel_info;
  upsert = λ n url i. returned tt;
  build_options = λ platform i. returned (choice ∷ []);
  token_urlsafe = λ n. codes "r1";
  save = λ n id a. returned tt;
  auto_enqueue = λ n a id. returned 42;
  is_backend_down = λ e. false;
  instant_enabled = true;
}

abbrev idle_bot : BotState
idle_bot = record { log = []; moment = 0 }

abbrev reel_message : IncomingMessage
reel_message = record { user_id = 7; chat_id = 7; text = codes "https://instagram.com/reel/x" }

handle_link-IsSparing_example :
    let w' = (handle_link bot_ports (some reel_message) idle_bot).1 in
    IsReplyAtMost bot_ports (format_user_message allow) idle_bot w'
    ⊎ ((true ≡ true) × IsSparing 0 bot_ports w')
handle_link-IsSparing_example = handle_link-IsSparing bot_ports reel_message idle_bot

-- The message enqueues once.
reel_enqueues : instants (handle_link bot_ports (some reel_message) idle_bot).1 ≡ 1
unfolding handle_link detect detect_platform extract_first_url lstrip rstrip ◌>>=◌ try_ ask act
    normalize_domain
reel_enqueues = refl
