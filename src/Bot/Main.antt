-- ===== src/Bot/Main.antt =====
-- `main`, `presenceGate` and `redactedURL` of cmd/bot/main.go: the settings, the token, the gate and
-- the connect loop, one behind the other.
pub mod Gates
pub mod Starts
pub mod Secrets
pub mod Restarts
use minecraft_afk_bot.Bot.Loop
use minecraft_afk_bot.Bot.Loop.{Round, Loop, of_milliseconds, run_connect_loop}
use minecraft_afk_bot.Bot.Backoff.{Duration}
use minecraft_afk_bot.Config as Settings
use minecraft_afk_bot.Config.{Environment, UrlParser, Url, Config, Presence, enabled, load}
use minecraft_afk_bot.Config.Messages as ConfigMessages
use minecraft_afk_bot.Logging
use minecraft_afk_bot.Logging.{Logger, severity_info, severity_error, text, int}
use minecraft_afk_bot.Mcauth
use minecraft_afk_bot.Mcauth.Messages as AuthMessages
use minecraft_afk_bot.Mcauth.{Codec, Disk, Op, Source, Sourced, token_source, token_file_name}
use minecraft_afk_bot.Presence.Api.{Api}
use minecraft_afk_bot.Presence.Client.{new_client}
use minecraft_afk_bot.Presence.Reconciler.{Reconciler, new_reconciler}
use minecraft_afk_bot.Presence.Streak.{LogCall}
use minecraft_afk_bot.Prelude.Int.{pos}
use minecraft_afk_bot.Prelude.Strings.{codes}
use minecraft_afk_bot.Prelude.{
  Text, ℕ, Bool, true, false, not, List, [], ◌∷◌, Option, none, some, if◌then◌else◌,
}

-- What the program finds when it starts.
pub record Surroundings (Token : Type 0) : Type 0 where
  pub env : Environment
  -- the value of LOG_LEVEL
  pub log_level : Text
  pub parse_url : UrlParser
  pub api : Api
  -- `%q`
  pub quoted : Text → Text
  -- `filepath.Join` of a directory and a name
  pub join : Text → Text → Text
  -- `tokenDigest`, and what surrounds the call of `TokenSource`
  pub digest : Text → Text
  pub codec : Codec Token
  pub auth : Mcauth.Env Token
  -- the contents of a directory
  pub disk : Text → Disk
  -- the release that is stamped into the image
  pub version : Text

-- The URL without its password, by what it parses to.
abbrev redacted_of : Text → Option Url → Text
redacted_of raw (some u) = u.redacted
redacted_of raw none = raw

unfoldable pub redacted_url : UrlParser → Text → Text
redacted_url parse_url raw = redacted_of raw (parse_url raw)

-- `presence.Gate`: one of its two implementations.
pub data Gate : Type 0 where
  always_present : Gate
  reconciled : Reconciler → Gate

-- The goroutine that `Run` of a reconciler becomes, and its interval.
pub record Poller : Type 0 where
  pub reconciler : Reconciler
  pub every : Duration

pub record Gated : Type 0 where
  pub gate : Gate
  pub poller : Option Poller
  pub logs : List LogCall

-- The reconciler of the settings, with its client.
unfoldable pub new_gate : Text → Presence → Reconciler
new_gate version p = new_reconciler (new_client p.url p.actor_id p.token) p.default version

unfoldable pub presence_enabled : UrlParser → Presence → LogCall
unfolding redacted_url
presence_enabled parse_url p = record {
  severity = severity_info;
  event = codes "presence_enabled";
  fields =
      (codes "actor_id", text p.actor_id)
      ∷ (codes "url", text (redacted_url parse_url p.url))
      ∷ (codes "default", text p.default)
      ∷ (codes "poll_ms", int (pos p.poll_ms))
      ∷ [];
}

unfoldable pub presence_gate : UrlParser → Text → Config → Gated
unfolding new_gate presence_enabled of_milliseconds enabled
presence_gate parse_url version c =
    let p = c.presence in
    let r = new_gate version p in
    if not (enabled p) then record { gate = always_present; poller = none; logs = [] } else record {
      gate = reconciled r;
      poller = some (record { reconciler = r; every = of_milliseconds p.poll_ms });
      logs = presence_enabled parse_url p ∷ [];
    }

-- How the process stands: ended by `os.Exit` with a status, or behind the start of its gate, with
-- what the connect loop has done so far and its variables, or `none` once it has returned.
pub data Ending : Type 0 where
  exited : ℕ → Ending
  connecting : Gated → List Loop.Action → Option Loop → Ending

-- What a run of the program has done: its logger, whether it asked for a login, what it did to the cache
-- directory, what it logged outside the connect loop, and how it stands.
pub record Run : Type 0 where
  -- the logger as it is made
  pub logger : Logger
  pub asked : Bool
  pub ops : List Op
  pub logs : List LogCall
  pub ending : Ending

abbrev pub failure : Text → Text → LogCall
failure event message = record {
  severity = severity_error;
  event = event;
  fields = (codes "error", text message) ∷ [];
}

module _ {Token : Type 0} (s : Surroundings Token) (rounds : List Round) where
  -- The path of the account's file, where the user name has one.
  abbrev path_in : Text → Mcauth.Result Text → Text
  path_in dir (Mcauth.ok name) = s.join dir name
  path_in dir (Mcauth.err e) = []

  -- Behind `TokenSource`.
  abbrev pub after_source : Config → Sourced Token → Mcauth.Result (Source Token) → Run
  after_source c sourced (Mcauth.err e) =
      let path = path_in c.auth_cache_dir (token_file_name s.digest c.username) in
      record {
        logger = Logging.new s.log_level;
        asked = sourced.asked;
        ops = sourced.ops;
        logs = failure (codes "auth_failed") (AuthMessages.error_text path e) ∷ [];
        ending = exited 1;
      }
  after_source c sourced (Mcauth.ok source) =
      let gated = presence_gate s.parse_url s.version c in
      let (actions, last) = run_connect_loop c.reconnect_min_ms c.reconnect_max_ms rounds in
      record {
        logger = Logging.new s.log_level;
        asked = sourced.asked;
        ops = sourced.ops;
        logs = gated.logs;
        ending = connecting gated actions last;
      }

  -- Behind `config.Load`.
  abbrev pub after_load : Settings.Result Config → Run
  after_load (Settings.err e) = record {
    logger = Logging.new s.log_level;
    asked = false;
    ops = [];
    logs = failure (codes "config_invalid") (ConfigMessages.error_text s.api s.quoted e) ∷ [];
    ending = exited 1;
  }
  after_load (Settings.ok c) =
      let sourced = token_source s.codec s.digest s.auth (s.disk c.auth_cache_dir) c.username in
      after_source c sourced sourced.result

  unfoldable pub main : Run
  main = after_load (load s.api s.parse_url s.env)
