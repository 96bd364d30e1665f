-- ===== src/Examples/Settings.antt =====
-- Tests of internal/config/config.go.
use minecraft_afk_bot.Config.Numbers.{Ensures}
use minecraft_afk_bot.Config.Pattern.{Matches, actor_id_pattern, matches_actor_id-Matches}
use minecraft_afk_bot.Prelude.{true, ◌↔◌}
use minecraft_afk_bot.Config.RoundTrip.{IsSpelled, environment_of, load-environment_of}
use minecraft_afk_bot.Config.Valid.{IsValid, load-IsValid}
use minecraft_afk_bot.Config.{Environment, ok, UrlParser, Presence, Config, matches_actor_id, load}
use minecraft_afk_bot.Examples.Agent.{api}
use minecraft_afk_bot.Prelude.Strings.{codes, trim_space, trim_right, is_space, drop_while}
use minecraft_afk_bot.Prelude.{
  ◌≡◌, inr, refl, equal, is_empty, none, some, arith, ◌==◌, if◌then◌else◌,
}

-- A parser that takes every text but slashes for an http URL.
abbrev pub parse_url : UrlParser
parse_url s =
    if is_empty (trim_right (λ c. c == b'/') s)
    then none
    else some (record { scheme = codes "http"; host = codes "agent"; redacted = s })

abbrev presence : Presence
presence = record {
  url = codes "http://agent:8080";
  token = codes "secret";
  actor_id = codes "afk-1";
  default = codes "present";
  poll_ms = 10_000;
}

abbrev pub config : Config
config = record {
  host = codes "play.example.org";
  port = 19_132;
  username = codes "A/:Steve";
  view_distance = 12;
  auth_cache_dir = codes "/data/auth";
  reconnect_min_ms = 5_000;
  reconnect_max_ms = 300_000;
  presence = presence;
}

abbrev pub env : Environment
env = environment_of config

load-IsValid_example : Ensures (IsValid api parse_url env) (load api parse_url env)
load-IsValid_example = load-IsValid api parse_url env

pub config-IsSpelled : IsSpelled api parse_url config
unfolding trim_space trim_right drop_while is_space matches_actor_id equal
config-IsSpelled = record {
  host = (refl, refl);
  username = (refl, refl);
  auth_cache_dir = (refl, refl);
  port = (omega arith, omega arith);
  view_distance = (omega arith, omega arith);
  floor = omega arith;
  ordered = omega arith;
  ceiling = omega arith;
  presence = inr (record {
    url = (refl, refl);
    bare = refl;
    http = (refl, refl);
    token = (refl, refl);
    actor_id_plain = (refl, refl);
    actor_id = refl;
    default_plain = (refl, refl);
    default = refl;
    polls = (omega arith, omega arith);
  });
}

load-environment_of_example : load api parse_url env ≡ ok config
load-environment_of_example = load-environment_of api parse_url config config-IsSpelled

matches_actor_id-Matches_example :
    (matches_actor_id (codes "afk-1") ≡ true) ↔ Matches actor_id_pattern (codes "afk-1")
matches_actor_id-Matches_example = matches_actor_id-Matches (codes "afk-1")
