-- ===== src/Config.antt =====
-- internal/config/config.go: the settings, read from the environment.
pub mod Numbers
pub mod Valid
pub mod RoundTrip
pub mod Secrets
pub mod Messages
pub mod Pattern
use minecraft_afk_bot.Presence.Api.{Api}
use minecraft_afk_bot.Prelude.Int.{ℤ, pos, negsuc, leb_ℤ, ltb_ℤ}
use minecraft_afk_bot.Prelude.Strings.{codes, trim_space, trim_right, atoi, parse_uint}
use minecraft_afk_bot.Prelude.{
  Text, ℕ, ◌+◌, ◌-◌, String, Bool, true, false, not, ◌&&◌, ◌||◌, List, [], ◌∷◌, ◌++◌, Option, none,
  some, leb, ltb, length, all, is_empty, equal, ◌==◌, if◌then◌else◌,
}

abbrev pub max_tick_distance : ℕ
max_tick_distance = 12

abbrev pub max_view_distance : ℕ
max_view_distance = 64

abbrev pub max_port : ℕ
max_port = 65_535

abbrev pub max_backoff_ms : ℕ
max_backoff_ms = 3_600_000

abbrev pub max_poll_ms : ℕ
max_poll_ms = 600_000

abbrev pub min_poll_ms : ℕ
min_poll_ms = 1_000

-- The environment variables, and `os.Getenv`, which is empty for one that is not set.
pub data Name : Type 0 where
  mc_host mc_username mc_port mc_view_distance reconnect_min_ms reconnect_max_ms : Name
  auth_cache_dir presence_url presence_token presence_actor_id presence_default presence_poll_ms :
      Name

abbrev pub Environment : Type 0
Environment = Name → Text

-- The errors, with what their messages quote.
pub data Error : Type 0 where
  is_required : Name → Error
  not_an_integer : Name → Text → Error
  not_in_range : Name → ℕ → Text → Error
  not_positive : Name → ℤ → Error
  too_large : Name → ℕ → ℤ → Error
  min_above_max : ℕ → ℕ → Error
  -- with the URL less its password, where the text parses
  bad_url : Option Text → Error
  bad_actor_id : Error
  bad_default : Error
  polls_too_often : ℕ → Error

pub data Result {ℓ} (A : Type ℓ) : Type ℓ where
  ok : A → Result A
  err : Error → Result A

infixl 5 ◌>>=◌
abbrev pub ◌>>=◌ {ℓ κ} : {A : Type ℓ} {B : Type κ} → Result A → (A → Result B) → Result B
ok a >>= f = f a
err e >>= f = err e

-- What the code reads of a `url.URL`; `redacted` is `Redacted()`.
pub record Url : Type 0 where
  pub scheme : Text
  pub host : Text
  pub redacted : Text

-- `url.Parse`, which gives a URL or an error with no URL.
abbrev pub UrlParser : Type 0
UrlParser = Text → Option Url

pub record Presence : Type 0 where
  pub url : Text
  pub token : Text
  pub actor_id : Text
  pub default : Text
  pub poll_ms : ℕ

abbrev pub no_presence : Presence
no_presence = record { url = []; token = []; actor_id = []; default = []; poll_ms = 0 }

unfoldable pub enabled : Presence → Bool
enabled p = not (is_empty p.url)

pub record Config : Type 0 where
  pub host : Text
  pub port : ℕ
  pub username : Text
  pub view_distance : ℕ
  pub auth_cache_dir : Text
  pub reconnect_min_ms : ℕ
  pub reconnect_max_ms : ℕ
  pub presence : Presence

-- `^[a-z0-9][a-z0-9-]{0,62}$`, read off the pattern: one character of the first class, then at most
-- 62 of the second, and nothing behind them.
abbrev pub is_id_start : ℕ → Bool
is_id_start c = (leb b'a' c && leb c b'z') || (leb b'0' c && leb c b'9')

abbrev pub is_id_part : ℕ → Bool
is_id_part c = is_id_start c || c == b'-'

unfoldable pub matches_actor_id : Text → Bool
matches_actor_id [] = false
matches_actor_id (c ∷ s) = is_id_start c && (all is_id_part s && leb (length s) 62)

module _ (env : Environment) where
  unfoldable pub required : Name → Result Text
  required name =
      let v = trim_space (env name) in if is_empty v then err (is_required name) else ok v

  unfoldable pub string_default : Name → Text → Text
  string_default name def = let v = trim_space (env name) in if not (is_empty v) then v else def

  -- From the parsed number of `positiveUint8`.
  check_uint8 : Name → ℕ → Text → Option ℕ → Result ℕ
  check_uint8 name max raw none = err (not_in_range name max raw)
  check_uint8 name max raw (some v) =
      if v == 0
      then err (not_positive name (pos v))
      else if ltb max v
      then err (too_large name max (pos v))
      else ok v

  unfoldable pub positive_uint8 : Name → ℕ → ℕ → Result ℕ
  unfolding check_uint8
  positive_uint8 name def max =
      let raw = trim_space (env name) in
      if is_empty raw then ok def else check_uint8 name max raw (parse_uint 255 raw)

  -- From the parsed number of `positiveInt`: one that passes the first test is positive.
  check_int : Name → ℕ → Text → Option ℤ → Result ℕ
  check_int name max raw none = err (not_an_integer name raw)
  check_int name max raw (some (negsuc n)) = err (not_positive name (negsuc n))
  check_int name max raw (some (pos n)) =
      if leb n 0
      then err (not_positive name (pos n))
      else if ltb max n
      then err (too_large name max (pos n))
      else ok n

  unfoldable pub positive_int : Name → ℕ → ℕ → Result ℕ
  unfolding check_int
  positive_int name def max =
      let raw = trim_space (env name) in
      if is_empty raw then ok def else check_int name max raw (atoi raw)

module _ (api : Api) (parse_url : UrlParser) (env : Environment) where
  -- The test of the URL.
  check_url : Option Url → Result Url
  check_url none = err (bad_url none)
  check_url (some u) =
      if not (equal u.scheme (codes "http")) && not (equal u.scheme (codes "https"))
        || is_empty u.host
      then err (bad_url (some u.redacted))
      else ok u

  -- `loadPresence` once PRESENCE_URL has a value.
  unfoldable pub load_enabled : Text → Result Presence
  unfolding check_url
  load_enabled raw = do
    u ← check_url (parse_url raw)
    token ← required env presence_token
    actor_id ← required env presence_actor_id
    if not (matches_actor_id actor_id) then err bad_actor_id else do
      def ← required env presence_default
      if not (api.valid def) then err bad_default else do
        poll_ms ← positive_int env presence_poll_ms 10_000 max_poll_ms
        if ltb poll_ms min_poll_ms then err (polls_too_often poll_ms) else do
          ok (record {
            url = trim_right (λ c. c == b'/') raw;
            token = token;
            actor_id = actor_id;
            default = def;
            poll_ms = poll_ms;
          })

  unfoldable pub load_presence : Result Presence
  load_presence =
      let raw = trim_space (env presence_url) in
      if is_empty raw then ok no_presence else load_enabled raw

  unfoldable pub load : Result Config
  load = do
    host ← required env mc_host
    username ← required env mc_username
    port ← positive_int env mc_port 19_132 max_port
    view_distance ← positive_uint8 env mc_view_distance max_tick_distance max_view_distance
    reconnect_min ← positive_int env reconnect_min_ms 5_000 max_backoff_ms
    reconnect_max ← positive_int env reconnect_max_ms 300_000 max_backoff_ms
    if ltb reconnect_max reconnect_min then err (min_above_max reconnect_max reconnect_min) else do
      presence ← load_presence
      ok (record {
        host = host;
        port = port;
        username = username;
        view_distance = view_distance;
        auth_cache_dir = string_default env auth_cache_dir (codes "/data/auth");
        reconnect_min_ms = reconnect_min;
        reconnect_max_ms = reconnect_max;
        presence = presence;
      })
