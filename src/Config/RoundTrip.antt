-- ===== src/Config/RoundTrip.antt =====
-- Configurations, and the environments that spell them.
use minecraft_afk_bot.Presence.Api.{Api}
use minecraft_afk_bot.Config.{
  Name, mc_host, mc_username, mc_port, mc_view_distance, reconnect_min_ms, reconnect_max_ms,
  auth_cache_dir, presence_url, presence_token, presence_actor_id, presence_default,
  presence_poll_ms, max_view_distance, max_port, max_backoff_ms, max_poll_ms, min_poll_ms,
  Environment, ok, Url, UrlParser, Presence, no_presence, Config, matches_actor_id, required,
  string_default, positive_uint8, positive_int, check_url, load_enabled, load_presence, load,
}
use minecraft_afk_bot.Config.Numbers.{Between, positive_uint8-numeral, positive_int-numeral}
use minecraft_afk_bot.Config.Valid.{IsHttp}
use minecraft_afk_bot.Prelude.Strings.{codes, trim_space, trim_right, itoa}
use minecraft_afk_bot.Prelude.Strings.Numerals.{IsNumeral, itoa-IsNumeral, trim_space-IsDigit}
use minecraft_afk_bot.Prelude.{
  Text, ℕ, ◌^◌, ◌≤◌, ◌<◌, ◌≡◌, ◌⊎◌, inl, inr, refl, true, false, [], Option, none, some, ltb,
  is_empty, arith, ap, sym, ◌∙◌, subst, ◌==◌,
}

-- A text that a setting can hold: not empty, with no white space around it.
abbrev pub IsPlain : Text → Type 0
IsPlain s = (trim_space s ≡ s) × (is_empty s ≡ false)

-- The settings of a bot that can be parked.
pub record IsLoadable (api : Api) (parse_url : UrlParser) (p : Presence) : Type 0 where
  pub url : IsPlain p.url
  pub bare : trim_right (λ c. c == b'/') p.url ≡ p.url
  pub http : IsHttp (parse_url p.url)
  pub token : IsPlain p.token
  pub actor_id_plain : IsPlain p.actor_id
  pub actor_id : matches_actor_id p.actor_id ≡ true
  pub default_plain : IsPlain p.default
  pub default : api.valid p.default ≡ true
  pub polls : (min_poll_ms ≤ p.poll_ms) × (p.poll_ms ≤ max_poll_ms)

pub record IsSpelled (api : Api) (parse_url : UrlParser) (c : Config) : Type 0 where
  pub host : IsPlain c.host
  pub username : IsPlain c.username
  pub auth_cache_dir : IsPlain c.auth_cache_dir
  pub port : Between max_port c.port
  pub view_distance : Between max_view_distance c.view_distance
  pub floor : 1 ≤ c.reconnect_min_ms
  pub ordered : c.reconnect_min_ms ≤ c.reconnect_max_ms
  pub ceiling : c.reconnect_max_ms ≤ max_backoff_ms
  pub presence : (c.presence ≡ no_presence) ⊎ IsLoadable api parse_url c.presence

-- The environment that spells a configuration.
abbrev pub environment_of : Config → Environment
environment_of c mc_host = c.host
environment_of c mc_username = c.username
environment_of c mc_port = itoa c.port
environment_of c mc_view_distance = itoa c.view_distance
environment_of c reconnect_min_ms = itoa c.reconnect_min_ms
environment_of c reconnect_max_ms = itoa c.reconnect_max_ms
environment_of c auth_cache_dir = c.auth_cache_dir
environment_of c presence_url = c.presence.url
environment_of c presence_token = c.presence.token
environment_of c presence_actor_id = c.presence.actor_id
environment_of c presence_default = c.presence.default
environment_of c presence_poll_ms = itoa c.presence.poll_ms

in_order : (a b : ℕ) → a ≤ b → ltb b a ≡ false
in_order a b h = ground arith

trim_space-nil : trim_space [] ≡ []
trim_space-nil = trim_space-IsDigit [] tt

required-IsPlain :
    (env : Environment) (name : Name) → IsPlain (env name) → required env name ≡ ok (env name)
unfolding required
required-IsPlain env name h = rw (h.0, h.1)

string_default-IsPlain :
    (env : Environment) (name : Name) (def : Text)
    → IsPlain (env name)
    → string_default env name def ≡ env name
unfolding string_default
string_default-IsPlain env name def h = rw (h.0, h.1)

itoa-trimmed : (n : ℕ) → IsNumeral (trim_space (itoa n)) n
itoa-trimmed n =
    let numeral = itoa-IsNumeral n in
    subst (λ s. IsNumeral s n) (sym (trim_space-IsDigit (itoa n) numeral.digits)) numeral

positive_int-itoa :
    (env : Environment) (name : Name) (def max n : ℕ)
    → env name ≡ itoa n
    → Between max n
    → max < 2 ^ 63
    → positive_int env name def max ≡ ok n
positive_int-itoa env name def max n e b top =
    let numeral : IsNumeral (trim_space (env name)) n =
      subst (λ s. IsNumeral (trim_space s) n) (sym e) (itoa-trimmed n) in
    positive_int-numeral env name def max n numeral top ∙ ground arith

positive_uint8-itoa :
    (env : Environment) (name : Name) (def max n : ℕ)
    → env name ≡ itoa n
    → Between max n
    → max ≤ 255
    → positive_uint8 env name def max ≡ ok n
positive_uint8-itoa env name def max n e b top =
    let numeral : IsNumeral (trim_space (env name)) n =
      subst (λ s. IsNumeral (trim_space s) n) (sym e) (itoa-trimmed n) in
    positive_uint8-numeral env name def max n numeral top ∙ ground arith

module _ (api : Api) (parse_url : UrlParser) where
  check_url-IsHttp :
      (env : Environment) (o : Option Url)
      → IsHttp o
      → (u : Url) × (check_url api parse_url env o ≡ ok u)
  unfolding check_url
  check_url-IsHttp env none h = absurd h
  check_url-IsHttp env (some u) h = (u, ground arith)

  load_enabled-environment_of :
      (c : Config)
      → IsLoadable api parse_url c.presence
      → load_enabled api parse_url (environment_of c) c.presence.url ≡ ok c.presence
  unfolding load_enabled
  load_enabled-environment_of c h =
      let env = environment_of c in
      let (u, http) = check_url-IsHttp env (parse_url c.presence.url) h.http in
      rw
        (
          http,
          required-IsPlain env presence_token h.token,
          required-IsPlain env presence_actor_id h.actor_id_plain,
          h.actor_id,
          required-IsPlain env presence_default h.default_plain,
          h.default,
          positive_int-itoa env presence_poll_ms 10_000 max_poll_ms c.presence.poll_ms refl
              (omega arith) (omega arith),
        )
        (ground arith)

  load_presence-environment_of :
      (c : Config)
      → (c.presence ≡ no_presence) ⊎ IsLoadable api parse_url c.presence
      → load_presence api parse_url (environment_of c) ≡ ok c.presence
  unfolding load_presence
  load_presence-environment_of c (inl off) =
      let blank : trim_space c.presence.url ≡ [] =
        subst (λ (p : Presence). trim_space p.url ≡ []) (sym off) trim_space-nil in
      rw blank (ap ok (sym off))
  load_presence-environment_of c (inr h) = rw (h.url.0, h.url.1) (load_enabled-environment_of c h)

  -- Every configuration within the bounds, with texts that are trimmed and not empty, is what `Load`
  -- returns on the environment that spells it: no setting is refused, changed or mixed up.
  pub load-environment_of :
      (c : Config) → IsSpelled api parse_url c → load api parse_url (environment_of c) ≡ ok c
  unfolding load
  load-environment_of c h =
      let env = environment_of c in
      let low : Between max_backoff_ms c.reconnect_min_ms = (h.floor, omega arith) in
      let high : Between max_backoff_ms c.reconnect_max_ms = (omega arith, h.ceiling) in
      rw (
        required-IsPlain env mc_host h.host,
        required-IsPlain env mc_username h.username,
        positive_int-itoa env mc_port 19_132 max_port c.port refl h.port (omega arith),
        positive_uint8-itoa env mc_view_distance 12 max_view_distance c.view_distance refl
            h.view_distance (omega arith),
        positive_int-itoa env reconnect_min_ms 5_000 max_backoff_ms c.reconnect_min_ms refl low
            (omega arith),
        positive_int-itoa env reconnect_max_ms 300_000 max_backoff_ms c.reconnect_max_ms refl high
            (omega arith),
        in_order c.reconnect_min_ms c.reconnect_max_ms h.ordered,
        load_presence-environment_of c h.presence,
        string_default-IsPlain env auth_cache_dir (codes "/data/auth") h.auth_cache_dir,
      )
