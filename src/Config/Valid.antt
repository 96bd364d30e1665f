-- ===== src/Config/Valid.antt =====
-- What a loaded configuration can be relied on for.
use minecraft_afk_bot.Presence.Api.{Api}
use minecraft_afk_bot.Config.{
  Name, mc_host, mc_username, mc_port, mc_view_distance, reconnect_min_ms, reconnect_max_ms,
  presence_url, presence_token, presence_actor_id, presence_default, presence_poll_ms,
  max_tick_distance, max_view_distance, max_port, max_backoff_ms, max_poll_ms, min_poll_ms,
  Environment, Result, ok, err, ◌>>=◌, Url, UrlParser, Presence, no_presence, Config,
  matches_actor_id, required, positive_uint8, positive_int, check_url, load_enabled, load_presence,
  load,
}
use minecraft_afk_bot.Config.Numbers.{
  Ensures, holds, fails, Ensures-if, Between, positive_uint8-Between, positive_int-Between,
}
use minecraft_afk_bot.Prelude.Strings.{codes, trim_space, trim_right}
use minecraft_afk_bot.Prelude.{
  Text, ◌≤◌, ◌≡◌, ◌⊎◌, inl, inr, refl, true, false, not, ◌&&◌, ◌||◌, Option, none, some, ltb,
  is_empty, equal, arith, ◌==◌,
}

Ensures-bind :
    {A B : Type 0} {Q : A → Type 0} {P : B → Type 0} (m : Result A) (f : A → Result B)
    → Ensures Q m
    → ((a : A) → Q a → Ensures P (f a))
    → Ensures P (m >>= f)
Ensures-bind (ok a) f (holds q) h = h a q
Ensures-bind (err e) f fails h = fails

Ensures-map :
    {A : Type 0} {Q P : A → Type 0} {m : Result A}
    → Ensures Q m
    → ((a : A) → Q a → P a)
    → Ensures P m
Ensures-map (holds {a} q) h = holds (h a q)
Ensures-map fails h = fails

abbrev IsGiven : Text → Type 0
IsGiven s = is_empty s ≡ false

required-IsGiven : (env : Environment) (name : Name) → Ensures IsGiven (required env name)
unfolding required
required-IsGiven env name =
    Ensures-if (is_empty (trim_space (env name))) _ _ (λ e. fails) (λ e. holds e)

-- A URL with a host that is reached by http or https.
abbrev pub IsHttp : Option Url → Type 0
IsHttp none = ⊥
IsHttp (some u) =
    ((equal u.scheme (codes "http") || equal u.scheme (codes "https")) ≡ true)
    × (is_empty u.host ≡ false)

-- What holds of the presence settings where the feature is on, with `raw` the text of the URL.
pub record IsEnabled (api : Api) (parse_url : UrlParser) (raw : Text) (p : Presence) : Type 0 where
  pub http : IsHttp (parse_url raw)
  pub url : p.url ≡ trim_right (λ c. c == b'/') raw
  pub token : is_empty p.token ≡ false
  pub actor_id : matches_actor_id p.actor_id ≡ true
  pub default : api.valid p.default ≡ true
  pub polls : (min_poll_ms ≤ p.poll_ms) × (p.poll_ms ≤ max_poll_ms)

-- Off, exactly if the URL is blank; on otherwise.
abbrev pub IsPresence : Api → UrlParser → Text → Presence → Type 0
IsPresence api parse_url raw p =
    ((is_empty raw ≡ true) × (p ≡ no_presence))
    ⊎ ((is_empty raw ≡ false) × IsEnabled api parse_url raw p)

pub record IsValid (api : Api) (parse_url : UrlParser) (env : Environment) (c : Config)
    : Type 0 where
  pub host : is_empty c.host ≡ false
  pub username : is_empty c.username ≡ false
  pub port : Between max_port c.port
  pub view_distance : Between max_view_distance c.view_distance
  pub floor : 1 ≤ c.reconnect_min_ms
  pub ordered : c.reconnect_min_ms ≤ c.reconnect_max_ms
  pub ceiling : c.reconnect_max_ms ≤ max_backoff_ms
  pub presence : IsPresence api parse_url (trim_space (env presence_url)) c.presence

module _ (api : Api) (parse_url : UrlParser) (env : Environment) where
  check_url-IsHttp : (o : Option Url) → Ensures (λ u. IsHttp o) (check_url api parse_url env o)
  unfolding check_url
  check_url-IsHttp none = fails
  check_url-IsHttp (some u) =
      Ensures-if
        (not (equal u.scheme (codes "http")) && not (equal u.scheme (codes "https"))
          || is_empty u.host)
        _ _ (λ bad. fails) (λ good. holds (ground arith))

  load_enabled-IsEnabled :
      (raw : Text) → Ensures (IsEnabled api parse_url raw) (load_enabled api parse_url env raw)
  unfolding load_enabled
  load_enabled-IsEnabled raw =
      Ensures-bind (check_url api parse_url env (parse_url raw)) _
        (check_url-IsHttp (parse_url raw))
        λ u http.
          Ensures-bind (required env presence_token) _ (required-IsGiven env presence_token)
            λ token given.
              Ensures-bind (required env presence_actor_id) _
                (required-IsGiven env presence_actor_id)
                λ actor_id _.
                  Ensures-if (not (matches_actor_id actor_id)) _ _ (λ bad. fails)
                    λ matched.
                      Ensures-bind (required env presence_default) _
                        (required-IsGiven env presence_default)
                        λ def _.
                          Ensures-if (not (api.valid def)) _ _ (λ bad. fails)
                            λ known.
                              Ensures-bind (positive_int env presence_poll_ms 10_000 max_poll_ms) _
                                (positive_int-Between env presence_poll_ms 10_000 max_poll_ms
                                  (omega arith, omega arith))
                                λ poll_ms between.
                                  Ensures-if (ltb poll_ms min_poll_ms) _ _ (λ bad. fails)
                                    λ slow. holds (record {
                                      http = http;
                                      url = refl;
                                      token = given;
                                      actor_id = ground arith;
                                      default = ground arith;
                                      polls = (ground arith, between.1);
                                    })

  load_presence-IsPresence :
      Ensures
        (IsPresence api parse_url (trim_space (env presence_url)))
        (load_presence api parse_url env)
  unfolding load_presence
  load_presence-IsPresence =
      let raw = trim_space (env presence_url) in
      Ensures-if (is_empty raw) _ _ (λ off. holds (inl (off, refl)))
        λ on. Ensures-map (load_enabled-IsEnabled raw) (λ p h. inr (on, h))

  -- Every configuration that `Load` returns: the host and the user name are given; the port, the
  -- view distance, the delays and the poll interval are within their bounds, the delays in order;
  -- and the presence settings are off, all at zero, if PRESENCE_URL is blank, and otherwise have an
  -- http or https URL with a host, a token, an actor id that matches, and a valid default.
  pub load-IsValid : Ensures (IsValid api parse_url env) (load api parse_url env)
  unfolding load
  load-IsValid = Ensures-bind (required env mc_host) _ (required-IsGiven env mc_host) λ host h.
      Ensures-bind (required env mc_username) _ (required-IsGiven env mc_username) λ username u.
        Ensures-bind (positive_int env mc_port 19_132 max_port) _
          (positive_int-Between env mc_port 19_132 max_port (omega arith, omega arith))
          λ port p.
            Ensures-bind (positive_uint8 env mc_view_distance max_tick_distance max_view_distance) _
              (positive_uint8-Between env mc_view_distance max_tick_distance max_view_distance
                (omega arith, omega arith))
              λ view_distance v.
                Ensures-bind (positive_int env reconnect_min_ms 5_000 max_backoff_ms) _
                  (positive_int-Between env reconnect_min_ms 5_000 max_backoff_ms
                    (omega arith, omega arith))
                  λ low l.
                    Ensures-bind (positive_int env reconnect_max_ms 300_000 max_backoff_ms) _
                      (positive_int-Between env reconnect_max_ms 300_000 max_backoff_ms
                        (omega arith, omega arith))
                      λ high t.
                        Ensures-if (ltb high low) _ _ (λ bad. fails)
                          λ ordered.
                            Ensures-bind (load_presence api parse_url env) _
                              load_presence-IsPresence
                              λ presence pr. holds (record {
                                host = h;
                                username = u;
                                port = p;
                                view_distance = v;
                                floor = l.0;
                                ordered = ground arith;
                                ceiling = t.1;
                                presence = pr;
                              })
