-- ===== src/Config/Secrets.antt =====
-- What the error of a failed start may depend on.
use minecraft_afk_bot.Presence.Api.{Api}
use minecraft_afk_bot.Config.{
  Name, mc_host, mc_username, mc_port, mc_view_distance, reconnect_min_ms, reconnect_max_ms,
  auth_cache_dir, presence_url, presence_token, presence_actor_id, presence_default,
  presence_poll_ms, max_tick_distance, max_view_distance, max_port, max_backoff_ms, max_poll_ms,
  min_poll_ms, Environment, Error, is_required, Config, Presence, Result, ok, err, ◌>>=◌, UrlParser,
  required, positive_uint8, positive_int, string_default, matches_actor_id, check_url, load_enabled,
  load_presence, load,
}
use minecraft_afk_bot.Prelude.Strings.{codes, trim_space}
use minecraft_afk_bot.Prelude.{
  Text, ◌≡◌, refl, ap, Bool, true, false, not, [], ◌∷◌, is_empty, ltb, if◌then◌else◌,
}

-- The environment with another token.
abbrev pub with_token : Text → Environment → Environment
with_token t env presence_token = t
with_token t env mc_host = env mc_host
with_token t env mc_username = env mc_username
with_token t env mc_port = env mc_port
with_token t env mc_view_distance = env mc_view_distance
with_token t env reconnect_min_ms = env reconnect_min_ms
with_token t env reconnect_max_ms = env reconnect_max_ms
with_token t env auth_cache_dir = env auth_cache_dir
with_token t env presence_url = env presence_url
with_token t env presence_actor_id = env presence_actor_id
with_token t env presence_default = env presence_default
with_token t env presence_poll_ms = env presence_poll_ms

-- A configuration but for its token.
abbrev pub without_token : Config → Config
without_token c = record c { presence = record c.presence { token = [] } }

-- Both load, with `P` between the results, or both fail with one error.
pub data Alike {A : Type 0} (P : A → A → Type 0) : Result A → Result A → Type 0 where
  both_load : {a b : A} → P a b → Alike P (ok a) (ok b)
  both_fail : {e : Error} → Alike P (err e) (err e)

Alike-bind :
    {A B : Type 0} {P : B → B → Type 0} (m : Result A) (f g : A → Result B)
    → ((a : A) → Alike P (f a) (g a))
    → Alike P (m >>= f) (m >>= g)
Alike-bind (ok a) f g h = h a
Alike-bind (err e) f g h = both_fail

Alike-if :
    {A : Type 0} {P : A → A → Type 0} (b : Bool) (x y x' y' : Result A)
    → Alike P x x'
    → Alike P y y'
    → Alike P (if b then x else y) (if b then x' else y')
Alike-if true x y x' y' hx hy = hx
Alike-if false x y x' y' hx hy = hy

-- Before steps that do not fail.
Alike-map :
    {A B : Type 0} {Q : A → A → Type 0} {P : B → B → Type 0} {m n : Result A} (f g : A → B)
    → ((a b : A) → Q a b → P (f a) (g b))
    → Alike Q m n
    → Alike P (m >>= λ a. ok (f a)) (n >>= λ a. ok (g a))
Alike-map f g h (both_load {a} {b} q) = both_load (h a b q)
Alike-map f g h both_fail = both_fail

-- A text that is required, and two that are blank alike.
Alike-required :
    {B : Type 0} {P : B → B → Type 0} (name : Name) (a b : Text) (f g : Text → Result B)
    → is_empty a ≡ is_empty b
    → ((x y : Text) → Alike P (f x) (g y))
    → Alike P
        ((if is_empty a then err (is_required name) else ok a) >>= f)
        ((if is_empty b then err (is_required name) else ok b) >>= g)
Alike-required name [] [] f g same h = both_fail
Alike-required name [] (b ∷ bs) f g same h = cc
Alike-required name (a ∷ s) [] f g same h = cc
Alike-required name (a ∷ s) (b ∷ bs) f g same h = h (a ∷ s) (b ∷ bs)

abbrev SamePresence : Presence → Presence → Type 0
SamePresence p p' = record p { token = [] } ≡ record p' { token = [] }

-- Two configurations that differ in the token at most.
abbrev pub SameConfig : Config → Config → Type 0
SameConfig c c' = without_token c ≡ without_token c'

module _ (api : Api) (parse_url : UrlParser) (env : Environment) (t t' : Text) where
  load_enabled-Alike :
      (raw : Text)
      → is_empty (trim_space t) ≡ is_empty (trim_space t')
      → Alike SamePresence
          (load_enabled api parse_url (with_token t env) raw)
          (load_enabled api parse_url (with_token t' env) raw)
  unfolding load_enabled required positive_int
  load_enabled-Alike raw same = Alike-bind (check_url api parse_url env (parse_url raw)) _ _ λ u.
      Alike-required presence_token (trim_space t) (trim_space t') _ _ same λ a b.
        Alike-bind (required env presence_actor_id) _ _ λ actor_id.
          Alike-if (not (matches_actor_id actor_id)) _ _ _ _ both_fail (
            Alike-bind (required env presence_default) _ _ λ def.
              Alike-if (not (api.valid def)) _ _ _ _ both_fail (
                Alike-bind (positive_int env presence_poll_ms 10_000 max_poll_ms) _ _
                  λ poll_ms. Alike-if (ltb poll_ms min_poll_ms) _ _ _ _ both_fail (both_load refl)))

  load_presence-Alike :
      is_empty (trim_space t) ≡ is_empty (trim_space t')
      → Alike SamePresence
          (load_presence api parse_url (with_token t env))
          (load_presence api parse_url (with_token t' env))
  unfolding load_presence
  load_presence-Alike same =
      Alike-if (is_empty (trim_space (env presence_url))) _ _ _ _ (both_load refl)
        (load_enabled-Alike (trim_space (env presence_url)) same)

  -- Loading keeps the token to the configuration's own field of it, but for whether it is blank: two
  -- environments that differ in the token alone, both blank or both not, both load, with
  -- configurations that differ in the token at most, or fail with the same error.
  pub load-hides_token :
      is_empty (trim_space t) ≡ is_empty (trim_space t')
      → Alike SameConfig
          (load api parse_url (with_token t env))
          (load api parse_url (with_token t' env))
  unfolding load required positive_int positive_uint8 string_default
  load-hides_token same = Alike-bind (required env mc_host) _ _ λ host.
      Alike-bind (required env mc_username) _ _ λ username.
        Alike-bind (positive_int env mc_port 19_132 max_port) _ _ λ port.
          Alike-bind (positive_uint8 env mc_view_distance max_tick_distance max_view_distance) _ _
            λ view_distance.
              Alike-bind (positive_int env reconnect_min_ms 5_000 max_backoff_ms) _ _ λ low.
                Alike-bind (positive_int env reconnect_max_ms 300_000 max_backoff_ms) _ _ λ high.
                  Alike-if (ltb high low) _ _ _ _ both_fail (
                    Alike-map _ _
                      (λ p p' e.
                        ap
                          (λ (q : Presence). record {
                            host = host;
                            port = port;
                            username = username;
                            view_distance = view_distance;
                            auth_cache_dir = string_default env auth_cache_dir (codes "/data/auth");
                            reconnect_min_ms = low;
                            reconnect_max_ms = high;
                            presence = q;
                          })
                          e)
                      (load_presence-Alike same))
