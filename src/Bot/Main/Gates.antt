-- ===== src/Bot/Main/Gates.antt =====
-- The gate that a loaded configuration calls for.
use minecraft_afk_bot.Bot.Loop.Waits.{of_milliseconds-pos}
use minecraft_afk_bot.Bot.Main.{
  always_present, reconciled, Gated, new_gate, presence_enabled, presence_gate,
}
use minecraft_afk_bot.Config.{UrlParser, Config, no_presence, Presence, Url, enabled}
use minecraft_afk_bot.Config.Valid.{IsHttp, IsEnabled, IsPresence}
use minecraft_afk_bot.Presence.Api.{Api}
use minecraft_afk_bot.Presence.Client.{new_client}
use minecraft_afk_bot.Presence.Reconciler.{Reconciler, new_reconciler}
use minecraft_afk_bot.Presence.Streak.{LogCall}
use minecraft_afk_bot.Prelude.Int.{pos}
use minecraft_afk_bot.Prelude.Strings.{codes, trim_right}
use minecraft_afk_bot.Prelude.{
  Text, ℕ, ◌*◌, ◌≤◌, ◌≡◌, ◌⊎◌, inl, inr, refl, true, false, [], ◌∷◌, Option, none, some, is_empty,
  equal, sym, Bool-cases, ◌||◌, ◌==◌, arith,
}

-- A gate that is a new reconciler, with the poller that runs on it, between once a second and once
-- in ten minutes.
pub record IsPolled (api : Api) (g : Gated) : Type 0 where
  pub reconciler : Reconciler
  pub ms : ℕ
  pub call : LogCall
  pub shape : g ≡ record {
    gate = reconciled reconciler;
    poller = some (record { reconciler = reconciler; every = pos (ms * 1_000_000) });
    logs = call ∷ [];
  }
  pub interval : (1_000 ≤ ms) × (ms ≤ 600_000)
  pub default : api.valid reconciler.desired ≡ true
  pub token : is_empty reconciler.client.token ≡ false
  pub apart : reconciler.connected ≡ false
  pub untagged : reconciler.etag ≡ []

-- What presence settings call for, with `raw` the text of the URL: nothing to wait on and no poller
-- where the URL is blank, and otherwise a reconciler with its poller.
abbrev pub IsGated : Api → Text → Gated → Type 0
IsGated api raw g =
    ((is_empty raw ≡ true) × (g ≡ record { gate = always_present; poller = none; logs = [] }))
    ⊎ ((is_empty raw ≡ false) × IsPolled api g)

-- What `url.Parse` documents of a scheme: it is a text before the first colon, so there is none in
-- slashes alone.
abbrev pub IsUrlParser : UrlParser → Type 0
IsUrlParser parse_url =
    (raw : Text) (u : Url)
    → parse_url raw ≡ some u
    → is_empty (trim_right (λ c. c == b'/') raw) ≡ true
    → is_empty u.scheme ≡ true

given_scheme :
    (s : Text) → (equal s (codes "http") || equal s (codes "https")) ≡ true → is_empty s ≡ false
unfolding equal
given_scheme [] h = cc
given_scheme (c ∷ s) h = refl

IsHttp-url :
    (parse_url : UrlParser) (raw : Text) (o : Option Url)
    → IsUrlParser parse_url
    → parse_url raw ≡ o
    → IsHttp o
    → is_empty (trim_right (λ c. c == b'/') raw) ≡ false
IsHttp-url parse_url raw none k e h = absurd h
IsHttp-url parse_url raw (some u) k e h =
    elim (Bool-cases (is_empty (trim_right (λ c. c == b'/') raw))) [
      | inl blank ↦ cc (k raw u e blank, given_scheme u.scheme h.0)
      | inr given ↦ given
    ]

module _ (api : Api) (parse_url : UrlParser) (version raw : Text) where
  presence_gate-off :
      (c : Config) (p : Presence)
      → c.presence ≡ p
      → is_empty p.url ≡ true
      → presence_gate parse_url version c
        ≡ record { gate = always_present; poller = none; logs = [] }
  unfolding presence_gate enabled
  presence_gate-off c p e off = rw (e, off) refl

  presence_gate-on :
      (c : Config) (p : Presence)
      → c.presence ≡ p
      → is_empty p.url ≡ false
      → IsEnabled api parse_url raw p
      → IsPolled api (presence_gate parse_url version c)
  unfolding presence_gate new_gate new_reconciler enabled new_client
  presence_gate-on c p e on h = record {
    reconciler = new_gate version c.presence;
    ms = p.poll_ms;
    call = presence_enabled parse_url c.presence;
    shape = rw (e, on, sym (of_milliseconds-pos p.poll_ms (omega (arith, h.polls.1)))) refl;
    interval = h.polls;
    default = rw e h.default;
    token = rw e h.token;
    apart = refl;
    untagged = refl;
  }

  pub presence_gate-IsGated :
      IsUrlParser parse_url
      → (c : Config) → IsPresence api parse_url raw c.presence
      → IsGated api raw (presence_gate parse_url version c)
  presence_gate-IsGated k c (inl (off, unset)) =
      inl (off, presence_gate-off c no_presence unset refl)
  presence_gate-IsGated k c (inr (on, p)) =
      let given = IsHttp-url parse_url raw (parse_url raw) k refl p.http in
      inr (on, presence_gate-on c c.presence refl (rw p.url given) p)
