-- ===== src/Bot/Main/Starts.antt =====
-- How a start of the program ends.
use minecraft_afk_bot.Bot.Loop.{Round}
use minecraft_afk_bot.Bot.Main.{
  Surroundings, Ending, exited, connecting, failure, after_source, after_load, main,
}
use minecraft_afk_bot.Config as Settings
use minecraft_afk_bot.Config.{
  presence_url, Environment, UrlParser, Config, no_presence, Presence, Url, enabled, load,
}
use minecraft_afk_bot.Config.Numbers.{Ensures, holds}
use minecraft_afk_bot.Config.Valid.{IsValid, IsPresence, load-IsValid}
use minecraft_afk_bot.Mcauth
use minecraft_afk_bot.Mcauth.{Source, Sourced, token_source}
use minecraft_afk_bot.Presence.Api.{Api}
use minecraft_afk_bot.Presence.Streak.{LogCall}
use minecraft_afk_bot.Prelude.Strings.{trim_space}
use minecraft_afk_bot.Prelude.{Text, ◌≡◌, refl, List, [], ◌∷◌}
use minecraft_afk_bot.Bot.Loop.Status.{idle, observe_all, run_connect_loop-idle}
use minecraft_afk_bot.Bot.Main.Gates.{IsGated, IsUrlParser, presence_gate-IsGated}

-- A run that has ended has logged one error; one that has come to its connect loop has the gate that
-- PRESENCE_URL calls for, has logged what that gate logs, and holds no session between two passes.
abbrev pub IsStanding : Api → Text → List LogCall → Ending → Type 0
IsStanding api raw logs (exited status) =
    (status ≡ 1) × (event : Text) × (message : Text) × (logs ≡ failure event message ∷ [])
IsStanding api raw logs (connecting gated actions last) =
    IsGated api raw gated × (logs ≡ gated.logs) × (observe_all idle actions ≡ idle)

module _ {Token : Type 0} (s : Surroundings Token) (rounds : List Round) where
  after_source-IsStanding :
      (raw : Text) (c : Config) (sourced : Sourced Token) (result : Mcauth.Result (Source Token))
      → IsUrlParser s.parse_url
      → IsPresence s.api s.parse_url raw c.presence
      → let run = after_source s rounds c sourced result in IsStanding s.api raw run.logs run.ending
  after_source-IsStanding raw c sourced (Mcauth.err e) k valid = (refl, _, _, refl)
  after_source-IsStanding raw c sourced (Mcauth.ok source) k valid = (
    presence_gate-IsGated s.api s.parse_url s.version raw k c valid,
    refl,
    run_connect_loop-idle c.reconnect_min_ms c.reconnect_max_ms rounds,
  )

  after_load-IsStanding :
      (m : Settings.Result Config)
      → IsUrlParser s.parse_url
      → Ensures (IsValid s.api s.parse_url s.env) m
      → let run = after_load s rounds m in
        IsStanding s.api (trim_space (s.env presence_url)) run.logs run.ending
  after_load-IsStanding (Settings.err e) k h = (refl, _, _, refl)
  after_load-IsStanding (Settings.ok c) k (holds valid) =
      let sourced = token_source s.codec s.digest s.auth (s.disk c.auth_cache_dir) c.username in
      after_source-IsStanding (trim_space (s.env presence_url)) c sourced sourced.result k
        valid.presence

-- Whatever the program finds when it starts, if `url.Parse` finds no scheme in slashes alone, it
-- either exits with status 1 behind one error line, or comes to its connect loop. Then the gate
-- admits always and no poller runs if PRESENCE_URL is blank, and otherwise it is a new reconciler
-- with a valid state and a token, polled between once a second and once in ten minutes; and the
-- loop leaves no session held and nothing reported as connected.
pub main-IsStanding :
    (Token : Type 0) (s : Surroundings Token) (rounds : List Round)
    → IsUrlParser s.parse_url
    → let run = main s rounds in
      IsStanding s.api (trim_space (s.env presence_url)) run.logs run.ending
unfolding main
main-IsStanding Token s rounds k =
    after_load-IsStanding s rounds (load s.api s.parse_url s.env) k
      (load-IsValid s.api s.parse_url s.env)
