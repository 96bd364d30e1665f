-- ===== src/Bot/Session/Steps/Course.antt =====
-- What the network does in a session, and what a session that stands somewhere has done.
use minecraft_afk_bot.Bot.Session.{
  Action, dial, watch, do_spawn, spawned, log, log_spoof, Pass, Env, returned, closing, read_loop,
  session,
}
use minecraft_afk_bot.Bot.Session.Steps.{
  Stage, pinging, spawning, requesting, dialing, at_pass, in_read, read_failed, over, Progress,
}
use minecraft_afk_bot.Gophertunnel.{Constants}
use minecraft_afk_bot.Liveness.{Respawner, Writer}
use minecraft_afk_bot.Logging.{severity_info, text, int}
use minecraft_afk_bot.Mcproto.{Protocol, negotiate}
use minecraft_afk_bot.Prelude.Int.{ℤ, pos}
use minecraft_afk_bot.Prelude.Strings.{codes}
use minecraft_afk_bot.Prelude.{Text, ℕ, true, List, [], ◌∷◌, ◌++◌, map, Option, ◌≡◌}

-- What the network does in one session, and the passes of its read loop.
pub record Course (Position : Type 0) : Type 0 where
  pub pong : Option Text
  pub dial_error : Option Text
  pub spawn_error : Option Text
  pub xuid : Text
  pub runtime_id : ℕ
  pub writer : Writer Position
  pub passes : List (Pass Position)

-- The number that the negotiation gives, its logs, and what a session does up to its callback.
abbrev pub number : {Schema : Type 0} → Protocol Schema → Option Text → ℤ
number baked pong = (negotiate pong baked true).0.id

abbrev pub spoof_logs :
    {Position Schema : Type 0} → Protocol Schema → Option Text → List (Action Position)
spoof_logs baked pong = map (log_spoof baked.id) (negotiate pong baked true).1

abbrev pub entry_actions :
    {Position Schema : Type 0} → ℕ → Protocol Schema → Option Text → Text → List (Action Position)
entry_actions v baked pong xuid =
    let fields = (codes "xuid", text xuid) ∷ (codes "view_distance", int (pos v)) ∷ [] in
    dial (number baked pong) true
    ∷ watch
    ∷ do_spawn
    ∷ log severity_info (codes "spawned") fields
    ∷ spawned
    ∷ []

module _ {Position Schema : Type 0} (k : Constants) (v : ℕ) (baked : Protocol Schema) where
  abbrev pub env_of : Course Position → Env Position Schema
  env_of c = record {
    view_distance = v;
    pong = c.pong;
    baked = baked;
    dial_error = c.dial_error;
    spawn_error = c.spawn_error;
    xuid = c.xuid;
    runtime_id = c.runtime_id;
    writer = c.writer;
    passes = c.passes;
  }

  -- A session whose read loop goes on with the respawner `r`, whatever its next passes are.
  pub record Reading (r : Respawner) (actions : List (Action Position)) : Type 0 where
    pub course : Course Position
    pub goes_on :
        (rest : List (Pass Position))
        → session k (env_of (record course { passes = course.passes ++ rest })) ≡ (
          actions ++ ((read_loop k v r rest).0 ++ closing (read_loop k v r rest).1),
          (read_loop k v r rest).1,
        )

  -- What a session that stands there has done.
  abbrev pub Stands : Stage → List (Action Position) → Type 0
  Stands pinging actions = actions ≡ []
  Stands (dialing id) actions =
      (pong : Option Text) × (id ≡ number baked pong) × (actions ≡ spoof_logs baked pong)
  Stands spawning actions =
      (pong : Option Text) × (actions
        ≡ spoof_logs baked pong ++ dial (number baked pong) true ∷ watch ∷ [])
  Stands requesting actions =
      (pong : Option Text) × (xuid : Text) × (actions
        ≡ spoof_logs baked pong ++ entry_actions v baked pong xuid)
  Stands (at_pass r) actions = Reading r actions
  Stands (in_read r) actions = Reading r actions
  Stands (read_failed err) actions = (r : Respawner) × Reading r actions
  Stands (over err) actions =
      (c : Course Position) × (session k (env_of c) ≡ (actions, returned err))

  abbrev pub Of : Progress Position → Type 0
  Of s = Stands s.stage s.actions
