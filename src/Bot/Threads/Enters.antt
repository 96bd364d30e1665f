-- ===== src/Bot/Threads/Enters.antt =====
-- From a bot that waits off the server back into the world, through the session.
use minecraft_afk_bot.Bot.Loop
use minecraft_afk_bot.Bot.Session.{write, radius_request}
use minecraft_afk_bot.Bot.Session.Steps
use minecraft_afk_bot.Bot.Session.Steps.{
  at_pass, Progress, Event, pinged, dialled, entered, requested,
}
use minecraft_afk_bot.Bot.Session.Steps.Course.{spoof_logs, entry_actions}
use minecraft_afk_bot.Bot.System
use minecraft_afk_bot.Bot.System.{in_session, System, start_on, tell}
use minecraft_afk_bot.Bot.System.Returns.{return_schedule, on_server}
use minecraft_afk_bot.Bot.System.Runs
use minecraft_afk_bot.Bot.Threads.{Threads, Move, beside, inside}
use minecraft_afk_bot.Liveness
use minecraft_afk_bot.Mcproto.{Protocol}
use minecraft_afk_bot.Presence.Api.{Api}
use minecraft_afk_bot.Presence.Client.{Client}
use minecraft_afk_bot.Prelude.{Text, ℕ, true, false, List, [], ◌∷◌, ◌++◌, map, Option, none}

-- `Admit` returns a session, and the session dials, spawns and asks for its chunks.
abbrev pub return_moves : {Position : Type 0} → Option Text → Text → ℕ → List (Move Position)
return_moves pong xuid runtime_id =
    map beside return_schedule
    ++ map inside (pinged pong ∷ dialled none ∷ entered none xuid ∷ requested none runtime_id ∷ [])

-- The system behind the callback.
abbrev pub in_world : System → System
in_world s =
    let on = on_server s in
    record on { world = tell true on.world; done = on.done ++ Loop.connected true ∷ [] }

-- A session that has asked for its chunks, before its first read.
abbrev pub ready :
    {Position Schema : Type 0} → ℕ → Protocol Schema → Option Text → Text → ℕ → Progress Position
ready v baked pong xuid runtime_id = record {
  stage = at_pass (Liveness.new runtime_id);
  actions =
      spoof_logs baked pong ++ (entry_actions v baked pong xuid ++ write (radius_request v) ∷ []);
  is_cut = false;
}
