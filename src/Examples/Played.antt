-- ===== src/Examples/Played.antt =====
-- Tests of the whole program of cmd/bot/main.go, the session among the other threads.
use minecraft_afk_bot.Bot.Threads.Stops.{stop_moves, stopped, shutdown_closes}
use minecraft_afk_bot.Bot.Session.{Action, dial, session, returned}
use minecraft_afk_bot.Bot.Session.Link
use minecraft_afk_bot.Bot.Session.Link.{down}
use minecraft_afk_bot.Bot.Session.Result.{is_session_ended}
use minecraft_afk_bot.Bot.Session.Steps
use minecraft_afk_bot.Bot.Session.Steps.{
  Event, over, Event, pinged, dialled, entered, requested, tested, cancelled, interrupted,
  explained, Progress, begun, in_read, pinged_in, dialled_in, entered_in, requested_in, tested_in,
  explained_in, cancelled_in, interrupted_in,
}
use minecraft_afk_bot.Bot.Session.Steps.Calls.{has_spawned}
use minecraft_afk_bot.Bot.Session.Steps.Course.{Course, env_of}
use minecraft_afk_bot.Bot.Session.Steps.Covers
use minecraft_afk_bot.Bot.Session.Steps.Covers.{run-session}
use minecraft_afk_bot.Bot.System
use minecraft_afk_bot.Bot.System.{
  returned, in_session, admitting, System, Step, gate, head, admit_returns, spawn_in, start_on,
}
use minecraft_afk_bot.Bot.System.Parks.{off_server}
use minecraft_afk_bot.Bot.System.Places.{may_report}
use minecraft_afk_bot.Bot.Threads.{
  Threads, Move, beside, inside, step, continue, run, started, beside_in, inside_in, stepped,
  call_back,
}
use minecraft_afk_bot.Bot.Threads.Connection.{
  open-IsAdmitted, status-has_spawned, session_ended-never,
}
use minecraft_afk_bot.Bot.Threads.Enters.{ready}
use minecraft_afk_bot.Bot.Threads.Leaves.{park_moves, park_closes}
use minecraft_afk_bot.Bot.Threads.Exits.{exit_events, left}
use minecraft_afk_bot.Bot.Threads.Bounds.{ended-steps}
use minecraft_afk_bot.Bot.Threads.Runs.{with_progress}
use minecraft_afk_bot.Examples.Agent.{api, api-IsContract, client}
use minecraft_afk_bot.Examples.Respawn.{protocol_constants}
use minecraft_afk_bot.Examples.Threads.{low, high, made, parked}
use minecraft_afk_bot.Liveness
use minecraft_afk_bot.Mcproto.{Protocol, negotiate}
use minecraft_afk_bot.Presence.Gate
use minecraft_afk_bot.Presence.Gate.{shutdown, admitted, follow, check, look}
use minecraft_afk_bot.Presence.Reconciler.{new_reconciler, set, set_connected, status_of}
use minecraft_afk_bot.Prelude.Int.{pos}
use minecraft_afk_bot.Prelude.Strings.{codes}
use minecraft_afk_bot.Prelude.{
  length, map, Bool, ◌≤◌, ℕ, ◌≡◌, ◌↔◌, ◌&&◌, refl, true, false, List, [], ◌∷◌, ◌++◌, none, some,
  equal, count,
}

abbrev pub baked : Protocol ℕ
baked = record { id = pos 776; schema = 0 }

abbrev reading_progress : Progress ℕ
reading_progress = record {
  stage = in_read (Liveness.new 42);
  actions = (ready 12 baked none (codes "2535") 42).actions ++ [];
  is_cut = false;
}

-- The server cannot be reached.
abbrev unreached : List (Action ℕ)
unreached = dial (pos 776) false ∷ []

run-session_example :
    let err = some (codes "dial: timeout") in
    ((is_cut : Bool) × Covers.Reaches protocol_constants 12 baked begun
        (record { stage = over err; actions = unreached; is_cut = is_cut }))
    ↔ ((c : Course ℕ) × (session protocol_constants (env_of protocol_constants 12 baked c)
          ≡ (unreached, returned err)))
run-session_example =
    run-session protocol_constants 12 baked unreached (some (codes "dial: timeout"))

-- The bot comes into its session and spawns, and is then parked.
abbrev moves : List (Move ℕ)
moves =
    beside (head (λ n. 0))
    ∷ beside (gate check)
    ∷ beside (gate look)
    ∷ beside admit_returns
    ∷ inside (pinged none)
    ∷ inside (dialled none)
    ∷ inside (entered none (codes "2535"))
    ∷ inside (requested none 42)
    ∷ inside tested
    ∷ beside (gate (follow (codes "parked") (codes "7")))
    ∷ []

abbrev playing : Threads ℕ
playing = record { system = parked; session = reading_progress }

run-moves : run api low high protocol_constants 12 baked moves (started made low) ≡ some playing
unfolding run continue step beside_in inside_in stepped call_back Steps.step Steps.step_at pinged_in
    dialled_in entered_in requested_in tested_in System.step Gate.step started start_on
    new_reconciler equal set_connected set spawn_in negotiate
run-moves = refl

open-IsAdmitted_example : (in_session ≡ in_session) × (parked.world.phase ≡ admitted)
unfolding negotiate
open-IsAdmitted_example =
    open-IsAdmitted api low high protocol_constants 12 baked client (codes "present") (codes "1.0")
      moves playing run-moves refl

status-has_spawned_example :
    (status_of api parked.world.reconciler).connected
    ≡ (may_report in_session && has_spawned reading_progress.actions)
status-has_spawned_example =
    status-has_spawned api low high protocol_constants 12 baked client (codes "present")
      (codes "1.0") moves playing run-moves

session_ended-never_example : count is_session_ended parked.done ≡ 0
session_ended-never_example =
    session_ended-never api low high protocol_constants 12 baked client (codes "present")
      (codes "1.0") moves playing run-moves

park_closes_example :
    (run api low high protocol_constants 12 baked
        (park_moves (codes "closed") (pos 7) (λ n. 0) reading_progress)
        playing
      ≡ some (with_progress (off_server low (pos 7) parked) (left reading_progress)))
    × (length (exit_events {Position = ℕ} (codes "closed") false reading_progress.stage) ≤ 3)
    × ((Link.observe_all down (left reading_progress).actions).is_open ≡ false)
unfolding set set_connected new_reconciler equal
park_closes_example =
    park_closes api api-IsContract low high protocol_constants 12 baked client (codes "present")
      (codes "1.0") moves playing 0 (codes "closed") (pos 7) (λ n. 0) run-moves refl tt refl refl
      refl

shutdown_closes_example :
    (run api low high protocol_constants 12 baked
        (stop_moves (codes "closed") (pos 7) reading_progress)
        playing
      ≡ some (with_progress (stopped parked) (left reading_progress)))
    × (length (exit_events {Position = ℕ} (codes "closed") false reading_progress.stage) ≤ 3)
    × ((Link.observe_all down (left reading_progress).actions).is_open ≡ false)
shutdown_closes_example =
    shutdown_closes api low high protocol_constants 12 baked client (codes "present") (codes "1.0")
      moves playing (codes "closed") (pos 7) run-moves refl tt

-- The bot waits for the agent, which then asks for it.
abbrev waiting_moves : List (Move ℕ)
waiting_moves =
    beside (head (λ n. 0))
    ∷ beside (gate check)
    ∷ beside (gate look)
    ∷ beside (gate (follow (codes "present") (codes "8")))
    ∷ []

-- The process is told to stop while the bot plays.
abbrev stopped_playing : Threads ℕ
stopped_playing = record playing {
  system = record parked { world = record parked.world { ctx_done = true; session_done = true } };
}

-- The session then leaves on its closed connection.
abbrev leaving : List (Event ℕ)
leaving = cancelled ∷ interrupted (codes "closed") ∷ explained ∷ []

run-leaving :
    run api low high protocol_constants 12 baked (map inside leaving) stopped_playing
    ≡ some (record stopped_playing { session = left reading_progress })
unfolding run continue step inside_in stepped call_back Steps.step Steps.step_at cancelled_in
    interrupted_in explained_in negotiate
run-leaving = refl

ended-steps_example : length leaving ≤ 6
ended-steps_example =
    ended-steps api low high protocol_constants 12 baked leaving stopped_playing
      (record stopped_playing { session = left reading_progress }) refl run-leaving
