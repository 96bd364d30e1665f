-- ===== src/Examples/Threads.antt =====
-- Tests of the connect loop of cmd/bot/main.go among the other threads.
use minecraft_afk_bot.Bot.System.Shutdown.{way_out, HasReturned, shutdown_returns}
use minecraft_afk_bot.Bot.Backoff.{Duration}
use minecraft_afk_bot.Bot.Loop.{of_milliseconds, admit, connect, connected, start}
use minecraft_afk_bot.Bot.System.{
  in_session, admitting, System, Step, gate, head, admit_returns, spawn, run, continue, step,
  start_on,
}
use minecraft_afk_bot.Bot.System.Apart.{apart}
use minecraft_afk_bot.Bot.System.Passes.{Stands}
use minecraft_afk_bot.Bot.System.Projection.{reachable-projects}
use minecraft_afk_bot.Bot.System.Refines.{reachable-Stands}
use minecraft_afk_bot.Bot.System.Delays.{reachable-Within}
use minecraft_afk_bot.Bot.System.History.{ledger_at, reachable-ledger_at}
use minecraft_afk_bot.Bot.Loop.Status.{idle, observe_all}
use minecraft_afk_bot.Bot.Loop.Waits.{Within, WaitsWithin}
use minecraft_afk_bot.Examples.Agent.{api, client}
use minecraft_afk_bot.Presence.Gate
use minecraft_afk_bot.Presence.Gate.{admitted, waiting, absent, watching, follow, check, look}
use minecraft_afk_bot.Presence.Reconciler.{Reconciler, new_reconciler, set, set_connected}
use minecraft_afk_bot.Prelude.Int.{pos, scale64}
use minecraft_afk_bot.Prelude.Strings.{codes}
use minecraft_afk_bot.Prelude.{
  All, ◌*◌, arith, length, ◌≤◌, none, ◌≡◌, refl, true, false, List, [], ◌∷◌, some, equal,
}

abbrev pub low : Duration
low = pos 5_000_000_000

abbrev pub high : Duration
high = pos 300_000_000_000

abbrev pub made : Reconciler
made = new_reconciler client (codes "present") (codes "1.0")

-- The bot comes into its session, and is then parked.
abbrev steps : List Step
steps =
    head (λ n. 0)
    ∷ gate check
    ∷ gate look
    ∷ admit_returns
    ∷ spawn
    ∷ gate (follow (codes "parked") (codes "7"))
    ∷ []

abbrev pub parked : System
parked = record {
  world = record {
    reconciler = (set (codes "parked") (codes "7") (set_connected true made)).0;
    ctx_done = false;
    phase = admitted;
    watcher = watching 0;
    session_done = false;
  };
  place = in_session;
  loop = start low;
  done = admit true ∷ connect ∷ connected true ∷ [];
}

run-steps : run api low high steps (start_on made low) ≡ some parked
unfolding run continue step Gate.step start_on new_reconciler equal start set_connected set
run-steps = refl

reachable-Stands_example : Stands low high in_session (start low) parked.done
reachable-Stands_example = reachable-Stands api low high made steps parked run-steps

reachable-projects_example :
    (moves : List Gate.Step) × (Gate.run api moves (Gate.start made) ≡ some (apart parked.world))
reachable-projects_example =
    reachable-projects api low high client (codes "present") (codes "1.0") steps parked run-steps

abbrev pub made_parked : Reconciler
made_parked = new_reconciler client (codes "parked") (codes "1.0")

-- The bot waits for the agent, which then asks for it.
abbrev waits : List Step
waits = head (λ n. 0) ∷ gate check ∷ gate look ∷ gate (follow (codes "present") (codes "8")) ∷ []

abbrev pub wanted : System
wanted = record {
  world = record {
    reconciler = (set (codes "present") (codes "8") made_parked).0;
    ctx_done = false;
    phase = waiting 0;
    watcher = absent;
    session_done = false;
  };
  place = admitting;
  loop = start low;
  done = [];
}

reachable-ledger_at_example : observe_all idle parked.done ≡ ledger_at in_session true
unfolding set set_connected new_reconciler equal
reachable-ledger_at_example =
    reachable-ledger_at api low high client (codes "present") (codes "1.0") steps parked run-steps

run-steps_ms :
    run api
      (of_milliseconds 5_000)
      (of_milliseconds 300_000)
      steps
      (start_on made (of_milliseconds 5_000))
    ≡ some parked
unfolding of_milliseconds run continue step Gate.step start_on new_reconciler equal start
    set_connected set scale64
run-steps_ms = refl

reachable-Within_example :
    Within (5_000 * 1_000_000) (300_000 * 1_000_000) parked.loop.delay
    × All (WaitsWithin (5_000 * 1_000_000) (300_000 * 1_000_000)) parked.done
reachable-Within_example =
    reachable-Within api 5_000 300_000 made steps parked (omega arith) (omega arith)
      ((λ n. omega arith), (tt, (tt, (tt, (tt, (tt, tt)))))) run-steps_ms

-- The process is told to stop while the bot plays.
abbrev stopping : System
stopping = record parked { world = record parked.world { ctx_done = true; session_done = true } }

shutdown_returns_example :
    (length (way_out api none (pos 9) in_session stopping.world) ≤ 7)
    × HasReturned (run api low high (way_out api none (pos 9) in_session stopping.world) stopping)
shutdown_returns_example = shutdown_returns api low high none (pos 9) stopping refl
