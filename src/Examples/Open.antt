-- ===== src/Examples/Open.antt =====
-- Tests of the connect loop of cmd/bot/main.go with no agent.
use minecraft_afk_bot.Bot.Open.{step, continue, run}
use minecraft_afk_bot.Bot.Open.Counts.{is_parked_line, is_connect, is_sleep}
use minecraft_afk_bot.Bot.Open.Paced.{run-Paced}
use minecraft_afk_bot.Bot.System.{
  in_session, System, Step, gate, head, timer, admit_returns, spawn, connect_returns, report_apart,
  observe, let_go, finish, start_on, waiting_for,
}
use minecraft_afk_bot.Bot.Loop
use minecraft_afk_bot.Bot.Loop.{start, settle, log_end}
use minecraft_afk_bot.Bot.Backoff.{backoff}
use minecraft_afk_bot.Examples.Threads.{low, high, made}
use minecraft_afk_bot.Presence.Gate
use minecraft_afk_bot.Presence.Gate.{always_present_admit, shutdown}
use minecraft_afk_bot.Presence.Reconciler.{new_reconciler}
use minecraft_afk_bot.Prelude.Int.{pos}
use minecraft_afk_bot.Prelude.Strings.{codes}
use minecraft_afk_bot.Prelude.{◌≡◌, ◌≤◌, ◌+◌, refl, List, [], ◌∷◌, ◌++◌, true, false, some, count}

-- A session that fails, a wait, and a session during which the process is told to stop.
abbrev steps : List Step
steps =
    head (λ n. 0)
    ∷ admit_returns
    ∷ spawn
    ∷ connect_returns (some (codes "read: EOF")) (pos 7)
    ∷ report_apart
    ∷ observe
    ∷ let_go
    ∷ finish
    ∷ head (λ n. 0)
    ∷ timer
    ∷ admit_returns
    ∷ gate shutdown
    ∷ []

abbrev stopping : System
stopping = record {
  world = record (Gate.start made) { phase = Gate.admitted; ctx_done = true; session_done = true };
  place = in_session;
  loop = record { delay = pos 10_000_000_000; first = false };
  done =
      Loop.admit true
      ∷ Loop.connect
      ∷ Loop.connected true
      ∷ Loop.connected false
      ∷ Loop.release
      ∷ log_end (some (codes "read: EOF")) (pos 7)
      ∷ (waiting_for (λ n. 0) (pos 10_000_000_000) ++ Loop.admit true ∷ Loop.connect ∷ []);
}

run-steps : run low high steps (start_on made low) ≡ some stopping
unfolding run continue step Gate.start start_on new_reconciler start backoff settle
run-steps = refl

run-Paced_example :
    (count is_parked_line stopping.done ≡ 0)
    × (count is_connect stopping.done ≤ count is_sleep stopping.done + 1)
run-Paced_example = run-Paced low high made steps stopping run-steps
