-- ===== src/Bot/Open/Paced.antt =====
-- A bot with no agent is never parked, and waits before each of its sessions but the first.
use minecraft_afk_bot.Bot.Open.Counts.{
  is_parked_line, is_connect, is_sleep, Inv, Sound-stopped, Paced-bound,
}
use minecraft_afk_bot.Bot.Open.Places.{
  head_in-Inv, timer_in-Inv, stop_waiting_in-Inv, admit_in-Inv, spawn_in-Inv, connect_in-Inv,
  report_in-Inv, observe_in-Inv, let_go_in-Inv, finish_in-Inv,
}
use minecraft_afk_bot.Bot.Backoff.{Duration}
use minecraft_afk_bot.Bot.Loop.{start}
use minecraft_afk_bot.Bot.Open.{step, continue, run}
use minecraft_afk_bot.Bot.System.{
  System, Step, gate, head, timer, stop_waiting, admit_returns, spawn, connect_returns,
  report_apart, observe, let_go, finish, start_on,
}
use minecraft_afk_bot.Bot.System.Runs.{Ensured}
use minecraft_afk_bot.Presence.Gate
use minecraft_afk_bot.Presence.Gate.{World, shutdown, refused, admitted, always_present_admit}
use minecraft_afk_bot.Presence.Reconciler.{Reconciler}
use minecraft_afk_bot.Prelude.{
  ◌+◌, ◌≤◌, ◌≡◌, refl, subst, List, [], ◌∷◌, Option, none, some, arith, count, some-injective,
}

module _ (lo hi : Duration) where
  step-Inv : (x : Step) (s : System) → Inv s → Ensured Inv (step lo hi x s)
  unfolding step
  step-Inv (gate shutdown) s h = record {
    sound = Sound-stopped s.place s.world;
    quiet = h.quiet;
    paced = h.paced;
  }
  step-Inv (head i) s h = head_in-Inv i s.place s h
  step-Inv timer s h = timer_in-Inv s.place s h
  step-Inv stop_waiting s h = stop_waiting_in-Inv s.place s h
  step-Inv admit_returns s h = admit_in-Inv s.place s h
  step-Inv spawn s h = spawn_in-Inv s.place s refl h
  step-Inv (connect_returns err lasted) s h = connect_in-Inv err lasted s.place s h
  step-Inv report_apart s h = report_in-Inv s.place s h
  step-Inv observe s h = observe_in-Inv s.place s h
  step-Inv let_go s h = let_go_in-Inv s.place s h
  step-Inv finish s h = finish_in-Inv lo hi s.place s h
  step-Inv (gate g) s h = tt

  continue-keeps :
      (o : Option System) (rest : System → Option System) (t : System)
      → Ensured Inv o
      → ((s : System) → Inv s → rest s ≡ some t → Inv t)
      → continue lo hi o rest ≡ some t
      → Inv t
  unfolding continue
  continue-keeps none rest t h keeps e = cc
  continue-keeps (some s) rest t h keeps e = keeps s h e

  run-Inv : (steps : List Step) (s t : System) → run lo hi steps s ≡ some t → Inv s → Inv t
  unfolding run
  run-Inv [] s t e h = subst Inv (some-injective s t e) h
  run-Inv (x ∷ steps) s t e h =
      continue-keeps (step lo hi x s) (run lo hi steps) t (step-Inv x s h)
        (λ u held rest. run-Inv steps u t rest held) e

-- At each moment of a run with no agent, however a shutdown falls among the steps of the loop: no
-- session has been logged as parked, and there have been at most as many sessions as waits, and one
-- more, so that the bot waits before each session but the first.
pub run-Paced :
    (lo hi : Duration) (r : Reconciler) (steps : List Step) (s : System)
    → run lo hi steps (start_on r lo) ≡ some s
    → (count is_parked_line s.done ≡ 0) × (count is_connect s.done ≤ count is_sleep s.done + 1)
unfolding start_on Gate.start start
run-Paced lo hi r steps s e =
    let h =
      run-Inv lo hi steps (start_on r lo) s e
        (record { sound = tt; quiet = refl; paced = ((λ first. omega arith), omega arith) }) in
    (
      h.quiet,
      Paced-bound s.place s.loop.first (count is_connect s.done) (count is_sleep s.done) h.paced,
    )
