-- ===== src/Bot/Open.antt =====
-- `runConnectLoop` of cmd/bot/main.go on `AlwaysPresent` of internal/presence/gate.go, the gate of a
-- bot with no agent: no poller and no watcher runs beside it.
pub mod Counts
pub mod Places
pub mod Paced
use minecraft_afk_bot.Bot.Backoff.{Duration}
use minecraft_afk_bot.Bot.Loop
use minecraft_afk_bot.Bot.System.{
  Place, admitting, in_session, ended, reported, System, Step, gate, head, timer, stop_waiting,
  admit_returns, spawn, connect_returns, report_apart, observe, let_go, finish, head_in, timer_in,
  stop_waiting_in, admit_of, connect_in, observe_in, let_go_in, finish_in,
}
use minecraft_afk_bot.Presence.Gate.{World, shutdown, always_present_admit}
use minecraft_afk_bot.Prelude.{true, false, List, [], ◌∷◌, ◌++◌, Option, none, some}

-- `AlwaysPresent.Admit`, which does not wait.
unfoldable pub admit_in : Place → System → Option System
unfolding always_present_admit admit_of
admit_in admitting s =
    let w = always_present_admit s.world in admit_of w.phase (record s { world = w })
admit_in _ s = none

-- `AlwaysPresent.Connected` does nothing.
unfoldable pub spawn_in : Place → System → Option System
spawn_in in_session s = some (record s { done = s.done ++ Loop.connected true ∷ [] })
spawn_in _ s = none

unfoldable pub report_in : Place → System → Option System
report_in (ended err lasted) s =
    some (record s { place = reported err lasted; done = s.done ++ Loop.connected false ∷ [] })
report_in _ s = none

abbrev pub stopped : World → World
stopped w = record w { ctx_done = true; session_done = true }

module _ (min_delay max_delay : Duration) where
  -- One step, or `none` where it cannot be taken. The one step beside the loop is a shutdown.
  unfoldable pub step : Step → System → Option System
  unfolding head_in timer_in stop_waiting_in admit_in spawn_in connect_in report_in observe_in
      let_go_in finish_in
  step (gate shutdown) s = some (record s { world = stopped s.world })
  step (head int63n) s = head_in int63n s.place s
  step timer s = timer_in s.place s
  step stop_waiting s = stop_waiting_in s.place s
  step admit_returns s = admit_in s.place s
  step spawn s = spawn_in s.place s
  step (connect_returns err lasted) s = connect_in err lasted s.place s
  step report_apart s = report_in s.place s
  step observe s = observe_in s.place s
  step let_go s = let_go_in s.place s
  step finish s = finish_in min_delay max_delay s.place s
  step (gate g) s = none

  unfoldable pub continue : Option System → (System → Option System) → Option System
  continue none rest = none
  continue (some s) rest = rest s

  unfoldable pub run : List Step → System → Option System
  unfolding continue
  run [] s = some s
  run (x ∷ steps) s = continue (step x s) (run steps)
