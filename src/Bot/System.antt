-- ===== src/Bot/System.antt =====
-- `runConnectLoop` of cmd/bot/main.go on the gate of internal/presence, with the poller and the
-- watcher of the session beside it. The loop's own steps are those between two points at which
-- another thread can be noticed; a run is a list of steps as the scheduler chooses them.
pub mod Runs
pub mod Passes
pub mod Rounds
pub mod Refines
pub mod Apart
pub mod Fits
pub mod Places
pub mod Projection
pub mod Parks
pub mod Returns
pub mod Shutdown
pub mod History
pub mod Delays
use minecraft_afk_bot.Bot.Backoff.{Duration, Int63n, jitter}
use minecraft_afk_bot.Bot.Loop
use minecraft_afk_bot.Bot.Loop.{
  Action, log, sleep, admit, connect, connected, Round, Loop, milliseconds, settle, start,
}
use minecraft_afk_bot.Logging.{severity_info, int}
use minecraft_afk_bot.Presence.Api.{Api}
use minecraft_afk_bot.Presence.Gate
use minecraft_afk_bot.Presence.Gate.{
  World, Phase, at_top, checked, admitted, refused, waiting, follow, shutdown, check, look, wake,
  give_up, watcher_stop, watcher_wake, watcher_look, again,
}
use minecraft_afk_bot.Presence.Reconciler.{Reconciler, set_connected}
use minecraft_afk_bot.Prelude.Int.{pos}
use minecraft_afk_bot.Prelude.Strings.{codes}
use minecraft_afk_bot.Prelude.{
  Text, ℕ, Bool, true, false, List, [], ◌∷◌, ◌++◌, Option, none, some, if◌then◌else◌,
}

-- Where the loop stands: at its head, in the `select` with the timer, in `gate.Admit`, in `connect`,
-- behind the four statements that follow it, or returned.
pub data Place : Type 0 where
  at_head sleeping admitting in_session returned : Place
  -- with the error and the length of the session
  ended reported : Option Text → Duration → Place
  -- and with `parked`
  observed released : Option Text → Duration → Bool → Place

pub record System : Type 0 where
  pub world : World
  pub place : Place
  pub loop : Loop
  -- what the loop has done so far
  pub done : List Action

pub data Step : Type 0 where
  -- a step of `Admit`, of the poller or of the watcher
  gate : Gate.Step → Step
  -- the head of the pass, with the random number
  head : Int63n → Step
  -- the two cases of the `select`
  timer stop_waiting : Step
  -- `gate.Admit` returns
  admit_returns : Step
  -- `connect` calls back, and returns
  spawn : Step
  connect_returns : Option Text → Duration → Step
  -- `gate.Connected(false)`, the read of `sess.Err()`, `release()`, and the rest of the pass
  report_apart observe let_go finish : Step

-- What `gate` may do: `Admit` moves only while the loop is in it, and the loop's own steps are not
-- among them.
abbrev pub allowed : Place → Gate.Step → Bool
allowed admitting check = true
allowed admitting look = true
allowed admitting wake = true
allowed admitting give_up = true
allowed place (follow state etag) = true
allowed place shutdown = true
allowed place watcher_stop = true
allowed place watcher_wake = true
allowed place watcher_look = true
allowed place step = false

abbrev pub waiting_for : Int63n → Duration → List Action
waiting_for int63n delay =
    let wait = jitter int63n delay in
    log severity_info (codes "reconnecting") ((codes "in_ms", int (milliseconds wait)) ∷ [])
    ∷ sleep wait
    ∷ []

-- The call of `gate.Admit`.
abbrev pub enter : System → System
enter s = record s { place = admitting; world = record s.world { phase = at_top } }

abbrev pub tell : Bool → World → World
tell c w = record w { reconciler = set_connected c w.reconciler }

abbrev pub on_gate : System → Option World → Option System
on_gate s none = none
on_gate s (some w) = some (record s { world = w })

unfoldable pub gate_in : Api → Gate.Step → Bool → System → Option System
gate_in api g false s = none
gate_in api g true s = on_gate s (Gate.step api g s.world)

unfoldable pub head_in : Int63n → Place → System → Option System
head_in int63n at_head s = some (
    if s.world.ctx_done
    then record s { place = returned }
    else if s.loop.first
    then enter s
    else record s { place = sleeping; done = s.done ++ waiting_for int63n s.loop.delay })
head_in int63n _ s = none

unfoldable pub timer_in : Place → System → Option System
timer_in sleeping s = some (enter s)
timer_in _ s = none

unfoldable pub stop_waiting_in : Place → System → Option System
stop_waiting_in sleeping s = if s.world.ctx_done then some (record s { place = returned }) else none
stop_waiting_in _ s = none

-- From what `Admit` has come to.
unfoldable pub admit_of : Phase → System → Option System
admit_of admitted s =
    some (record s { place = in_session; done = s.done ++ admit true ∷ connect ∷ [] })
admit_of refused s = some (record s { place = returned; done = s.done ++ admit false ∷ [] })
admit_of _ s = none

unfoldable pub admit_in : Place → System → Option System
admit_in admitting s = admit_of s.world.phase s
admit_in _ s = none

unfoldable pub spawn_in : Place → System → Option System
spawn_in in_session s = some (record s {
  place = in_session;
  world = tell true s.world;
  done = s.done ++ connected true ∷ [];
})
spawn_in _ s = none

unfoldable pub connect_in : Option Text → Duration → Place → System → Option System
connect_in err lasted in_session s = some (record s { place = ended err lasted })
connect_in err lasted _ s = none

unfoldable pub report_in : Place → System → Option System
report_in (ended err lasted) s = some (record s {
  place = reported err lasted;
  world = tell false s.world;
  done = s.done ++ connected false ∷ [];
})
report_in _ s = none

unfoldable pub observe_in : Place → System → Option System
observe_in (reported err lasted) s =
    some (record s { place = observed err lasted s.world.session_done })
observe_in _ s = none

unfoldable pub let_go_in : Place → System → Option System
let_go_in (observed err lasted parked) s = some (record s {
  place = released err lasted parked;
  world = record s.world { session_done = true };
  done = s.done ++ Loop.release ∷ [];
})
let_go_in _ s = none

-- From the release: what `settle` of the loop reads of a round.
abbrev pub round_of : Int63n → ℕ → Option Text → Duration → Bool → Bool → Round
round_of int63n spawns err lasted parked done = record {
  done_before = false;
  int63n = int63n;
  done_waiting = false;
  refused = false;
  spawns = spawns;
  err = err;
  lasted = lasted;
  session_done = parked;
  done_after = done;
}

abbrev pub settled : System → List Action × Option Loop → System
settled s (more, none) = record s { place = returned; done = s.done ++ more }
settled s (more, some l) = record s { place = at_head; loop = l; done = s.done ++ more }

unfoldable pub finish_in : Duration → Duration → Place → System → Option System
finish_in min_delay max_delay (released err lasted parked) s =
    let r = round_of (λ n. 0) 0 err lasted parked s.world.ctx_done in
    some (settled s (settle min_delay max_delay s.loop r))
finish_in min_delay max_delay _ s = none

module _ (api : Api) (min_delay max_delay : Duration) where
  -- One step, or `none` where it cannot be taken.
  unfoldable pub step : Step → System → Option System
  unfolding gate_in head_in timer_in stop_waiting_in admit_in admit_of spawn_in connect_in report_in
      observe_in let_go_in finish_in
  step (gate g) s = gate_in api g (allowed s.place g) s
  step (head int63n) s = head_in int63n s.place s
  step timer s = timer_in s.place s
  step stop_waiting s = stop_waiting_in s.place s
  step admit_returns s = admit_in s.place s
  step spawn s = spawn_in s.place s
  step (connect_returns err lasted) s = connect_in err lasted s.place s
  step report_apart s = report_in s.place s
  step observe s = observe_in s.place s
  step let_go s = let_go_in s.place s
  step finish s = finish_in min_delay max_delay s.place s

  unfoldable pub continue : Option System → (System → Option System) → Option System
  continue none rest = none
  continue (some s) rest = rest s

  unfoldable pub run : List Step → System → Option System
  unfolding continue
  run [] s = some s
  run (x ∷ steps) s = continue (step x s) (run steps)

-- The program behind the start of its gate.
unfoldable pub start_on : Reconciler → Duration → System
unfolding start Gate.start
start_on r min_delay = record {
  world = Gate.start r;
  place = at_head;
  loop = start min_delay;
  done = [];
}
