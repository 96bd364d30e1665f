-- ===== src/Presence/Gate.antt =====
-- `Admit` and `cancelOnPark` of internal/presence/reconciler.go, and gate.go: the connect loop, the
-- poller and the watcher of the current session share the reconciler. A run is a list of the atomic
-- steps that the scheduler and the surroundings choose.
pub mod Waiters
pub mod Invariant
pub mod Progress
pub mod Ticks
use minecraft_afk_bot.Presence.Api.{Api}
use minecraft_afk_bot.Presence.Reconciler.{Channels, Reconciler, set}
use minecraft_afk_bot.Prelude.{
  Text, ℕ, Bool, true, false, not, ◌&&◌, List, [], ◌∷◌, Option, none, some, equal, if◌then◌else◌,
}

-- Where a call of `Admit` stands: before its test of the context, between that and the lock, in its
-- `select` on a channel, or returned, with a session or an error.
pub data Phase : Type 0 where
  at_top checked admitted refused : Phase
  waiting : ℕ → Phase

-- Where the goroutine `cancelOnPark` stands: none yet, in its `select` on a channel, between that
-- and the lock, or returned.
pub data Watcher : Type 0 where
  absent woken ended : Watcher
  watching : ℕ → Watcher

pub record World : Type 0 where
  pub reconciler : Reconciler
  -- `ctx.Err() != nil`
  pub ctx_done : Bool
  pub phase : Phase
  pub watcher : Watcher
  -- `sess.Err() != nil`
  pub session_done : Bool

pub data Step : Type 0 where
  -- the poller calls `set`
  follow : Text → Text → Step
  -- the process is told to stop, which ends the contexts below it too
  shutdown : Step
  -- `Admit`: the test of the context, the read under the lock, and the two cases of the `select`
  check look wake give_up : Step
  -- `cancelOnPark`: the two cases of the `select`, and the read under the lock
  watcher_stop watcher_wake watcher_look : Step
  -- the connect loop calls the session's `cancel`
  release : Step
  -- and, behind that, its next `Admit`
  again : Step

abbrev pub is_closed : World → ℕ → Bool
is_closed w c = w.reconciler.channels.closed c

-- `Admit`, from where it stands.
unfoldable pub check_in : Phase → World → Option World
check_in at_top w = some (record w { phase = if w.ctx_done then refused else checked })
check_in _ w = none

abbrev pub start_session : World → World
start_session w = record w {
  phase = admitted;
  watcher = watching w.reconciler.changed;
  session_done = w.ctx_done;
}

unfoldable pub look_in : Api → Phase → World → Option World
look_in api checked w = some (
    if equal w.reconciler.desired api.state_present
    then start_session w
    else record w { phase = waiting w.reconciler.changed })
look_in api _ w = none

unfoldable pub wake_in : Phase → World → Option World
wake_in (waiting c) w = if is_closed w c then some (record w { phase = at_top }) else none
wake_in _ w = none

unfoldable pub give_up_in : Phase → World → Option World
give_up_in (waiting c) w = if w.ctx_done then some (record w { phase = refused }) else none
give_up_in _ w = none

-- The next call of `Admit`, once the session is over. Its watcher, which can only cancel that session,
-- is replaced by the watcher of the next one.
unfoldable pub again_in : Phase → World → Option World
again_in admitted w = if w.session_done then some (record w { phase = at_top }) else none
again_in _ w = none

-- `cancelOnPark`, from where it stands.
unfoldable pub watcher_stop_in : Watcher → World → Option World
watcher_stop_in (watching c) w =
    if w.session_done then some (record w { watcher = ended }) else none
watcher_stop_in _ w = none

unfoldable pub watcher_wake_in : Watcher → World → Option World
watcher_wake_in (watching c) w = if is_closed w c then some (record w { watcher = woken }) else none
watcher_wake_in _ w = none

unfoldable pub watcher_look_in : Api → Watcher → World → Option World
watcher_look_in api woken w = some (
    if equal w.reconciler.desired api.state_parked
    then record w { watcher = ended; session_done = true }
    else record w { watcher = watching w.reconciler.changed })
watcher_look_in api _ w = none

-- One step, or `none` where it cannot be taken.
unfoldable pub step : Api → Step → World → Option World
unfolding set check_in look_in wake_in give_up_in again_in watcher_stop_in watcher_wake_in
    watcher_look_in
step api (follow state etag) w = some (record w { reconciler = (set state etag w.reconciler).0 })
step api shutdown w = some (record w { ctx_done = true; session_done = true })
step api check w = check_in w.phase w
step api look w = look_in api w.phase w
step api wake w = wake_in w.phase w
step api give_up w = give_up_in w.phase w
step api watcher_stop w = watcher_stop_in w.watcher w
step api watcher_wake w = watcher_wake_in w.watcher w
step api watcher_look w = watcher_look_in api w.watcher w
step api release w = some (record w { session_done = true })
step api again w = again_in w.phase w

-- The rest of a run, unless the step could not be taken.
unfoldable pub continue : Option World → (World → Option World) → Option World
continue none rest = none
continue (some w) rest = rest w

unfoldable pub run : Api → List Step → World → Option World
unfolding continue
run api [] w = some w
run api (s ∷ steps) w = continue (step api s w) (run api steps)

-- The first call of `Admit`, on a reconciler that has just been made.
unfoldable pub start : Reconciler → World
start r = record {
  reconciler = r;
  ctx_done = false;
  phase = at_top;
  watcher = absent;
  session_done = false;
}

-- `AlwaysPresent.Admit`: a session, or the error of a context that has ended; the session's own
-- context ends with it. `Connected` does nothing.
unfoldable pub always_present_admit : World → World
always_present_admit w =
    if w.ctx_done
    then record w { phase = refused }
    else record w { phase = admitted; session_done = w.ctx_done }
