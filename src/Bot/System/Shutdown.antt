-- ===== src/Bot/System/Shutdown.antt =====
-- How the loop returns once the process is told to stop.
use minecraft_afk_bot.Bot.Backoff.{Duration}
use minecraft_afk_bot.Bot.Loop.{settle}
use minecraft_afk_bot.Bot.System.{
  Place, at_head, sleeping, admitting, in_session, returned, ended, reported, observed, released,
  System, Step, gate, head, stop_waiting, admit_returns, connect_returns, report_apart, observe,
  let_go, finish, step, continue, run,
}
use minecraft_afk_bot.Presence.Api.{Api}
use minecraft_afk_bot.Presence.Gate
use minecraft_afk_bot.Presence.Gate.{
  World, Phase, admitted, refused, at_top, checked, waiting, check, look, give_up,
}
use minecraft_afk_bot.Presence.Reconciler.{set_connected}
use minecraft_afk_bot.Prelude.{
  Text, ◌≤◌, length, ◌≡◌, refl, sym, Bool, true, false, List, [], ◌∷◌, Option, none, some, equal,
  arith, subst, if◌then◌else◌,
}

-- The run came to the return of the loop.
abbrev pub HasReturned : Option System → Type 0
HasReturned none = ⊥
HasReturned (some s) = s.place ≡ returned

module _ (api : Api) (err : Option Text) (lasted : Duration) where
  -- From a session on; its connection is closed by the context that has ended.
  abbrev pub out_of_session : List Step
  out_of_session = connect_returns err lasted ∷ report_apart ∷ observe ∷ let_go ∷ finish ∷ []

  -- From `Admit`.
  abbrev pub out_of_admit : Phase → Bool → List Step
  out_of_admit at_top present = gate check ∷ admit_returns ∷ []
  out_of_admit checked present =
      if present
      then gate look ∷ admit_returns ∷ out_of_session
      else gate look ∷ gate give_up ∷ admit_returns ∷ []
  out_of_admit admitted present = admit_returns ∷ out_of_session
  out_of_admit refused present = admit_returns ∷ []
  out_of_admit (waiting c) present = gate give_up ∷ admit_returns ∷ []

  -- The steps that take the loop to its return, from where it stands.
  abbrev pub way_out : Place → World → List Step
  way_out at_head w = head (λ n. 0) ∷ []
  way_out sleeping w = stop_waiting ∷ []
  way_out admitting w = out_of_admit w.phase (equal w.reconciler.desired api.state_present)
  way_out in_session w = out_of_session
  way_out (ended e l) w = report_apart ∷ observe ∷ let_go ∷ finish ∷ []
  way_out (reported e l) w = observe ∷ let_go ∷ finish ∷ []
  way_out (observed e l p) w = let_go ∷ finish ∷ []
  way_out (released e l p) w = finish ∷ []
  way_out returned w = []

  length-out_of_admit : (q : Phase) (b : Bool) → length (out_of_admit q b) ≤ 7
  length-out_of_admit at_top b = omega arith
  length-out_of_admit checked true = omega arith
  length-out_of_admit checked false = omega arith
  length-out_of_admit admitted b = omega arith
  length-out_of_admit refused b = omega arith
  length-out_of_admit (waiting c) b = omega arith

  length-way_out : (p : Place) (w : World) → length (way_out p w) ≤ 7
  length-way_out at_head w = omega arith
  length-way_out sleeping w = omega arith
  length-way_out admitting w =
      length-out_of_admit w.phase (equal w.reconciler.desired api.state_present)
  length-way_out in_session w = omega arith
  length-way_out (ended e l) w = omega arith
  length-way_out (reported e l) w = omega arith
  length-way_out (observed e l p) w = omega arith
  length-way_out (released e l p) w = omega arith
  length-way_out returned w = omega arith

  module _ (lo hi : Duration) where
    stopping : System → Place → Phase → System
    stopping s p q = record s { place = p; world = record s.world { ctx_done = true; phase = q } }

    session-out :
        (s : System) (q : Phase)
        → HasReturned (run api lo hi out_of_session (stopping s in_session q))
    unfolding run continue step settle stopping set_connected
    session-out s q = refl

    checked-out :
        (s : System) (b : Bool)
        → equal s.world.reconciler.desired api.state_present ≡ b
        → HasReturned (run api lo hi (out_of_admit checked b) (stopping s admitting checked))
    unfolding run continue step settle stopping set_connected Gate.step
    checked-out s true e = rw e refl
    checked-out s false e = rw e refl

    admit-out :
        (s : System) (q : Phase)
        → HasReturned (
            run api lo hi
              (out_of_admit q (equal s.world.reconciler.desired api.state_present))
              (stopping s admitting q))
    unfolding run continue step settle stopping set_connected Gate.step
    admit-out s at_top = refl
    admit-out s checked = checked-out s _ refl
    admit-out s admitted = refl
    admit-out s refused = refl
    admit-out s (waiting c) = refl

    place-out :
        (s : System) (p : Place)
        → HasReturned (run api lo hi (way_out p s.world) (stopping s p s.world.phase))
    unfolding run continue step settle stopping set_connected
    place-out s at_head = refl
    place-out s sleeping = refl
    place-out s admitting = admit-out s s.world.phase
    place-out s in_session = refl
    place-out s (ended e l) = refl
    place-out s (reported e l) = refl
    place-out s (observed e l p) = refl
    place-out s (released e l p) = refl
    place-out s returned = refl

-- Wherever the loop stands when the process is told to stop, at most seven steps of its own and of
-- its call of `Admit` take it to its return, with no wait for the timer, the agent or the poller;
-- where it is in a session, one of them is the return of `connect`.
pub shutdown_returns :
    (api : Api) (lo hi : Duration) (err : Option Text) (lasted : Duration) (s : System)
    → s.world.ctx_done ≡ true
    → (length (way_out api err lasted s.place s.world) ≤ 7)
      × HasReturned (run api lo hi (way_out api err lasted s.place s.world) s)
unfolding stopping
shutdown_returns api lo hi err lasted s done = (
  length-way_out api err lasted s.place s.world,
  subst
      (λ b. HasReturned (
        run api lo hi (way_out api err lasted s.place s.world)
          (record s { world = record s.world { ctx_done = b } })))
      (sym done) (place-out api err lasted lo hi s s.place),
)
