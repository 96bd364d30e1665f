-- ===== src/Bot/System/Projection.antt =====
-- The system beside the gate by itself, and what the status reports tell.
use minecraft_afk_bot.Bot.Backoff.{Duration}
use minecraft_afk_bot.Bot.System.{
  Place, at_head, sleeping, admitting, in_session, returned, ended, reported, observed, released,
  System, Step, gate, head, timer, stop_waiting, admit_returns, spawn, connect_returns,
  report_apart, observe, let_go, finish, step, run, start_on, allowed,
}
use minecraft_afk_bot.Bot.System.Apart.{apart}
use minecraft_afk_bot.Bot.System.Runs.{Ensured, run-keeps}
use minecraft_afk_bot.Presence.Api.{Api}
use minecraft_afk_bot.Presence.Client.{Client}
use minecraft_afk_bot.Presence.Gate
use minecraft_afk_bot.Presence.Gate.{
  World, Phase, admitted, refused, at_top, checked, waiting, Watcher, absent, woken, watching,
  follow, shutdown, check, look, wake, give_up, watcher_stop, watcher_wake, watcher_look, release,
  again, check_in, look_in, wake_in, give_up_in, again_in, watcher_stop_in, watcher_wake_in,
  watcher_look_in, start_session, is_closed,
}
use minecraft_afk_bot.Presence.Reconciler.{Reconciler, new_reconciler, status_of, set_connected}
use minecraft_afk_bot.Prelude.{Text, ◌≡◌, refl, ap, true, false, List, [], some, inl}
use minecraft_afk_bot.Bot.System.Places.{
  may_report, At, Inv, head_in-Inv, timer_in-Inv, stop_waiting_in-Inv, admit_in-Inv, spawn_in-Inv,
  connect_in-Inv, report_in-Inv, observe_in-Inv, let_go_in-Inv, finish_in-Inv, gate_in-Inv,
}

module _ (api : Api) (r : Reconciler) where
  step-Inv :
      (lo hi : Duration) (x : Step) (s : System)
      → Inv api r s
      → Ensured (Inv api r) (step api lo hi x s)
  unfolding step
  step-Inv lo hi (gate g) s h = gate_in-Inv api r g (allowed s.place g) s refl h
  step-Inv lo hi (head int63n) s h = head_in-Inv api r int63n s.place s h
  step-Inv lo hi timer s h = timer_in-Inv api r s.place s h
  step-Inv lo hi stop_waiting s h = stop_waiting_in-Inv api r s.place s h
  step-Inv lo hi admit_returns s h = admit_in-Inv api r s.place s h
  step-Inv lo hi spawn s h = spawn_in-Inv api r s.place s h
  step-Inv lo hi (connect_returns err lasted) s h = connect_in-Inv api r err lasted s.place s h
  step-Inv lo hi report_apart s h = report_in-Inv api r s.place s h
  step-Inv lo hi observe s h = observe_in-Inv api r s.place s h
  step-Inv lo hi let_go s h = let_go_in-Inv api r s.place s h
  step-Inv lo hi finish s h = finish_in-Inv api r lo hi s.place s h

  pub reachable-At :
      (lo hi : Duration) (steps : List Step) (s : System)
      → r.connected ≡ false
      → run api lo hi steps (start_on r lo) ≡ some s
      → Inv api r s
  unfolding start_on Gate.start Gate.run set_connected
  reachable-At lo hi steps s fresh e =
      run-keeps api lo hi (Inv api r) (step-Inv lo hi) steps (start_on r lo) s e (record {
        reached = ([], ap (λ b. some (Gate.start (record r { connected = b }))) fresh);
        fits = inl refl;
        told = λ k. fresh;
      })

  At-place :
      (p : Place) (w : World)
      → At api r p w
      → w.reconciler.connected ≡ true
      → (may_report p ≡ true) × (w.phase ≡ admitted)
  At-place in_session w h on = (refl, h.fits)
  At-place (ended err lasted) w h on = (refl, h.fits)
  At-place at_head w h on = cc (on, h.told refl)
  At-place sleeping w h on = cc (on, h.told refl)
  At-place admitting w h on = cc (on, h.told refl)
  At-place returned w h on = cc (on, h.told refl)
  At-place (reported err lasted) w h on = cc (on, h.told refl)
  At-place (observed err lasted parked) w h on = cc (on, h.told refl)
  At-place (released err lasted parked) w h on = cc (on, h.told refl)

-- Beside the connect loop, however the steps interleave, the gate, the poller and the watcher do what
-- some run of the gate by itself does: the worlds are the same but for the status that is reported.
pub reachable-projects :
    (api : Api) (lo hi : Duration) (c : Client) (initial version : Text) (steps : List Step)
    (s : System)
    → run api lo hi steps (start_on (new_reconciler c initial version) lo) ≡ some s
    → (moves : List Gate.Step) × (Gate.run api moves (Gate.start (new_reconciler c initial version))
        ≡ some (apart s.world))
unfolding new_reconciler
reachable-projects api lo hi c initial version steps s e =
    (reachable-At api (new_reconciler c initial version) lo hi steps s refl e).reached

-- However the steps interleave, a status that reports the bot as connected is true: the gate has
-- admitted it, and the loop is in its session or has only just left it.
pub reports_truly :
    (api : Api) (lo hi : Duration) (c : Client) (initial version : Text) (steps : List Step)
    (s : System)
    → run api lo hi steps (start_on (new_reconciler c initial version) lo) ≡ some s
    → (status_of api s.world.reconciler).connected ≡ true
    → (may_report s.place ≡ true) × (s.world.phase ≡ admitted)
unfolding new_reconciler
reports_truly api lo hi c initial version steps s e told =
    At-place api (new_reconciler c initial version) s.place s.world
      (reachable-At api (new_reconciler c initial version) lo hi steps s refl e) told
