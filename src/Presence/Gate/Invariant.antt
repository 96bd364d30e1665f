-- ===== src/Presence/Gate/Invariant.antt =====
-- The invariant that holds between the steps of the threads that share the reconciler.
use minecraft_afk_bot.Presence.Api.{Api, IsContract}
use minecraft_afk_bot.Presence.Client.{Client}
use minecraft_afk_bot.Presence.Gate.{
  Phase, at_top, checked, admitted, refused, waiting, Watcher, woken, ended, watching, World, Step,
  follow, shutdown, check, look, wake, give_up, watcher_stop, watcher_wake, watcher_look, release,
  again, is_closed, check_in, start_session, look_in, wake_in, give_up_in, again_in,
  watcher_stop_in, watcher_wake_in, watcher_look_in, step, continue, run, start,
}
use minecraft_afk_bot.Presence.Gate.Waiters.{
  PhaseInv, WatcherInv, IsWired, set-IsWired, set-PhaseInv, set-WatcherInv, not_parked,
}
use minecraft_afk_bot.Presence.Reconciler.{Reconciler, new_reconciler}
use minecraft_afk_bot.Prelude.{
  Text, ◌≡◌, inr, refl, Bool, true, false, List, [], ◌∷◌, Option, none, some, equal, arith, subst,
  some-injective, if◌then◌else◌,
}

module _ (api : Api) where
  abbrev RefusedInv : Phase → Bool → Type 0
  RefusedInv refused done = done ≡ true
  RefusedInv _ done = Unit

  pub record Inv (w : World) : Type 0 where
    pub wired : IsWired w.reconciler
    pub waiter : PhaseInv api w.reconciler w.phase
    pub watched : WatcherInv api w.reconciler w.watcher
    pub refusal : RefusedInv w.phase w.ctx_done

  After : Option World → Type 0
  After none = Unit
  After (some w) = Inv w

  Inv-if :
      (b : Bool) (v w : World) → (b ≡ true → Inv v) → (b ≡ false → Inv w) → Inv (if b then v else w)
  Inv-if true v w hv hw = hv refl
  Inv-if false v w hv hw = hw refl

  After-if : (b : Bool) (w : World) → (b ≡ true → Inv w) → After (if b then some w else none)
  unfolding After
  After-if true w h = h refl
  After-if false w h = tt

  refusal-done : (p : Phase) (done : Bool) → RefusedInv p done → RefusedInv p true
  refusal-done refused done h = refl
  refusal-done at_top done h = tt
  refusal-done checked done h = tt
  refusal-done admitted done h = tt
  refusal-done (waiting c) done h = tt

  -- The world after a step of `Admit` that the reconciler and the watcher take no part in.
  move_phase :
      (w : World) (p : Phase)
      → Inv w
      → PhaseInv api w.reconciler p
      → RefusedInv p w.ctx_done
      → Inv (record w { phase = p })
  move_phase w p h waiter refusal = record {
    wired = h.wired;
    waiter = waiter;
    watched = h.watched;
    refusal = refusal;
  }

  move_watcher :
      (w : World) (v : Watcher) (done : Bool)
      → Inv w
      → WatcherInv api w.reconciler v
      → Inv (record w { watcher = v; session_done = done })
  move_watcher w v done h watched = record {
    wired = h.wired;
    waiter = h.waiter;
    watched = watched;
    refusal = h.refusal;
  }

  check_phase-ok :
      (r : Reconciler) (done : Bool)
      → let p = if done then refused else checked in PhaseInv api r p × RefusedInv p done
  check_phase-ok r true = (tt, refl)
  check_phase-ok r false = (tt, tt)

  check_in-Inv : (p : Phase) (w : World) → Inv w → After (check_in p w)
  unfolding After check_in
  check_in-Inv at_top w h =
      let ok = check_phase-ok w.reconciler w.ctx_done in
      move_phase w (if w.ctx_done then refused else checked) h ok.0 ok.1
  check_in-Inv _ w h = tt

  look_in-Inv : IsContract api → (p : Phase) (w : World) → Inv w → After (look_in api p w)
  unfolding After look_in
  look_in-Inv k checked w h =
      let r = w.reconciler in
      Inv-if (equal r.desired api.state_present) (start_session w)
        (record w { phase = waiting r.changed })
        (λ e. record {
          wired = h.wired;
          waiter = tt;
          watched = inr (refl, not_parked api k r.desired e);
          refusal = tt;
        })
        (λ e. move_phase w (waiting r.changed) h (inr (refl, e)) tt)
  look_in-Inv k at_top w h = tt
  look_in-Inv k admitted w h = tt
  look_in-Inv k refused w h = tt
  look_in-Inv k (waiting c) w h = tt

  wake_in-Inv : (p : Phase) (w : World) → Inv w → After (wake_in p w)
  unfolding wake_in
  wake_in-Inv (waiting c) w h =
      After-if (is_closed w c) (record w { phase = at_top }) (λ e. move_phase w at_top h tt tt)
  wake_in-Inv _ w h = unfold After in tt

  give_up_in-Inv : (p : Phase) (w : World) → Inv w → After (give_up_in p w)
  unfolding give_up_in
  give_up_in-Inv (waiting c) w h =
      After-if w.ctx_done (record w { phase = refused }) (λ e. move_phase w refused h tt e)
  give_up_in-Inv _ w h = unfold After in tt

  again_in-Inv : (p : Phase) (w : World) → Inv w → After (again_in p w)
  unfolding again_in
  again_in-Inv admitted w h =
      After-if w.session_done (record w { phase = at_top }) (λ e. move_phase w at_top h tt tt)
  again_in-Inv _ w h = unfold After in tt

  watcher_stop_in-Inv : (v : Watcher) (w : World) → Inv w → After (watcher_stop_in v w)
  unfolding watcher_stop_in
  watcher_stop_in-Inv (watching c) w h =
      After-if w.session_done (record w { watcher = ended })
        (λ e. move_watcher w ended w.session_done h tt)
  watcher_stop_in-Inv _ w h = unfold After in tt

  watcher_wake_in-Inv : (v : Watcher) (w : World) → Inv w → After (watcher_wake_in v w)
  unfolding watcher_wake_in
  watcher_wake_in-Inv (watching c) w h =
      After-if (is_closed w c) (record w { watcher = woken })
        (λ e. move_watcher w woken w.session_done h tt)
  watcher_wake_in-Inv _ w h = unfold After in tt

  watcher_look_in-Inv : (v : Watcher) (w : World) → Inv w → After (watcher_look_in api v w)
  unfolding After watcher_look_in
  watcher_look_in-Inv woken w h =
      let r = w.reconciler in
      Inv-if (equal r.desired api.state_parked) (record w { watcher = ended; session_done = true })
        (record w { watcher = watching r.changed }) (λ e. move_watcher w ended true h tt)
        (λ e. move_watcher w (watching r.changed) w.session_done h (inr (refl, e)))
  watcher_look_in-Inv _ w h = tt

  step-Inv : IsContract api → (s : Step) (w : World) → Inv w → After (step api s w)
  unfolding After step
  step-Inv k (follow state etag) w h = record {
    wired = set-IsWired state etag w.reconciler h.wired;
    waiter = set-PhaseInv api state etag w.reconciler w.phase h.waiter;
    watched = set-WatcherInv api state etag w.reconciler w.watcher h.watched;
    refusal = h.refusal;
  }
  step-Inv k shutdown w h = record {
    wired = h.wired;
    waiter = h.waiter;
    watched = h.watched;
    refusal = refusal-done w.phase w.ctx_done h.refusal;
  }
  step-Inv k check w h = check_in-Inv w.phase w h
  step-Inv k look w h = look_in-Inv k w.phase w h
  step-Inv k wake w h = wake_in-Inv w.phase w h
  step-Inv k give_up w h = give_up_in-Inv w.phase w h
  step-Inv k watcher_stop w h = watcher_stop_in-Inv w.watcher w h
  step-Inv k watcher_wake w h = watcher_wake_in-Inv w.watcher w h
  step-Inv k watcher_look w h = watcher_look_in-Inv w.watcher w h
  step-Inv k release w h = record {
    wired = h.wired;
    waiter = h.waiter;
    watched = h.watched;
    refusal = h.refusal;
  }
  step-Inv k again w h = again_in-Inv w.phase w h

  pub continue-some :
      (o : Option World) (rest : World → Option World) {w' : World}
      → continue o rest ≡ some w'
      → (v : World) × (o ≡ some v) × (rest v ≡ some w')
  unfolding continue
  continue-some none rest e = cc
  continue-some (some v) rest e = (v, refl, e)

  run-Inv :
      IsContract api
      → (steps : List Step) (w : World) {w' : World} → Inv w
      → run api steps w ≡ some w'
      → Inv w'
  unfolding run
  run-Inv k [] w {w'} h e = subst Inv (some-injective w w' e) h
  run-Inv k (s ∷ steps) w {w'} h e =
      let (v, moved, rest) = continue-some (step api s w) (run api steps) e in
      let next : After (some v) = subst After moved (step-Inv k s w h) in
      run-Inv k steps v {w' = w'} (unfold After in next) rest

  -- The invariant at the start of the program, whatever the initial state.
  new_reconciler-Inv :
      (c : Client) (initial version : Text) → Inv (start (new_reconciler c initial version))
  unfolding start new_reconciler
  new_reconciler-Inv c initial version = record {
    wired = record { current = omega arith; is_open = refl; unborn = λ d h. refl };
    waiter = tt;
    watched = tt;
    refusal = tt;
  }

  -- In every world that the steps reach from a new reconciler, in any order: the current channel is
  -- open; whoever waits on a channel that is still open, in `Admit` or in a watcher, waits on the
  -- current one and has seen the state that is desired now; and a refused `Admit` has a context that
  -- has ended.
  pub reachable-Inv :
      IsContract api
      → (c : Client) (initial version : Text) (steps : List Step) (w : World)
      → run api steps (start (new_reconciler c initial version)) ≡ some w
      → Inv w
  reachable-Inv k c initial version steps w =
      run-Inv k steps (start (new_reconciler c initial version))
        (new_reconciler-Inv c initial version)
