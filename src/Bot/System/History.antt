-- ===== src/Bot/System/History.antt =====
-- What the gate and the sessions have been told at each moment of a run.
use minecraft_afk_bot.Bot.Backoff.{Duration, Int63n}
use minecraft_afk_bot.Bot.Loop
use minecraft_afk_bot.Bot.Loop.{Action, admit, connect, connected, Loop, settle, start}
use minecraft_afk_bot.Bot.Loop.Status.{Ledger, observe_all, idle, observe_all-append, settle-idle}
use minecraft_afk_bot.Bot.System.{
  Place, at_head, sleeping, admitting, in_session, returned, ended, reported, observed, released,
  System, Step, gate, head, timer, stop_waiting, admit_returns, spawn, connect_returns,
  report_apart, let_go, finish, waiting_for, round_of, settled, gate_in, on_gate, head_in, timer_in,
  stop_waiting_in, admit_in, admit_of, spawn_in, connect_in, report_in, observe_in, let_go_in,
  finish_in, step, run, start_on, allowed, enter,
}
use minecraft_afk_bot.Bot.System.Fits.{EnsuredWorld, Kept, step-Kept}
use minecraft_afk_bot.Bot.System.Runs.{Ensured, run-keeps}
use minecraft_afk_bot.Presence.Api.{Api}
use minecraft_afk_bot.Presence.Client.{Client}
use minecraft_afk_bot.Presence.Gate
use minecraft_afk_bot.Presence.Gate.{World, Phase, admitted, refused, at_top, checked, waiting}
use minecraft_afk_bot.Presence.Reconciler.{new_reconciler, set_connected}
use minecraft_afk_bot.Prelude.{
  Text, ◌≡◌, refl, sym, ap, ◌∙◌, Bool, true, false, List, [], ◌∷◌, ◌++◌, Option, none, some,
  if◌then◌else◌,
}

-- The places at which the loop holds a session of the gate.
abbrev pub holds_session : Place → Bool
holds_session in_session = true
holds_session (ended err lasted) = true
holds_session (reported err lasted) = true
holds_session (observed err lasted parked) = true
holds_session _ = false

-- The places at which the bot is not reported as connected.
abbrev Told : Place → Bool → Type 0
Told in_session c = Unit
Told (ended err lasted) c = Unit
Told _ c = c ≡ false

-- What the loop has told and called, by its place and by what the status says.
abbrev pub ledger_at : Place → Bool → Ledger
ledger_at p c = record { reported = c; held = holds_session p; in_order = true }

module _ (api : Api) where
  record At (p : Place) (c : Bool) (done : List Action) : Type 0 where
    pub ledger : observe_all idle done ≡ ledger_at p c
    pub told : Told p c

  abbrev Inv : System → Type 0
  Inv s = At s.place s.world.reconciler.connected s.done

  -- The same actions at another place.
  move :
      (p q : Place) (c : Bool) (done : List Action)
      → holds_session p ≡ holds_session q
      → Told q c
      → At p c done
      → At q c done
  move p q c done same told h = record { ledger = rw (sym same) h.ledger; told = told }

  -- More actions.
  more :
      (p q : Place) (c c' : Bool) (done actions : List Action)
      → observe_all (ledger_at p c) actions ≡ ledger_at q c'
      → Told q c'
      → At p c done
      → At q c' (done ++ actions)
  more p q c c' done actions e told h = record {
    ledger = observe_all-append idle done actions ∙ (ap (λ l. observe_all l actions) h.ledger ∙ e);
    told = told;
  }

  Inv-if : (b : Bool) (s t : System) → Inv s → Inv t → Inv (if b then s else t)
  Inv-if true s t hs ht = hs
  Inv-if false s t hs ht = ht

  Ensured-if : (b : Bool) (s : System) → Inv s → Ensured Inv (if b then some s else none)
  Ensured-if true s h = h
  Ensured-if false s h = tt

  -- Of a system whose loop is at `p`.
  abbrev Of : Place → System → Type 0
  Of p s = At p s.world.reconciler.connected s.done

  head_in-Inv :
      (int63n : Int63n) (p : Place) (s : System) → Of p s → Ensured Inv (head_in int63n p s)
  unfolding head_in
  head_in-Inv int63n at_head s h =
      let c = s.world.reconciler.connected in
      let slow : System = record s {
        place = sleeping;
        done = s.done ++ waiting_for int63n s.loop.delay;
      } in
      Inv-if s.world.ctx_done (record s { place = returned })
        (if s.loop.first then enter s else slow) (move at_head returned c s.done refl h.told h)
        (Inv-if s.loop.first (enter s) slow (move at_head admitting c s.done refl h.told h) (
          more at_head sleeping c c s.done (waiting_for int63n s.loop.delay) (rw h.told refl) h.told
            h))
  head_in-Inv int63n _ s h = tt

  timer_in-Inv : (p : Place) (s : System) → Of p s → Ensured Inv (timer_in p s)
  unfolding timer_in
  timer_in-Inv sleeping s h =
      move sleeping admitting s.world.reconciler.connected s.done refl h.told h
  timer_in-Inv _ s h = tt

  stop_waiting_in-Inv : (p : Place) (s : System) → Of p s → Ensured Inv (stop_waiting_in p s)
  unfolding stop_waiting_in
  stop_waiting_in-Inv sleeping s h =
      Ensured-if s.world.ctx_done (record s { place = returned })
        (move sleeping returned s.world.reconciler.connected s.done refl h.told h)
  stop_waiting_in-Inv _ s h = tt

  admit_of-Inv : (p : Phase) (s : System) → Of admitting s → Ensured Inv (admit_of p s)
  unfolding admit_of
  admit_of-Inv admitted s h =
      let c = s.world.reconciler.connected in
      more admitting in_session c c s.done (admit true ∷ connect ∷ []) (rw h.told refl) tt h
  admit_of-Inv refused s h =
      let c = s.world.reconciler.connected in
      more admitting returned c c s.done (admit false ∷ []) (rw h.told refl) h.told h
  admit_of-Inv _ s h = tt

  admit_in-Inv : (p : Place) (s : System) → Of p s → Ensured Inv (admit_in p s)
  unfolding admit_in
  admit_in-Inv admitting s h = admit_of-Inv s.world.phase s h
  admit_in-Inv _ s h = tt

  spawn_in-Inv : (p : Place) (s : System) → Of p s → Ensured Inv (spawn_in p s)
  unfolding spawn_in set_connected
  spawn_in-Inv in_session s h =
      more in_session in_session s.world.reconciler.connected true s.done (connected true ∷ []) refl
        tt h
  spawn_in-Inv _ s h = tt

  connect_in-Inv :
      (err : Option Text) (lasted : Duration) (p : Place) (s : System)
      → Of p s
      → Ensured Inv (connect_in err lasted p s)
  unfolding connect_in
  connect_in-Inv err lasted in_session s h =
      move in_session (ended err lasted) s.world.reconciler.connected s.done refl tt h
  connect_in-Inv err lasted _ s h = tt

  report_in-Inv : (p : Place) (s : System) → Of p s → Ensured Inv (report_in p s)
  unfolding report_in set_connected
  report_in-Inv (ended err lasted) s h =
      more (ended err lasted) (reported err lasted) s.world.reconciler.connected false s.done
        (connected false ∷ []) refl refl h
  report_in-Inv _ s h = tt

  observe_in-Inv : (p : Place) (s : System) → Of p s → Ensured Inv (observe_in p s)
  unfolding observe_in
  observe_in-Inv (reported err lasted) s h =
      move (reported err lasted) (observed err lasted s.world.session_done)
        s.world.reconciler.connected s.done refl h.told h
  observe_in-Inv _ s h = tt

  let_go_in-Inv : (p : Place) (s : System) → Of p s → Ensured Inv (let_go_in p s)
  unfolding let_go_in
  let_go_in-Inv (observed err lasted parked) s h =
      let c = s.world.reconciler.connected in
      more (observed err lasted parked) (released err lasted parked) c c s.done (Loop.release ∷ [])
        (rw h.told refl) h.told h
  let_go_in-Inv _ s h = tt

  settled-Inv :
      (p : Place) (s : System) (x : List Action × Option Loop)
      → observe_all idle x.0 ≡ idle
      → holds_session p ≡ false
      → s.world.reconciler.connected ≡ false
      → Of p s
      → Inv (settled s x)
  settled-Inv p s (actions, none) e free apart h =
      more p returned s.world.reconciler.connected s.world.reconciler.connected s.done actions
        (rw (apart, free) e) apart h
  settled-Inv p s (actions, some l) e free apart h =
      more p at_head s.world.reconciler.connected s.world.reconciler.connected s.done actions
        (rw (apart, free) e) apart h

  finish_in-Inv :
      (lo hi : Duration) (p : Place) (s : System) → Of p s → Ensured Inv (finish_in lo hi p s)
  unfolding finish_in
  finish_in-Inv lo hi (released err lasted parked) s h =
      let r = round_of (λ n. 0) 0 err lasted parked s.world.ctx_done in
      settled-Inv (released err lasted parked) s (settle lo hi s.loop r)
        (settle-idle lo hi s.loop r) refl h.told h
  finish_in-Inv lo hi _ s h = tt

  on_gate-Inv :
      (s : System) (o : Option World)
      → EnsuredWorld api (Kept api s.world) o
      → Inv s
      → Ensured Inv (on_gate s o)
  on_gate-Inv s none kept h = tt
  on_gate-Inv s (some w) kept h = rw kept h

  gate_in-Inv : (g : Gate.Step) (b : Bool) (s : System) → Inv s → Ensured Inv (gate_in api g b s)
  unfolding gate_in
  gate_in-Inv g false s h = tt
  gate_in-Inv g true s h = on_gate-Inv s (Gate.step api g s.world) (step-Kept api g s.world) h

  step-Inv : (lo hi : Duration) (x : Step) (s : System) → Inv s → Ensured Inv (step api lo hi x s)
  unfolding step
  step-Inv lo hi (gate g) s h = gate_in-Inv g (allowed s.place g) s h
  step-Inv lo hi (head int63n) s h = head_in-Inv int63n s.place s h
  step-Inv lo hi timer s h = timer_in-Inv s.place s h
  step-Inv lo hi stop_waiting s h = stop_waiting_in-Inv s.place s h
  step-Inv lo hi admit_returns s h = admit_in-Inv s.place s h
  step-Inv lo hi spawn s h = spawn_in-Inv s.place s h
  step-Inv lo hi (connect_returns err lasted) s h = connect_in-Inv err lasted s.place s h
  step-Inv lo hi report_apart s h = report_in-Inv s.place s h
  step-Inv lo hi Step.observe s h = observe_in-Inv s.place s h
  step-Inv lo hi let_go s h = let_go_in-Inv s.place s h
  step-Inv lo hi finish s h = finish_in-Inv lo hi s.place s h

-- At each moment of a run, however its steps interleave, every call of the gate, of the session and
-- of the release has come in its place; a session is held exactly between its admission and its
-- release; and the status says what the gate was told last.
pub reachable-ledger_at :
    (api : Api) (lo hi : Duration) (c : Client) (initial version : Text) (steps : List Step)
    (s : System)
    → run api lo hi steps (start_on (new_reconciler c initial version) lo) ≡ some s
    → observe_all idle s.done ≡ ledger_at s.place s.world.reconciler.connected
unfolding start_on Gate.start new_reconciler
reachable-ledger_at api lo hi c initial version steps s e =
    (run-keeps api lo hi (Inv api) (step-Inv api lo hi) steps
      (start_on (new_reconciler c initial version) lo) s e
      (record { ledger = refl; told = refl })).ledger
