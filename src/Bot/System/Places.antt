-- ===== src/Bot/System/Places.antt =====
-- What holds of the world at each place of the loop, under the steps.
use minecraft_afk_bot.Bot.Backoff.{Duration, Int63n}
use minecraft_afk_bot.Bot.Loop.{Action, Loop, settle}
use minecraft_afk_bot.Bot.System.{
  Place, at_head, sleeping, admitting, in_session, returned, ended, reported, observed, released,
  System, waiting_for, round_of, settled, gate_in, on_gate, head_in, timer_in, stop_waiting_in,
  admit_in, admit_of, spawn_in, connect_in, report_in, observe_in, let_go_in, finish_in, allowed,
  enter,
}
use minecraft_afk_bot.Bot.System.Runs.{Ensured}
use minecraft_afk_bot.Presence.Api.{Api}
use minecraft_afk_bot.Presence.Gate
use minecraft_afk_bot.Presence.Gate.{
  World, Phase, admitted, refused, at_top, checked, waiting, Watcher, absent, woken, watching,
  follow, shutdown, check, look, wake, give_up, watcher_stop, watcher_wake, watcher_look, release,
  again, check_in, look_in, wake_in, give_up_in, again_in, watcher_stop_in, watcher_wake_in,
  watcher_look_in, start_session, is_closed,
}
use minecraft_afk_bot.Presence.Reconciler.{Reconciler, set_connected}
use minecraft_afk_bot.Prelude.Int.{pos}
use minecraft_afk_bot.Prelude.{
  Text, ◌≡◌, ◌⊎◌, refl, ap, ◌∙◌, Bool, true, false, List, ◌++◌, Option, none, some, inl, inr, subst,
  if◌then◌else◌,
}
use minecraft_afk_bot.Bot.System.Fits.{
  IsReached, IsReached-step, EnsuredWorld, Kept, step-Kept, Fits, gate-Fits,
}

-- The places at which the bot may be reported as connected.
abbrev pub may_report : Place → Bool
may_report in_session = true
may_report (ended err lasted) = true
may_report _ = false

module _ (api : Api) (r : Reconciler) where
  -- Of a system whose loop is at `p`.
  pub record At (p : Place) (w : World) : Type 0 where
    pub reached : IsReached api r w
    pub fits : Fits p w
    pub told : may_report p ≡ false → w.reconciler.connected ≡ false

  abbrev pub Inv : System → Type 0
  Inv s = At s.place s.world

  IsReached-enter :
      (w : World)
      → (w.phase ≡ at_top) ⊎ ((w.phase ≡ admitted) × (w.session_done ≡ true))
      → IsReached api r w
      → IsReached api r (record w { phase = at_top })
  unfolding Gate.step again_in
  IsReached-enter w (inl e) h = subst (IsReached api r) (ap (λ p. record w { phase = p }) e) h
  IsReached-enter w (inr (e, over)) h =
      IsReached-step api r again w (record w { phase = at_top }) (rw (e, over) refl) h

  enter-Inv : (s : System) → At sleeping s.world → Inv (enter s)
  enter-Inv s h = record {
    reached = IsReached-enter s.world h.fits h.reached;
    fits = tt;
    told = λ e. h.told refl;
  }

  Inv-if : (b : Bool) (s t : System) → Inv s → Inv t → Inv (if b then s else t)
  Inv-if true s t hs ht = hs
  Inv-if false s t hs ht = ht

  pub head_in-Inv :
      (int63n : Int63n) (p : Place) (s : System) → At p s.world → Ensured Inv (head_in int63n p s)
  unfolding head_in
  head_in-Inv int63n at_head s h =
      let slow : System = record s {
        place = sleeping;
        done = s.done ++ waiting_for int63n s.loop.delay;
      } in
      let same : At sleeping s.world = record {
        reached = h.reached;
        fits = h.fits;
        told = λ e. h.told refl;
      } in
      Inv-if s.world.ctx_done (record s { place = returned })
        (if s.loop.first then enter s else slow)
        (record { reached = h.reached; fits = tt; told = λ e. h.told refl })
        (Inv-if s.loop.first (enter s) slow (enter-Inv s same) same)
  head_in-Inv int63n _ s h = tt

  pub timer_in-Inv : (p : Place) (s : System) → At p s.world → Ensured Inv (timer_in p s)
  unfolding timer_in
  timer_in-Inv sleeping s h = enter-Inv s h
  timer_in-Inv _ s h = tt

  Ensured-if : (b : Bool) (s : System) → Inv s → Ensured Inv (if b then some s else none)
  Ensured-if true s h = h
  Ensured-if false s h = tt

  pub stop_waiting_in-Inv :
      (p : Place) (s : System) → At p s.world → Ensured Inv (stop_waiting_in p s)
  unfolding stop_waiting_in
  stop_waiting_in-Inv sleeping s h =
      Ensured-if s.world.ctx_done (record s { place = returned })
        (record { reached = h.reached; fits = tt; told = λ e. h.told refl })
  stop_waiting_in-Inv _ s h = tt

  admit_of-Inv :
      (p : Phase) (s : System)
      → s.world.phase ≡ p
      → At admitting s.world
      → Ensured Inv (admit_of p s)
  unfolding admit_of
  admit_of-Inv admitted s e h = record { reached = h.reached; fits = e; told = λ k. cc }
  admit_of-Inv refused s e h = record { reached = h.reached; fits = tt; told = λ k. h.told refl }
  admit_of-Inv _ s e h = tt

  pub admit_in-Inv : (p : Place) (s : System) → At p s.world → Ensured Inv (admit_in p s)
  unfolding admit_in
  admit_in-Inv admitting s h = admit_of-Inv s.world.phase s refl h
  admit_in-Inv _ s h = tt

  pub spawn_in-Inv : (p : Place) (s : System) → At p s.world → Ensured Inv (spawn_in p s)
  unfolding spawn_in set_connected
  spawn_in-Inv in_session s h = record { reached = h.reached; fits = h.fits; told = λ k. cc }
  spawn_in-Inv _ s h = tt

  pub connect_in-Inv :
      (err : Option Text) (lasted : Duration) (p : Place) (s : System)
      → At p s.world
      → Ensured Inv (connect_in err lasted p s)
  unfolding connect_in
  connect_in-Inv err lasted in_session s h = record {
    reached = h.reached;
    fits = h.fits;
    told = λ k. cc;
  }
  connect_in-Inv err lasted _ s h = tt

  pub report_in-Inv : (p : Place) (s : System) → At p s.world → Ensured Inv (report_in p s)
  unfolding report_in set_connected
  report_in-Inv (ended err lasted) s h = record {
    reached = h.reached;
    fits = h.fits;
    told = λ k. refl;
  }
  report_in-Inv _ s h = tt

  pub observe_in-Inv : (p : Place) (s : System) → At p s.world → Ensured Inv (observe_in p s)
  unfolding observe_in
  observe_in-Inv (reported err lasted) s h = record {
    reached = h.reached;
    fits = h.fits;
    told = λ k. h.told refl;
  }
  observe_in-Inv _ s h = tt

  pub let_go_in-Inv : (p : Place) (s : System) → At p s.world → Ensured Inv (let_go_in p s)
  unfolding let_go_in Gate.step
  let_go_in-Inv (observed err lasted parked) s h = record {
    reached =
        IsReached-step api r release s.world (record s.world { session_done = true }) refl
          h.reached;
    fits = (h.fits, refl);
    told = λ k. h.told refl;
  }
  let_go_in-Inv _ s h = tt

  settled-Inv :
      (s : System) (x : List Action × Option Loop)
      → At (released none (pos 0) false) s.world
      → Inv (settled s x)
  settled-Inv s (more, none) h = record { reached = h.reached; fits = tt; told = λ k. h.told refl }
  settled-Inv s (more, some l) h = record {
    reached = h.reached;
    fits = inr h.fits;
    told = λ k. h.told refl;
  }

  pub finish_in-Inv :
      (lo hi : Duration) (p : Place) (s : System) → At p s.world → Ensured Inv (finish_in lo hi p s)
  unfolding finish_in
  finish_in-Inv lo hi (released err lasted parked) s h =
      settled-Inv s (settle lo hi s.loop (round_of (λ n. 0) 0 err lasted parked s.world.ctx_done))
        (record { reached = h.reached; fits = h.fits; told = h.told })
  finish_in-Inv lo hi _ s h = tt

  on_gate-Inv :
      (g : Gate.Step) (s : System) (o : Option World)
      → Gate.step api g s.world ≡ o
      → Inv s
      → EnsuredWorld api (Fits s.place) o
      → EnsuredWorld api (Kept api s.world) o
      → Ensured Inv (on_gate s o)
  on_gate-Inv g s none e h fits kept = tt
  on_gate-Inv g s (some w) e h fits kept = record {
    reached = IsReached-step api r g s.world w e h.reached;
    fits = fits;
    told = λ k. kept ∙ h.told k;
  }

  pub gate_in-Inv :
      (g : Gate.Step) (b : Bool) (s : System)
      → allowed s.place g ≡ b
      → Inv s
      → Ensured Inv (gate_in api g b s)
  unfolding gate_in
  gate_in-Inv g false s a h = tt
  gate_in-Inv g true s a h =
      on_gate-Inv g s (Gate.step api g s.world) refl h (gate-Fits api s.place g s.world a h.fits)
        (step-Kept api g s.world)
