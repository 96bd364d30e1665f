-- ===== src/Bot/Threads/Places.antt =====
-- What a step of the loop beside its session keeps.
use minecraft_afk_bot.Bot.Threads.Entries.{
  quiet-append, Keeps, Here, head_in-Keeps, timer_in-Keeps, stop_waiting_in-Keeps, admit_in-Keeps,
}
use minecraft_afk_bot.Bot.Backoff.{Duration}
use minecraft_afk_bot.Bot.Loop
use minecraft_afk_bot.Bot.Loop.{Loop, settle}
use minecraft_afk_bot.Bot.Session.Result.{is_session_ended, IsParkedIfClean, settle-count}
use minecraft_afk_bot.Bot.Session.Steps.{Progress}
use minecraft_afk_bot.Bot.System
use minecraft_afk_bot.Bot.System.{
  Place, at_head, sleeping, admitting, in_session, returned, ended, reported, observed, released,
  System, Step, gate, head, timer, stop_waiting, admit_returns, spawn, connect_returns,
  report_apart, observe, let_go, finish, waiting_for, round_of, settled, head_in, timer_in,
  stop_waiting_in, admit_in, admit_of, report_in, observe_in, let_go_in, finish_in, allowed, enter,
}
use minecraft_afk_bot.Bot.Threads.{Threads, beside_in}
use minecraft_afk_bot.Bot.Threads.Held.{Inv, gate_in-Inv}
use minecraft_afk_bot.Bot.Threads.Runs.{Ensured}
use minecraft_afk_bot.Gophertunnel.{Constants}
use minecraft_afk_bot.Mcproto.{Protocol}
use minecraft_afk_bot.Presence.Api.{Api}
use minecraft_afk_bot.Presence.Reconciler.{set_connected}
use minecraft_afk_bot.Prelude.{
  Text, ℕ, ◌≡◌, refl, Bool, false, List, [], ◌∷◌, Option, none, some, count,
}

module _ {Position Schema : Type 0} (k : Constants) (v : ℕ) (baked : Protocol Schema) where
  reported-Here :
      (err : Option Text) (l : Duration) (s : System) (p : Progress Position)
      → Here k v baked (ended err l) s p
      → Keeps k v baked p (report_in (ended err l) s)
  unfolding report_in set_connected
  reported-Here none l s p h = record {
    told = refl;
    held = h.held;
    explained = h.explained;
    quiet = quiet-append s.done (Loop.connected false ∷ []) h.quiet refl;
  }
  reported-Here (some err) l s p h = record {
    told = refl;
    held = h.held;
    explained = tt;
    quiet = quiet-append s.done (Loop.connected false ∷ []) h.quiet refl;
  }

  report_in-Keeps :
      (q : Place) (s : System) (p : Progress Position)
      → Here k v baked q s p
      → Keeps k v baked p (report_in q s)
  unfolding report_in
  report_in-Keeps (ended err l) s p h = reported-Here err l s p h
  report_in-Keeps _ s p h = tt

  observe_in-Keeps :
      (q : Place) (s : System) (p : Progress Position)
      → Here k v baked q s p
      → Keeps k v baked p (observe_in q s)
  unfolding observe_in
  observe_in-Keeps (reported none l) s p h = record {
    told = h.told;
    held = h.held;
    explained = h.explained;
    quiet = h.quiet;
  }
  observe_in-Keeps (reported (some err) l) s p h = record {
    told = h.told;
    held = h.held;
    explained = tt;
    quiet = h.quiet;
  }
  observe_in-Keeps _ s p h = tt

  let_go_in-Keeps :
      (q : Place) (s : System) (p : Progress Position)
      → Here k v baked q s p
      → Keeps k v baked p (let_go_in q s)
  unfolding let_go_in
  let_go_in-Keeps (observed none l parked) s p h = record {
    told = h.told;
    held = h.held;
    explained = h.explained;
    quiet = quiet-append s.done (Loop.release ∷ []) h.quiet refl;
  }
  let_go_in-Keeps (observed (some err) l parked) s p h = record {
    told = h.told;
    held = h.held;
    explained = tt;
    quiet = quiet-append s.done (Loop.release ∷ []) h.quiet refl;
  }
  let_go_in-Keeps _ s p h = tt

  -- A pass that has no clean end to log.
  settled-Here :
      (s : System) (p : Progress Position) (x : List Loop.Action × Option Loop)
      → count is_session_ended x.0 ≡ 0
      → Here k v baked at_head s p
      → Keeps k v baked p (some (settled s x))
  settled-Here s p (more, none) q h = record {
    told = h.told;
    held = h.held;
    explained = tt;
    quiet = quiet-append s.done more h.quiet q;
  }
  settled-Here s p (more, some l) q h = record {
    told = h.told;
    held = h.held;
    explained = tt;
    quiet = quiet-append s.done more h.quiet q;
  }

  parked-clean :
      (err : Option Text) (l : Duration) (parked done : Bool) (s : System) (p : Progress Position)
      → Here k v baked (released err l parked) s p
      → IsParkedIfClean (round_of (λ n. 0) 0 err l parked done)
  parked-clean none l parked done s p h = λ e. h.explained
  parked-clean (some err) l parked done s p h = λ e. cc

  finish_in-Keeps :
      (lo hi : Duration) (q : Place) (s : System) (p : Progress Position)
      → Here k v baked q s p
      → Keeps k v baked p (finish_in lo hi q s)
  unfolding finish_in
  finish_in-Keeps lo hi (released err l parked) s p h =
      let r = round_of (λ n. 0) 0 err l parked s.world.ctx_done in
      settled-Here s p (settle lo hi s.loop r)
        (settle-count lo hi s.loop r (parked-clean err l parked s.world.ctx_done s p h))
        (record { told = h.told; held = h.held; explained = tt; quiet = h.quiet })
  finish_in-Keeps lo hi _ s p h = tt

  pub beside_in-Keeps :
      (api : Api) (lo hi : Duration) (x : Step) (t : Threads Position)
      → Inv k v baked t
      → Ensured (Inv k v baked) (beside_in api lo hi x t)
  unfolding beside_in System.step
  beside_in-Keeps api lo hi spawn t h = tt
  beside_in-Keeps api lo hi (connect_returns err l) t h = tt
  beside_in-Keeps api lo hi admit_returns t h =
      admit_in-Keeps k v baked t.system.place t.system t.session h
  beside_in-Keeps api lo hi (gate g) t h =
      gate_in-Inv k v baked api g (allowed t.system.place g) t refl h
  beside_in-Keeps api lo hi (head i) t h =
      head_in-Keeps k v baked i t.system.place t.system t.session h
  beside_in-Keeps api lo hi timer t h = timer_in-Keeps k v baked t.system.place t.system t.session h
  beside_in-Keeps api lo hi stop_waiting t h =
      stop_waiting_in-Keeps k v baked t.system.place t.system t.session h
  beside_in-Keeps api lo hi report_apart t h = report_in-Keeps t.system.place t.system t.session h
  beside_in-Keeps api lo hi observe t h = observe_in-Keeps t.system.place t.system t.session h
  beside_in-Keeps api lo hi let_go t h = let_go_in-Keeps t.system.place t.system t.session h
  beside_in-Keeps api lo hi finish t h = finish_in-Keeps lo hi t.system.place t.system t.session h
