-- ===== src/Bot/Threads/Inside.antt =====
-- What a step of the session keeps, and what holds of the program however its threads interleave.
use minecraft_afk_bot.Bot.Backoff.{Duration}
use minecraft_afk_bot.Bot.Loop
use minecraft_afk_bot.Bot.Session.Link.{observe_all, down}
use minecraft_afk_bot.Bot.Session.Ends.{session-link_of, is_reading}
use minecraft_afk_bot.Bot.Session.Steps
use minecraft_afk_bot.Bot.Session.Steps.{Stage, over, Progress, Event, entered, begun}
use minecraft_afk_bot.Bot.Session.Steps.Calls.{
  has_spawned, calls_back, Tells, Explains, step_at-Tells, step_at-Explains,
}
use minecraft_afk_bot.Bot.Session.Steps.Course.{Of, Stands, env_of}
use minecraft_afk_bot.Bot.Session.Steps.Refines
use minecraft_afk_bot.Bot.Session.Steps.Refines.{step_at-Stands}
use minecraft_afk_bot.Bot.System
use minecraft_afk_bot.Bot.System.{
  Place, at_head, sleeping, admitting, in_session, returned, ended, reported, observed, released,
  System, Step, spawn, connect_returns, spawn_in, connect_in, start_on,
}
use minecraft_afk_bot.Bot.Threads.{
  Threads, Move, beside, inside, returns, call_back, stepped, inside_in, returns_in, step, run,
  started,
}
use minecraft_afk_bot.Bot.Threads.Held.{Inv, IsShut}
use minecraft_afk_bot.Bot.Threads.Places.{beside_in-Keeps}
use minecraft_afk_bot.Bot.Threads.Entries.{quiet-append, Here, Keeps}
use minecraft_afk_bot.Bot.Threads.Runs.{Ensured, run-keeps}
use minecraft_afk_bot.Gophertunnel.{Constants}
use minecraft_afk_bot.Mcproto.{Protocol}
use minecraft_afk_bot.Presence.Api.{Api}
use minecraft_afk_bot.Presence.Gate
use minecraft_afk_bot.Presence.Gate.{admitted}
use minecraft_afk_bot.Presence.Reconciler.{Reconciler, set_connected}
use minecraft_afk_bot.Prelude.{
  Text, ℕ, ◌≡◌, refl, ap, sym, subst, ◌∙◌, true, false, List, [], ◌∷◌, Option, none, some,
}

module _ {Position Schema : Type 0} (k : Constants) (v : ℕ) (baked : Protocol Schema) where
  -- A session that has returned has closed what it opened.
  over-IsShut :
      (p : Progress Position) (err : Option Text) → Stands k v baked (over err) p.actions → IsShut p
  over-IsShut p err (c, e) =
      subst (λ x. (observe_all down x.0).is_open ≡ is_reading x.1) e
        (ap (λ l. l.is_open) (session-link_of k (env_of k v baked c)))

  spawn_in-Here :
      (q : Place) (s : System) (p p' : Progress Position)
      → q ≡ in_session
      → Of k v baked p'
      → has_spawned p'.actions ≡ true
      → (p'.stage ≡ over none → s.world.session_done ≡ true)
      → Here k v baked in_session s p
      → Keeps k v baked p' (spawn_in q s)
  unfolding spawn_in set_connected
  spawn_in-Here q s p p' e held told explained h = rw e (record {
    told = sym told;
    held = held;
    explained = explained;
    quiet = quiet-append s.done (Loop.connected true ∷ []) h.quiet refl;
  })

  -- The session has moved on, and the loop has not.
  stayed-Here :
      (t : Threads Position) (p' : Progress Position)
      → t.system.place ≡ in_session
      → Of k v baked p'
      → has_spawned p'.actions ≡ has_spawned t.session.actions
      → (p'.stage ≡ over none → t.system.world.session_done ≡ true)
      → Here k v baked in_session t.system t.session
      → Inv k v baked (record { system = t.system; session = p' })
  stayed-Here t p' e held told explained h =
      rw e
        (record { told = h.told ∙ sym told; held = held; explained = explained; quiet = h.quiet })

  stepped-Inv :
      (api : Api) (lo hi : Duration) (event : Event Position) (t : Threads Position)
      (o : Option (Progress Position))
      → t.system.place ≡ in_session
      → Refines.Ensured k v baked o
      → Tells (calls_back event) t.session o
      → Explains t.system.world.session_done o
      → Here k v baked in_session t.system t.session
      → Ensured (Inv k v baked) (stepped api lo hi event t.system o)
  unfolding stepped call_back System.step
  stepped-Inv api lo hi event t none e held told explained h = tt
  stepped-Inv api lo hi (entered none xuid) t (some p') e held told explained h =
      spawn_in-Here t.system.place t.system t.session p' e held told explained h
  stepped-Inv api lo hi event t (some p') e held told explained h =
      stayed-Here t p' e held told explained h

  inside_in-Inv :
      (api : Api) (lo hi : Duration) (event : Event Position) (q : Place) (t : Threads Position)
      → t.system.place ≡ q
      → Here k v baked q t.system t.session
      → Ensured (Inv k v baked) (inside_in api lo hi k v baked event q t)
  unfolding inside_in Steps.step
  inside_in-Inv api lo hi event in_session t e h =
      let done = t.system.world.session_done in
      let p = t.session in
      stepped-Inv api lo hi event t (Steps.step_at k v baked done p.stage event p) e
        (step_at-Stands k v baked done p.stage event p h.held)
        (step_at-Tells k v baked done p.stage event p)
        (step_at-Explains k v baked done p.stage event p) h
  inside_in-Inv api lo hi event _ t e h = tt

  connect_in-Keeps :
      (err : Option Text) (lasted : Duration) (q : Place) (s : System) (p : Progress Position)
      → p.stage ≡ over err
      → Here k v baked q s p
      → Keeps k v baked p (connect_in err lasted q s)
  unfolding connect_in
  connect_in-Keeps none lasted in_session s p e h = record {
    told = h.told;
    held = over-IsShut p none (subst (λ x. Stands k v baked x p.actions) e h.held);
    explained = h.explained e;
    quiet = h.quiet;
  }
  connect_in-Keeps (some err) lasted in_session s p e h = record {
    told = h.told;
    held = over-IsShut p (some err) (subst (λ x. Stands k v baked x p.actions) e h.held);
    explained = tt;
    quiet = h.quiet;
  }
  connect_in-Keeps err lasted _ s p e h = tt

  returns_in-Inv :
      (api : Api) (lo hi lasted : Duration) (stage : Stage) (t : Threads Position)
      → t.session.stage ≡ stage
      → Inv k v baked t
      → Ensured (Inv k v baked) (returns_in api lo hi lasted stage t)
  unfolding returns_in System.step
  returns_in-Inv api lo hi lasted (over err) t e h =
      connect_in-Keeps err lasted t.system.place t.system t.session e h
  returns_in-Inv api lo hi lasted _ t e h = tt

  step-Inv :
      (api : Api) (lo hi : Duration) (m : Move Position) (t : Threads Position)
      → Inv k v baked t
      → Ensured (Inv k v baked) (step api lo hi k v baked m t)
  unfolding step
  step-Inv api lo hi (beside x) t h = beside_in-Keeps k v baked api lo hi x t h
  step-Inv api lo hi (inside event) t h = inside_in-Inv api lo hi event t.system.place t refl h
  step-Inv api lo hi (returns lasted) t h = returns_in-Inv api lo hi lasted t.session.stage t refl h

  pub reachable-Inv :
      (api : Api) (lo hi : Duration) (r : Reconciler) (moves : List (Move Position))
      (t : Threads Position)
      → r.connected ≡ false
      → run api lo hi k v baked moves (started r lo) ≡ some t
      → Inv k v baked t
  unfolding started start_on Gate.start
  reachable-Inv api lo hi r moves t fresh e =
      run-keeps api lo hi k v baked (Inv k v baked) (step-Inv api lo hi) moves (started r lo) t e
        (record { told = fresh; held = refl; explained = tt; quiet = refl })
