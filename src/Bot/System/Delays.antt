-- ===== src/Bot/System/Delays.antt =====
-- How long the loop waits among the other threads.
use minecraft_afk_bot.Bot.Backoff.{Duration, Int63n}
use minecraft_afk_bot.Bot.Backoff.Sequence.{IsInt63n}
use minecraft_afk_bot.Bot.Loop
use minecraft_afk_bot.Bot.Loop.{
  Action, admit, connect, connected, Loop, settle, start, of_milliseconds,
}
use minecraft_afk_bot.Bot.Loop.Waits.{
  WaitsWithin, Within, Next, settle-Within, jitter-Within, of_milliseconds-pos,
}
use minecraft_afk_bot.Bot.System.{
  Place, at_head, sleeping, admitting, in_session, returned, ended, reported, observed, released,
  System, Step, gate, head, timer, stop_waiting, admit_returns, spawn, connect_returns,
  report_apart, let_go, finish, waiting_for, round_of, settled, gate_in, on_gate, head_in, timer_in,
  stop_waiting_in, admit_in, admit_of, spawn_in, connect_in, report_in, observe_in, let_go_in,
  finish_in, step, run, start_on, allowed, enter,
}
use minecraft_afk_bot.Bot.System.Runs.{Ensured, run-keeps_if}
use minecraft_afk_bot.Presence.Api.{Api}
use minecraft_afk_bot.Presence.Gate
use minecraft_afk_bot.Presence.Gate.{World, Phase, admitted, refused}
use minecraft_afk_bot.Presence.Reconciler.{Reconciler}
use minecraft_afk_bot.Prelude.Int.{pos}
use minecraft_afk_bot.Prelude.{
  Text, ℕ, ◌*◌, ◌^◌, ◌≤◌, ◌<◌, ◌≡◌, refl, Bool, true, false, List, [], ◌∷◌, ◌++◌, Option, none,
  some, All, All-append, arith, if◌then◌else◌,
}

-- The random numbers of a run are such as `rand.Int63n` gives.
abbrev pub IsLegal : Step → Type 0
IsLegal (head int63n) = IsInt63n int63n
IsLegal _ = Unit

module _ (api : Api) (lo hi : ℕ) (order : lo ≤ hi) (top : hi < 2 ^ 62) where
  record Inv (s : System) : Type 0 where
    pub delay : Within lo hi s.loop.delay
    pub waits : All (WaitsWithin lo hi) s.done

  -- The same loop with more actions.
  more :
      (s t : System) (actions : List Action)
      → t.loop ≡ s.loop
      → t.done ≡ s.done ++ actions
      → All (WaitsWithin lo hi) actions
      → Inv s
      → Inv t
  more s t actions same done all h = record {
    delay = rw same h.delay;
    waits = rw done (All-append (WaitsWithin lo hi) s.done actions h.waits all);
  }

  same_loop : (s t : System) → t.loop ≡ s.loop → t.done ≡ s.done → Inv s → Inv t
  same_loop s t same done h = record { delay = rw same h.delay; waits = rw done h.waits }

  Inv-if : (b : Bool) (s t : System) → Inv s → Inv t → Inv (if b then s else t)
  Inv-if true s t hs ht = hs
  Inv-if false s t hs ht = ht

  Ensured-if : (b : Bool) (s : System) → Inv s → Ensured Inv (if b then some s else none)
  Ensured-if true s h = h
  Ensured-if false s h = tt

  head_in-Inv :
      (int63n : Int63n) (p : Place) (s : System)
      → IsInt63n int63n
      → Inv s
      → Ensured Inv (head_in int63n p s)
  unfolding head_in
  head_in-Inv int63n at_head s legal h =
      let slow : System = record s {
        place = sleeping;
        done = s.done ++ waiting_for int63n s.loop.delay;
      } in
      Inv-if s.world.ctx_done (record s { place = returned })
        (if s.loop.first then enter s else slow)
        (same_loop s (record s { place = returned }) refl refl h)
        (Inv-if s.loop.first (enter s) slow (same_loop s (enter s) refl refl h) (
          more s slow (waiting_for int63n s.loop.delay) refl refl
            (tt, (jitter-Within lo hi order top int63n s.loop.delay legal h.delay, tt)) h))
  head_in-Inv int63n _ s legal h = tt

  timer_in-Inv : (p : Place) (s : System) → Inv s → Ensured Inv (timer_in p s)
  unfolding timer_in
  timer_in-Inv sleeping s h = same_loop s (enter s) refl refl h
  timer_in-Inv _ s h = tt

  stop_waiting_in-Inv : (p : Place) (s : System) → Inv s → Ensured Inv (stop_waiting_in p s)
  unfolding stop_waiting_in
  stop_waiting_in-Inv sleeping s h =
      Ensured-if s.world.ctx_done (record s { place = returned })
        (same_loop s (record s { place = returned }) refl refl h)
  stop_waiting_in-Inv _ s h = tt

  admit_of-Inv : (p : Phase) (s : System) → Inv s → Ensured Inv (admit_of p s)
  unfolding admit_of
  admit_of-Inv admitted s h = more s _ (admit true ∷ connect ∷ []) refl refl (tt, (tt, tt)) h
  admit_of-Inv refused s h = more s _ (admit false ∷ []) refl refl (tt, tt) h
  admit_of-Inv _ s h = tt

  admit_in-Inv : (p : Place) (s : System) → Inv s → Ensured Inv (admit_in p s)
  unfolding admit_in
  admit_in-Inv admitting s h = admit_of-Inv s.world.phase s h
  admit_in-Inv _ s h = tt

  spawn_in-Inv : (p : Place) (s : System) → Inv s → Ensured Inv (spawn_in p s)
  unfolding spawn_in
  spawn_in-Inv in_session s h = more s _ (connected true ∷ []) refl refl (tt, tt) h
  spawn_in-Inv _ s h = tt

  connect_in-Inv :
      (err : Option Text) (lasted : Duration) (p : Place) (s : System)
      → Inv s
      → Ensured Inv (connect_in err lasted p s)
  unfolding connect_in
  connect_in-Inv err lasted in_session s h = same_loop s _ refl refl h
  connect_in-Inv err lasted _ s h = tt

  report_in-Inv : (p : Place) (s : System) → Inv s → Ensured Inv (report_in p s)
  unfolding report_in
  report_in-Inv (ended err lasted) s h = more s _ (connected false ∷ []) refl refl (tt, tt) h
  report_in-Inv _ s h = tt

  observe_in-Inv : (p : Place) (s : System) → Inv s → Ensured Inv (observe_in p s)
  unfolding observe_in
  observe_in-Inv (reported err lasted) s h = same_loop s _ refl refl h
  observe_in-Inv _ s h = tt

  let_go_in-Inv : (p : Place) (s : System) → Inv s → Ensured Inv (let_go_in p s)
  unfolding let_go_in
  let_go_in-Inv (observed err lasted parked) s h = more s _ (Loop.release ∷ []) refl refl (tt, tt) h
  let_go_in-Inv _ s h = tt

  settled-Inv :
      (s : System) (x : List Action × Option Loop)
      → All (WaitsWithin lo hi) x.0 × Next lo hi x.1
      → Inv s
      → Inv (settled s x)
  settled-Inv s (actions, none) (all, next) h = more s _ actions refl refl all h
  settled-Inv s (actions, some l) (all, next) h = record {
    delay = next;
    waits = All-append (WaitsWithin lo hi) s.done actions h.waits all;
  }

  finish_in-Inv : (p : Place) (s : System) → Inv s → Ensured Inv (finish_in (pos lo) (pos hi) p s)
  unfolding finish_in
  finish_in-Inv (released err lasted parked) s h =
      let r = round_of (λ n. 0) 0 err lasted parked s.world.ctx_done in
      settled-Inv s (settle (pos lo) (pos hi) s.loop r)
        (settle-Within lo hi order top s.loop r h.delay) h
  finish_in-Inv _ s h = tt

  on_gate-Inv : (s : System) (o : Option World) → Inv s → Ensured Inv (on_gate s o)
  on_gate-Inv s none h = tt
  on_gate-Inv s (some w) h = same_loop s (record s { world = w }) refl refl h

  gate_in-Inv : (g : Gate.Step) (b : Bool) (s : System) → Inv s → Ensured Inv (gate_in api g b s)
  unfolding gate_in
  gate_in-Inv g false s h = tt
  gate_in-Inv g true s h = on_gate-Inv s (Gate.step api g s.world) h

  step-Inv :
      (x : Step) (s : System) → IsLegal x → Inv s → Ensured Inv (step api (pos lo) (pos hi) x s)
  unfolding step
  step-Inv (gate g) s q h = gate_in-Inv g (allowed s.place g) s h
  step-Inv (head int63n) s q h = head_in-Inv int63n s.place s q h
  step-Inv timer s q h = timer_in-Inv s.place s h
  step-Inv stop_waiting s q h = stop_waiting_in-Inv s.place s h
  step-Inv admit_returns s q h = admit_in-Inv s.place s h
  step-Inv spawn s q h = spawn_in-Inv s.place s h
  step-Inv (connect_returns err lasted) s q h = connect_in-Inv err lasted s.place s h
  step-Inv report_apart s q h = report_in-Inv s.place s h
  step-Inv Step.observe s q h = observe_in-Inv s.place s h
  step-Inv let_go s q h = let_go_in-Inv s.place s h
  step-Inv finish s q h = finish_in-Inv s.place s h

-- With delays that the configuration admits, and random numbers such as `rand.Int63n` gives, at
-- each moment of a run, however its steps interleave, the delay lies between the floor and the
-- ceiling, and every wait so far was at least half the floor and at most the ceiling.
pub reachable-Within :
    (api : Api) (min_ms max_ms : ℕ) (r : Reconciler) (steps : List Step) (s : System)
    → min_ms ≤ max_ms
    → max_ms ≤ 3_600_000
    → All IsLegal steps
    → run api
        (of_milliseconds min_ms)
        (of_milliseconds max_ms)
        steps
        (start_on r (of_milliseconds min_ms))
      ≡ some s
    → Within (min_ms * 1_000_000) (max_ms * 1_000_000) s.loop.delay
      × All (WaitsWithin (min_ms * 1_000_000) (max_ms * 1_000_000)) s.done
unfolding start_on start
reachable-Within api min_ms max_ms r steps s order top legal e =
    let low = min_ms * 1_000_000 in
    let high = max_ms * 1_000_000 in
    let inv =
      run-keeps_if api (pos low) (pos high) (Inv api low high (omega arith) (omega arith)) IsLegal
        (step-Inv api low high (omega arith) (omega arith)) steps (start_on r (pos low)) s legal
        (rw (of_milliseconds-pos min_ms (omega arith), of_milliseconds-pos max_ms top) at e)
        (record { delay = (omega arith, omega arith); waits = tt }) in
    (inv.delay, inv.waits)
