-- ===== src/Bot/System/Refines.antt =====
-- The loop among the other threads does what its passes say.
use minecraft_afk_bot.Bot.Backoff.{Duration, Int63n}
use minecraft_afk_bot.Bot.Loop
use minecraft_afk_bot.Bot.Loop.{
  Action, admit, connect, connected, Round, Loop, announce, settle, attempt, round, start,
}
use minecraft_afk_bot.Bot.System.{
  Place, at_head, sleeping, admitting, in_session, returned, ended, reported, observed, released,
  System, Step, gate, head, timer, stop_waiting, admit_returns, spawn, connect_returns,
  report_apart, observe, let_go, finish, waiting_for, round_of, settled, gate_in, on_gate, head_in,
  timer_in, stop_waiting_in, admit_in, admit_of, spawn_in, connect_in, report_in, observe_in, enter,
  let_go_in, finish_in, step, run, start_on, allowed,
}
use minecraft_afk_bot.Bot.System.Passes.{
  opened, Passing, Passed, Stands, Passing-grow, Passing-end, Passing-start, announce-snoc,
}
use minecraft_afk_bot.Bot.System.Rounds.{
  round-session, cut_round, round-refused, round-stopped, Passed-stop,
}
use minecraft_afk_bot.Bot.System.Runs.{Ensured, run-keeps}
use minecraft_afk_bot.Presence.Api.{Api}
use minecraft_afk_bot.Presence.Gate
use minecraft_afk_bot.Presence.Gate.{World, Phase, admitted, refused, at_top, checked, waiting}
use minecraft_afk_bot.Presence.Reconciler.{Reconciler}
use minecraft_afk_bot.Prelude.{
  Text, ℕ, suc, ◌≡◌, refl, sym, Bool, true, false, List, [], ◌∷◌, ◌++◌, Option, none, some,
  append-nil, append_assoc, Bool-cases, inl, inr, subst, if◌then◌else◌,
}

module _ (lo hi : Duration) where
  abbrev Holds : System → Type 0
  Holds s = Stands lo hi s.place s.loop s.done

  abbrev After : Option System → Type 0
  After = Ensured Holds

  Holds-if :
      (b : Bool) (s t : System)
      → (b ≡ true → Holds s)
      → (b ≡ false → Holds t)
      → Holds (if b then s else t)
  Holds-if true s t hs ht = hs refl
  Holds-if false s t hs ht = ht refl

  head_in-After :
      (int63n : Int63n) (p : Place) (s : System)
      → Stands lo hi p s.loop s.done
      → After (head_in int63n p s)
  unfolding head_in
  head_in-After int63n at_head s h =
      let slow : System = record s {
        place = sleeping;
        done = s.done ++ waiting_for int63n s.loop.delay;
      } in
      Holds-if s.world.ctx_done (record s { place = returned })
        (if s.loop.first then enter s else slow) (λ e. Passed-stop lo hi s.loop s.done h)
        (λ e.
          Holds-if s.loop.first (enter s) slow
            (λ f.
              Passing-start lo hi int63n s.loop s.done s.done (rw f (sym (append-nil s.done))) h)
            (λ f. (f, Passing-start lo hi int63n s.loop s.done slow.done (rw f refl) h)))
  head_in-After int63n _ s h = tt

  timer_in-After : (p : Place) (s : System) → Stands lo hi p s.loop s.done → After (timer_in p s)
  unfolding timer_in
  timer_in-After sleeping s h = h.1
  timer_in-After _ s h = tt

  stop_waiting_in-After :
      (p : Place) (s : System) → Stands lo hi p s.loop s.done → After (stop_waiting_in p s)
  unfolding stop_waiting_in
  stop_waiting_in-After sleeping s (slow, h) = elim (Bool-cases s.world.ctx_done) [
    | inl e ↦ rw e (
        subst (λ done. Passed lo hi done none) (append-nil s.done)
          (Passing-end lo hi (λ n. []) [] s.loop s.done none
            (λ int63n n. cut_round lo hi int63n false true false)
            (λ int63n n. round-stopped lo hi s.loop int63n slow) h))
    | inr e ↦ rw e tt
  ]
  stop_waiting_in-After _ s h = tt

  admit_of-After :
      (p : Phase) (s : System) → Passing lo hi (λ n. []) s.loop s.done → After (admit_of p s)
  unfolding admit_of
  admit_of-After admitted s h =
      Passing-grow lo hi (λ n. []) (opened []) (λ n. 0) (admit true ∷ connect ∷ []) s.loop s.done
        (λ n. unfold announce in refl) h
  admit_of-After refused s h =
      Passing-end lo hi (λ n. []) (admit false ∷ []) s.loop s.done none
        (λ int63n n. cut_round lo hi int63n false false true)
        (λ int63n n. round-refused lo hi s.loop int63n) h
  admit_of-After _ s h = tt

  announce-more : (n : ℕ) → opened [] n ++ connected true ∷ [] ≡ opened [] (suc n)
  announce-more n =
      rw (append-nil (announce n), append-nil (announce (suc n)), announce-snoc lo hi n) refl

  admit_in-After : (p : Place) (s : System) → Stands lo hi p s.loop s.done → After (admit_in p s)
  unfolding admit_in
  admit_in-After admitting s h = admit_of-After s.world.phase s h
  admit_in-After _ s h = tt

  spawn_in-After : (p : Place) (s : System) → Stands lo hi p s.loop s.done → After (spawn_in p s)
  unfolding spawn_in
  spawn_in-After in_session s h =
      Passing-grow lo hi (opened []) (opened []) suc (connected true ∷ []) s.loop s.done
        announce-more h
  spawn_in-After _ s h = tt

  connect_in-After :
      (err : Option Text) (lasted : Duration) (p : Place) (s : System)
      → Stands lo hi p s.loop s.done
      → After (connect_in err lasted p s)
  unfolding connect_in
  connect_in-After err lasted in_session s h = h
  connect_in-After err lasted _ s h = tt

  report_in-After : (p : Place) (s : System) → Stands lo hi p s.loop s.done → After (report_in p s)
  unfolding report_in
  report_in-After (ended err lasted) s h =
      Passing-grow lo hi (opened []) (opened (connected false ∷ [])) (λ n. n) (connected false ∷ [])
        s.loop s.done (λ n. rw (append-nil (announce n)) refl) h
  report_in-After _ s h = tt

  observe_in-After :
      (p : Place) (s : System) → Stands lo hi p s.loop s.done → After (observe_in p s)
  unfolding observe_in
  observe_in-After (reported err lasted) s h = h
  observe_in-After _ s h = tt

  let_go_in-After : (p : Place) (s : System) → Stands lo hi p s.loop s.done → After (let_go_in p s)
  unfolding let_go_in
  let_go_in-After (observed err lasted parked) s h =
      Passing-grow lo hi (opened (connected false ∷ []))
        (opened (connected false ∷ Loop.release ∷ [])) (λ n. n) (Loop.release ∷ []) s.loop s.done
        (λ n. rw (append_assoc (announce n) (connected false ∷ []) (Loop.release ∷ [])) refl) h
  let_go_in-After _ s h = tt

  settled-After :
      (s : System) (x : List Action × Option Loop)
      → Passed lo hi (s.done ++ x.0) x.1
      → Holds (settled s x)
  settled-After s (more, none) h = h
  settled-After s (more, some l) h = h

  finish_in-After :
      (p : Place) (s : System) → Stands lo hi p s.loop s.done → After (finish_in lo hi p s)
  unfolding finish_in
  finish_in-After (released err lasted parked) s h =
      let x = settle lo hi s.loop (round_of (λ n. 0) 0 err lasted parked s.world.ctx_done) in
      settled-After s x (
        Passing-end lo hi (opened (connected false ∷ Loop.release ∷ [])) x.0 s.loop s.done x.1
          (λ int63n n. round_of int63n n err lasted parked s.world.ctx_done)
          (λ int63n n. round-session lo hi s.loop int63n n err lasted parked s.world.ctx_done) h)
  finish_in-After _ s h = tt

  on_gate-After : (s : System) (o : Option World) → Holds s → After (on_gate s o)
  on_gate-After s none h = tt
  on_gate-After s (some w) h = h

  gate_in-After :
      (api : Api) (g : Gate.Step) (b : Bool) (s : System) → Holds s → After (gate_in api g b s)
  unfolding gate_in
  gate_in-After api g false s h = tt
  gate_in-After api g true s h = on_gate-After s (Gate.step api g s.world) h

  step-After : (api : Api) (x : Step) (s : System) → Holds s → After (step api lo hi x s)
  unfolding step
  step-After api (gate g) s h = gate_in-After api g (allowed s.place g) s h
  step-After api (head int63n) s h = head_in-After int63n s.place s h
  step-After api timer s h = timer_in-After s.place s h
  step-After api stop_waiting s h = stop_waiting_in-After s.place s h
  step-After api admit_returns s h = admit_in-After s.place s h
  step-After api spawn s h = spawn_in-After s.place s h
  step-After api (connect_returns err lasted) s h = connect_in-After err lasted s.place s h
  step-After api report_apart s h = report_in-After s.place s h
  step-After api observe s h = observe_in-After s.place s h
  step-After api let_go s h = let_go_in-After s.place s h
  step-After api finish s h = finish_in-After s.place s h

-- However the scheduler orders the steps of the loop, of the gate, of the poller and of the watcher,
-- the loop does what its passes say: at its head and once it has returned it has done what
-- `runConnectLoop` does over some passes, with the same variables, and in between the beginning of
-- one pass more.
pub reachable-Stands :
    (api : Api) (lo hi : Duration) (r : Reconciler) (steps : List Step) (s : System)
    → run api lo hi steps (start_on r lo) ≡ some s
    → Stands lo hi s.place s.loop s.done
unfolding start_on
reachable-Stands api lo hi r steps s e =
    run-keeps api lo hi (Holds lo hi) (step-After lo hi api) steps (start_on r lo) s e
      (record { rounds = []; runs = unfold Loop.run in refl })
