-- ===== src/Bot/Threads/Exits.antt =====
-- The way of a session out of its read loop once its context has ended, and of the loop behind it.
use minecraft_afk_bot.Bot.Backoff.{Duration}
use minecraft_afk_bot.Bot.Session.{Action, leave}
use minecraft_afk_bot.Bot.Session.Steps
use minecraft_afk_bot.Bot.Session.Steps.{
  Stage, at_pass, in_read, read_failed, over, Progress, Event, tested, cancelled, interrupted,
  explained, tested_in, cancelled_in, interrupted_in, explained_in,
}
use minecraft_afk_bot.Bot.System
use minecraft_afk_bot.Bot.System.{
  Place, in_session, admit_returns, spawn, System, Step, gate, head, connect_returns, report_apart,
  observe, let_go, finish, start_on,
}
use minecraft_afk_bot.Bot.System.Runs
use minecraft_afk_bot.Bot.Threads.{
  beside, returns, with_session, beside_in, returns_in, step, run, inside, inside_in, stepped,
  call_back,
}
use minecraft_afk_bot.Bot.Threads.Runs.{with_progress, run-cons}
use minecraft_afk_bot.Gophertunnel.{Constants}
use minecraft_afk_bot.Liveness.{Respawner}
use minecraft_afk_bot.Mcproto.{Protocol}
use minecraft_afk_bot.Presence.Api.{Api}
use minecraft_afk_bot.Prelude.{
  length, ◌≤◌, ◌++◌, map, Text, ℕ, ◌≡◌, refl, ap, sym, subst, ◌∙◌, Bool, true, false, List, [], ◌∷◌,
  Option, none, some, All, append-nil, arith,
}

-- The steps that are not the session's.
abbrev pub is_beside : Step → Bool
is_beside spawn = false
is_beside (connect_returns err lasted) = false
is_beside admit_returns = false
is_beside _ = true

abbrev pub IsBeside : Step → Type 0
IsBeside x = is_beside x ≡ true

-- A session in its read loop.
abbrev pub IsReading : Stage → Type 0
IsReading (at_pass r) = Unit
IsReading (in_read r) = Unit
IsReading (read_failed err) = Unit
IsReading _ = ⊥

-- What it does behind the end of its context, where the network does nothing: the close by
-- `AfterFunc` ends the read with this error.
abbrev pub exit_events : {Position : Type 0} → Text → Bool → Stage → List (Event Position)
exit_events err is_cut (at_pass r) = tested ∷ []
exit_events err false (in_read r) = cancelled ∷ interrupted err ∷ explained ∷ []
exit_events err true (in_read r) = interrupted err ∷ explained ∷ []
exit_events err is_cut _ = explained ∷ []

-- The connection is closed by `AfterFunc` where the session waits for a packet.
abbrev pub cut_at : Bool → Stage → Bool
cut_at is_cut (in_read r) = true
cut_at is_cut _ = is_cut

pub length-exit_events :
    (Position : Type 0) (err : Text) (is_cut : Bool) (stage : Stage)
    → length (exit_events {Position = Position} err is_cut stage) ≤ 3
length-exit_events Position err is_cut (at_pass r) = omega arith
length-exit_events Position err false (in_read r) = omega arith
length-exit_events Position err true (in_read r) = omega arith
length-exit_events Position err is_cut _ = omega arith

-- The session returned with no error, its connection closed.
abbrev pub left : {Position : Type 0} → Progress Position → Progress Position
left p = record {
  stage = over none;
  actions = p.actions ++ leave;
  is_cut = cut_at p.is_cut p.stage;
}

module _ {Position Schema : Type 0} (api : Api) (lo hi : Duration) (k : Constants) (v : ℕ)
    (baked : Protocol Schema) where
  step-beside :
      (x : Step) (s : System) (p : Progress Position)
      → is_beside x ≡ true
      → step api lo hi k v baked (beside x) (with_progress s p)
        ≡ with_session p (System.step api lo hi x s)
  unfolding step beside_in
  step-beside spawn s p b = cc
  step-beside (connect_returns err lasted) s p b = cc
  step-beside admit_returns s p b = cc
  step-beside x s p b = refl

  pub run-beside :
      (steps : List Step) (s u : System) (p : Progress Position)
      → All IsBeside steps
      → System.run api lo hi steps s ≡ some u
      → run api lo hi k v baked (map beside steps) (with_progress s p) ≡ some (with_progress u p)
  unfolding run System.run
  run-beside [] s u p h e = ap (with_session p) e
  run-beside (x ∷ steps) s u p (b, more) e =
      let (w, moved, rest) =
        Runs.continue-some api lo hi (System.step api lo hi x s) (System.run api lo hi steps) u e in
      run-cons api lo hi k v baked (beside x) (map beside steps) (with_progress s p)
        (with_progress w p) (step-beside x s p b ∙ ap (with_session p) moved)
      ∙ run-beside steps w u p more rest

  returns_in-over :
      (err : Option Text) (lasted : Duration) (stage : Stage) (s : System) (p : Progress Position)
      → stage ≡ over err
      → returns_in api lo hi lasted stage (with_progress s p)
        ≡ with_session p (System.step api lo hi (connect_returns err lasted) s)
  unfolding returns_in
  returns_in-over err lasted stage s p e = rw e refl

  -- The session returns, and the loop goes on.
  pub run-returns :
      (err : Option Text) (lasted : Duration) (steps : List Step) (s u : System)
      (p : Progress Position)
      → All IsBeside steps
      → p.stage ≡ over err
      → System.run api lo hi (connect_returns err lasted ∷ steps) s ≡ some u
      → run api lo hi k v baked (returns lasted ∷ map beside steps) (with_progress s p)
        ≡ some (with_progress u p)
  unfolding System.run step
  run-returns err lasted steps s u p h over_with e =
      let (w, moved, rest) =
        Runs.continue-some api lo hi (System.step api lo hi (connect_returns err lasted) s)
          (System.run api lo hi steps) u e in
      run-cons api lo hi k v baked (returns lasted) (map beside steps) (with_progress s p)
        (with_progress w p)
        (returns_in-over err lasted p.stage s p over_with ∙ ap (with_session p) moved)
      ∙ run-beside steps w u p h rest

  inside_in-step :
      (event : Event Position) (q : Place) (s : System) (p p' : Progress Position)
      → q ≡ in_session
      → call_back api lo hi event s ≡ some s
      → Steps.step_at k v baked s.world.session_done p.stage event p ≡ some p'
      → inside_in api lo hi k v baked event q (with_progress s p) ≡ some (with_progress s p')
  unfolding inside_in stepped Steps.step
  inside_in-step event q s p p' here calls moved = rw (here, moved) (ap (with_session p') calls)

  module _ (s : System) (here : s.place ≡ in_session) (done : s.world.session_done ≡ true) where
    -- A step of the session that calls nothing back.
    run-inside :
        (event : Event Position) (events : List (Event Position)) (p p' last : Progress Position)
        → call_back api lo hi event s ≡ some s
        → Steps.step_at k v baked true p.stage event p ≡ some p'
        → run api lo hi k v baked (map inside events) (with_progress s p')
          ≡ some (with_progress s last)
        → run api lo hi k v baked (map inside (event ∷ events)) (with_progress s p)
          ≡ some (with_progress s last)
    unfolding step
    run-inside event events p p' last calls moved rest =
        run-cons api lo hi k v baked (inside event) (map inside events) (with_progress s p)
          (with_progress s p')
          (inside_in-step event s.place s p p' here calls
            (subst (λ b. Steps.step_at k v baked b p.stage event p ≡ some p') (sym done) moved))
        ∙ rest

    abbrev at : Stage → List (Action Position) → Bool → Progress Position
    at stage actions is_cut = record { stage = stage; actions = actions; is_cut = is_cut }

    run-explained :
        (err : Text) (actions : List (Action Position)) (is_cut : Bool)
        → run api lo hi k v baked
            (map inside (explained ∷ []))
            (with_progress s (at (read_failed err) actions is_cut))
          ≡ some (with_progress s (at (over none) (actions ++ leave) is_cut))
    unfolding Steps.step_at call_back explained_in run
    run-explained err actions is_cut =
        let last = at (over none) (actions ++ leave) is_cut in
        run-inside explained [] (at (read_failed err) actions is_cut) last last refl refl refl

    run-interrupted :
        (err : Text) (r : Respawner) (actions : List (Action Position))
        → run api lo hi k v baked
            (map inside (interrupted err ∷ explained ∷ []))
            (with_progress s (at (in_read r) actions true))
          ≡ some (with_progress s (at (over none) (actions ++ leave) true))
    unfolding Steps.step_at call_back interrupted_in
    run-interrupted err r actions =
        run-inside (interrupted err) (explained ∷ []) (at (in_read r) actions true)
          (at (read_failed err) actions true) (at (over none) (actions ++ leave) true) refl
          (rw (append-nil actions) refl) (run-explained err actions true)

    -- The way out of the read loop.
    pub run-exit :
        (err : Text) (stage : Stage) (actions : List (Action Position)) (is_cut : Bool)
        → IsReading stage
        → run api lo hi k v baked
            (map inside (exit_events err is_cut stage))
            (with_progress s (at stage actions is_cut))
          ≡ some (with_progress s (left (at stage actions is_cut)))
    unfolding Steps.step_at call_back tested_in cancelled_in run
    run-exit err (at_pass r) actions is_cut h =
        let last = at (over none) (actions ++ leave) is_cut in
        run-inside tested [] (at (at_pass r) actions is_cut) last last refl refl refl
    run-exit err (in_read r) actions true h = run-interrupted err r actions
    run-exit err (in_read r) actions false h =
        run-inside cancelled (interrupted err ∷ explained ∷ []) (at (in_read r) actions false)
          (at (in_read r) actions true) (at (over none) (actions ++ leave) true) refl refl
          (run-interrupted err r actions)
    run-exit err (read_failed e) actions is_cut h = run-explained e actions is_cut
    run-exit err _ actions is_cut h = elim h [ ]
