-- ===== src/Bot/Threads/Refines.antt =====
-- The program with its session is an instance of the loop with any session, so that what holds of
-- every run of the one holds of every run of the other.
use minecraft_afk_bot.Bot.Backoff.{Duration}
use minecraft_afk_bot.Bot.Session.Steps
use minecraft_afk_bot.Bot.Session.Steps.{Stage, over, Progress, Event, entered, begun}
use minecraft_afk_bot.Bot.System
use minecraft_afk_bot.Bot.System.{
  Place, in_session, System, Step, admit_returns, spawn, connect_returns, start_on,
}
use minecraft_afk_bot.Bot.Threads.{
  Threads, Move, beside, inside, returns, with_session, beside_in, call_back, stepped, inside_in,
  returns_in, step, run, started,
}
use minecraft_afk_bot.Bot.System.Runs
use minecraft_afk_bot.Bot.Threads.Runs.{Ensured, run-keeps}
use minecraft_afk_bot.Gophertunnel.{Constants}
use minecraft_afk_bot.Mcproto.{Protocol}
use minecraft_afk_bot.Presence.Api.{Api}
use minecraft_afk_bot.Presence.Reconciler.{Reconciler}
use minecraft_afk_bot.Prelude.{
  ℕ, ◌≡◌, refl, ◌∙◌, List, [], ◌∷◌, ◌++◌, Option, none, some, some-injective,
}

module _ (api : Api) (lo hi : Duration) where
  -- The system `s` comes to be by a run from `r`.
  abbrev IsRun : System → System → Type 0
  IsRun r s = (steps : List Step) × (System.run api lo hi steps r ≡ some s)

  continue-end : (o : Option System) → System.continue api lo hi o (System.run api lo hi []) ≡ o
  unfolding System.continue System.run
  continue-end none = refl
  continue-end (some s) = refl

  run-snoc :
      (steps : List Step) (x : Step) (r s : System)
      → System.run api lo hi steps r ≡ some s
      → System.run api lo hi (steps ++ x ∷ []) r ≡ System.step api lo hi x s
  unfolding System.run
  run-snoc [] x r s e = rw (some-injective r s e) (continue-end (System.step api lo hi x s))
  run-snoc (y ∷ steps) x r s e =
      let (u, moved, rest) =
        Runs.continue-some api lo hi (System.step api lo hi y r) (System.run api lo hi steps) s e in
      rw moved (unfold System.continue in run-snoc steps x u s rest)

  IsRun-step :
      (r s : System) (x : Step) (o : Option System)
      → System.step api lo hi x s ≡ o
      → IsRun r s
      → Runs.Ensured (IsRun r) o
  IsRun-step r s x none e h = tt
  IsRun-step r s x (some u) e (steps, reached) = (steps ++ x ∷ [], run-snoc steps x r s reached ∙ e)

module _ {Position Schema : Type 0} (api : Api) (lo hi : Duration) (k : Constants) (v : ℕ)
    (baked : Protocol Schema) (r : System) where
  abbrev RunsTo : Threads Position → Type 0
  RunsTo t = IsRun api lo hi r t.system

  with_session-IsRun :
      (p : Progress Position) (o : Option System)
      → Runs.Ensured (IsRun api lo hi r) o
      → Ensured RunsTo (with_session p o)
  with_session-IsRun p none h = tt
  with_session-IsRun p (some s) h = h

  -- A step of the system, and the session behind it.
  after-IsRun :
      (x : Step) (p : Progress Position) (s : System)
      → IsRun api lo hi r s
      → Ensured RunsTo (with_session p (System.step api lo hi x s))
  after-IsRun x p s h =
      let o = System.step api lo hi x s in
      with_session-IsRun p o (IsRun-step api lo hi r s x o refl h)

  beside_in-IsRun :
      (x : Step) (t : Threads Position) → RunsTo t → Ensured RunsTo (beside_in api lo hi x t)
  unfolding beside_in
  beside_in-IsRun spawn t h = tt
  beside_in-IsRun (connect_returns err lasted) t h = tt
  beside_in-IsRun admit_returns t h = after-IsRun admit_returns begun t.system h
  beside_in-IsRun x t h = after-IsRun x t.session t.system h

  stepped-IsRun :
      (event : Event Position) (s : System) (o : Option (Progress Position))
      → IsRun api lo hi r s
      → Ensured RunsTo (stepped api lo hi event s o)
  unfolding stepped call_back
  stepped-IsRun event s none h = tt
  stepped-IsRun (entered none xuid) s (some p) h = after-IsRun spawn p s h
  stepped-IsRun event s (some p) h = h

  inside_in-IsRun :
      (event : Event Position) (p : Place) (t : Threads Position)
      → RunsTo t
      → Ensured RunsTo (inside_in api lo hi k v baked event p t)
  unfolding inside_in
  inside_in-IsRun event in_session t h =
      stepped-IsRun event t.system
        (Steps.step k v baked t.system.world.session_done event t.session) h
  inside_in-IsRun event _ t h = tt

  returns_in-IsRun :
      (lasted : Duration) (stage : Stage) (t : Threads Position)
      → RunsTo t
      → Ensured RunsTo (returns_in api lo hi lasted stage t)
  unfolding returns_in
  returns_in-IsRun lasted (over err) t h =
      after-IsRun (connect_returns err lasted) t.session t.system h
  returns_in-IsRun lasted _ t h = tt

  step-IsRun :
      (m : Move Position) (t : Threads Position)
      → RunsTo t
      → Ensured RunsTo (step api lo hi k v baked m t)
  unfolding step
  step-IsRun (beside x) t h = beside_in-IsRun x t h
  step-IsRun (inside event) t h = inside_in-IsRun event t.system.place t h
  step-IsRun (returns lasted) t h = returns_in-IsRun lasted t.session.stage t h

-- However the threads interleave, the loop, the gate, the poller and the watcher do beside the bot's
-- own session what some run of the loop with a session that the surroundings choose does, to the
-- same world, place, variables and actions of the loop.
pub run-refines :
    {Position Schema : Type 0} (api : Api) (lo hi : Duration) (k : Constants) (v : ℕ)
    (baked : Protocol Schema) (r : Reconciler) (moves : List (Move Position)) (t : Threads Position)
    → run api lo hi k v baked moves (started r lo) ≡ some t
    → (steps : List Step) × (System.run api lo hi steps (start_on r lo) ≡ some t.system)
unfolding started System.run
run-refines api lo hi k v baked r moves t e =
    run-keeps api lo hi k v baked (RunsTo api lo hi k v baked (start_on r lo))
      (step-IsRun api lo hi k v baked (start_on r lo)) moves (started r lo) t e ([], refl)
