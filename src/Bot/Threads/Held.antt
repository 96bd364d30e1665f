-- ===== src/Bot/Threads/Held.antt =====
-- What holds of the session and of what is reported at each place of the loop.
use minecraft_afk_bot.Bot.Loop
use minecraft_afk_bot.Bot.Session.Link.{observe_all, down}
use minecraft_afk_bot.Bot.Session.Result.{is_session_ended}
use minecraft_afk_bot.Bot.Session.Steps.{Stage, over, Progress}
use minecraft_afk_bot.Bot.Session.Steps.Calls.{has_spawned}
use minecraft_afk_bot.Bot.Session.Steps.Course.{Of}
use minecraft_afk_bot.Bot.System.{
  Place, admitting, in_session, ended, reported, observed, released, System, allowed, gate_in,
  on_gate,
}
use minecraft_afk_bot.Bot.System.Fits.{
  EnsuredWorld, Kept, step-Kept, Outside, step-Outside, allowed-outside, EnsuredWorld-map,
}
use minecraft_afk_bot.Bot.System.Places.{may_report}
use minecraft_afk_bot.Bot.Threads.{Threads, with_session}
use minecraft_afk_bot.Bot.Threads.Runs.{Ensured}
use minecraft_afk_bot.Gophertunnel.{Constants}
use minecraft_afk_bot.Mcproto.{Protocol}
use minecraft_afk_bot.Presence.Api.{Api}
use minecraft_afk_bot.Presence.Gate
use minecraft_afk_bot.Presence.Gate.{World}
use minecraft_afk_bot.Prelude.{
  ℕ, ◌≡◌, ◌∙◌, Bool, true, false, ◌&&◌, List, Option, none, some, inl, inr, count,
}

-- The session has no connection open.
abbrev pub IsShut : {Position : Type 0} → Progress Position → Type 0
IsShut s = (observe_all down s.actions).is_open ≡ false

-- A session that has returned, or is about to return, no error has found its context ended; so does
-- the loop.
abbrev pub Explained : Place → Bool → Stage → Type 0
Explained in_session done stage = stage ≡ over none → done ≡ true
Explained (ended none lasted) done stage = done ≡ true
Explained (reported none lasted) done stage = done ≡ true
Explained (observed none lasted parked) done stage = parked ≡ true
Explained (released none lasted parked) done stage = parked ≡ true
Explained _ done stage = Unit

pub Explained-later :
    (p : Place) (done later : Bool) (stage : Stage)
    → (done ≡ true → later ≡ true)
    → Explained p done stage
    → Explained p later stage
Explained-later in_session done later stage f h = λ e. f (h e)
Explained-later (ended none lasted) done later stage f h = f h
Explained-later (reported none lasted) done later stage f h = f h
Explained-later (observed none lasted parked) done later stage f h = h
Explained-later (released none lasted parked) done later stage f h = h
Explained-later _ done later stage f h = tt

module _ (api : Api) where
  Explained-admitting :
      (o : Option World) (stage : Stage)
      → EnsuredWorld api (λ w. Explained admitting w.session_done stage) o
  Explained-admitting none stage = tt
  Explained-admitting (some w) stage = tt

  gate-Explained :
      (p : Place) (g : Gate.Step) (w : World) (stage : Stage)
      → allowed p g ≡ true
      → Explained p w.session_done stage
      → EnsuredWorld api (λ u. Explained p u.session_done stage) (Gate.step api g w)
  gate-Explained p g w stage a h = elim (allowed-outside api p g a) [
    | inl e ↦ rw e (Explained-admitting (Gate.step api g w) stage)
    | inr o ↦
        EnsuredWorld-map api (Outside w) (λ u. Explained p u.session_done stage) (Gate.step api g w)
          (λ u out. Explained-later p w.session_done u.session_done stage out.1 h)
          (step-Outside api g w o)
  ]

module _ {Position Schema : Type 0} (k : Constants) (v : ℕ) (baked : Protocol Schema) where
  -- The session while the loop is in it, and behind it.
  abbrev pub Held : Place → Progress Position → Type 0
  Held in_session s = Of k v baked s
  Held _ s = IsShut s

  -- Of threads whose loop is at `p`.
  pub record At (p : Place) (w : World) (done : List Loop.Action) (s : Progress Position)
      : Type 0 where
    pub told : w.reconciler.connected ≡ (may_report p && has_spawned s.actions)
    pub held : Held p s
    pub explained : Explained p w.session_done s.stage
    pub quiet : count is_session_ended done ≡ 0

  abbrev pub Inv : Threads Position → Type 0
  Inv t = At t.system.place t.system.world t.system.done t.session

  module _ (api : Api) where
    on_gate-Inv :
        (s : Progress Position) (y : System) (o : Option World)
        → Inv (record { system = y; session = s })
        → EnsuredWorld api (λ u. Explained y.place u.session_done s.stage) o
        → EnsuredWorld api (Kept api y.world) o
        → Ensured Inv (with_session s (on_gate y o))
    on_gate-Inv s y none h explained kept = tt
    on_gate-Inv s y (some w) h explained kept = record {
      told = kept ∙ h.told;
      held = h.held;
      explained = explained;
      quiet = h.quiet;
    }

    -- The gate, the poller and the watcher keep it.
    pub gate_in-Inv :
        (g : Gate.Step) (b : Bool) (t : Threads Position)
        → allowed t.system.place g ≡ b
        → Inv t
        → Ensured Inv (with_session t.session (gate_in api g b t.system))
    unfolding gate_in
    gate_in-Inv g false t a h = tt
    gate_in-Inv g true t a h =
        on_gate-Inv t.session t.system (Gate.step api g t.system.world) h
          (gate-Explained api t.system.place g t.system.world t.session.stage a h.explained)
          (step-Kept api g t.system.world)
