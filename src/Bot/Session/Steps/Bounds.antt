-- ===== src/Bot/Session/Steps/Bounds.antt =====
-- How many steps a session has left once its context has ended.
use minecraft_afk_bot.Bot.Session.Steps.{
  Stage, pinging, spawning, requesting, dialing, at_pass, in_read, read_failed, over, Progress,
  Event, pinged, dialled, entered, requested, tested, arrived, broke, cancelled, interrupted,
  explained, pinged_in, dialled_in, entered_in, requested_in, tested_in, answered_in, arrived_in,
  explained_in, cancelled_in, interrupted_in, step_at,
}
use minecraft_afk_bot.Bot.Session.{Action, respond}
use minecraft_afk_bot.Gophertunnel.{Constants}
use minecraft_afk_bot.Liveness.{Respawner, handle}
use minecraft_afk_bot.Mcproto.{Protocol}
use minecraft_afk_bot.Prelude.{
  Text, ℕ, ◌+◌, ◌<◌, ◌≤◌, Bool, true, false, List, Option, none, some, arith, Bool-cases, inl, inr,
  map, ◌++◌,
}
use minecraft_afk_bot.Bot.Session.{write, log_radius}

-- The steps that a stage has before it, with the context ended.
abbrev pub height : Stage → ℕ
height pinging = 5
height (dialing id) = 4
height spawning = 3
height requesting = 2
height (at_pass r) = 1
height (in_read r) = 2
height (read_failed err) = 1
height (over err) = 0

pub height_le : (stage : Stage) → height stage ≤ 5
height_le pinging = omega arith
height_le (dialing id) = omega arith
height_le spawning = omega arith
height_le requesting = omega arith
height_le (at_pass r) = omega arith
height_le (in_read r) = omega arith
height_le (read_failed err) = omega arith
height_le (over err) = omega arith

-- The close by `AfterFunc`, if it is still to come.
abbrev pub to_cut : Bool → ℕ
to_cut true = 0
to_cut false = 1

pub to_cut_le : (b : Bool) → to_cut b ≤ 1
to_cut_le true = omega arith
to_cut_le false = omega arith

module _ {Position : Type 0} where
  abbrev pub rank : Progress Position → ℕ
  rank s = height s.stage + to_cut s.is_cut

  -- A step that can be taken leaves fewer behind it.
  abbrev pub Lowers : ℕ → Option (Progress Position) → Type 0
  Lowers n none = Unit
  Lowers n (some s) = rank s < n

  answered_in-Lowers :
      (r : Respawner) (answers granted : List (Action Position)) (o : Option Text)
      (s : Progress Position)
      → Lowers (2 + to_cut s.is_cut) (some (answered_in r answers granted o s))
  unfolding answered_in
  answered_in-Lowers r answers granted none s = omega arith
  answered_in-Lowers r answers granted (some err) s = omega arith

  cancelled_in-Lowers :
      (stage : Stage) (s : Progress Position)
      → Lowers (height stage + to_cut s.is_cut) (cancelled_in true stage s)
  unfolding cancelled_in
  cancelled_in-Lowers stage s = elim (Bool-cases s.is_cut) [
    | inl e ↦ rw e tt
    | inr e ↦ rw e (omega arith)
  ]

  interrupted_in-Lowers :
      (err : Text) (s : Progress Position) → Lowers (2 + to_cut s.is_cut) (interrupted_in err s)
  unfolding interrupted_in
  interrupted_in-Lowers err s = elim (Bool-cases s.is_cut) [
    | inl e ↦ rw e (omega arith)
    | inr e ↦ rw e tt
  ]

  pub step_at-Lowers :
      {Schema : Type 0} (k : Constants) (v : ℕ) (baked : Protocol Schema) (stage : Stage)
      (event : Event Position) (s : Progress Position)
      → Lowers (height stage + to_cut s.is_cut) (step_at k v baked true stage event s)
  unfolding step_at pinged_in dialled_in entered_in requested_in tested_in arrived_in explained_in
  step_at-Lowers k v baked pinging (pinged pong) s = omega arith
  step_at-Lowers k v baked (dialing id) (dialled none) s = omega arith
  step_at-Lowers k v baked (dialing id) (dialled (some err)) s = omega arith
  step_at-Lowers k v baked spawning (entered none xuid) s = omega arith
  step_at-Lowers k v baked spawning (entered (some err) xuid) s = omega arith
  step_at-Lowers k v baked requesting (requested none id) s = omega arith
  step_at-Lowers k v baked requesting (requested (some err) id) s = omega arith
  step_at-Lowers k v baked (at_pass r) tested s = omega arith
  step_at-Lowers k v baked (in_read r) (arrived pk w) s =
      let h = handle k r pk w in
      answered_in-Lowers h.after (map write h.wrote ++ (respond v w h).0) (log_radius pk)
        (respond v w h).1 s
  step_at-Lowers k v baked (in_read r) (broke err) s = omega arith
  step_at-Lowers k v baked (in_read r) (interrupted err) s = interrupted_in-Lowers err s
  step_at-Lowers k v baked (read_failed err) explained s = omega arith
  step_at-Lowers k v baked spawning cancelled s = cancelled_in-Lowers spawning s
  step_at-Lowers k v baked requesting cancelled s = cancelled_in-Lowers requesting s
  step_at-Lowers k v baked (at_pass r) cancelled s = cancelled_in-Lowers (at_pass r) s
  step_at-Lowers k v baked (in_read r) cancelled s = cancelled_in-Lowers (in_read r) s
  step_at-Lowers k v baked (read_failed err) cancelled s = cancelled_in-Lowers (read_failed err) s
  step_at-Lowers k v baked stage event s = tt
