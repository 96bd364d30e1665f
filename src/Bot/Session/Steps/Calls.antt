-- ===== src/Bot/Session/Steps/Calls.antt =====
-- What a step of a session tells the rest of the program: its callback, and why it returns no error.
use minecraft_afk_bot.Bot.Session.{
  Action, dial, do_spawn, spawned, write, watch, leave, log_spoof, log_radius, radius_request,
  respond,
}
use minecraft_afk_bot.Bot.Session.Steps.{
  Stage, pinging, spawning, requesting, dialing, at_pass, in_read, read_failed, over, Progress,
  Event, pinged, dialled, entered, requested, tested, arrived, broke, cancelled, interrupted,
  explained, cancelled_in, interrupted_in, then_at, pinged_in, dialled_in, entered_in, requested_in,
  tested_in, answered_in, arrived_in, explained_in, step_at,
}
use minecraft_afk_bot.Gophertunnel.{Packet, chunk_radius_updated, Constants}
use minecraft_afk_bot.Liveness.{Respawner, Writer, Handled, handle}
use minecraft_afk_bot.Mcproto.{Protocol, negotiate}
use minecraft_afk_bot.Prelude.Strings.{codes}
use minecraft_afk_bot.Prelude.{
  Text, ℕ, Bool, true, false, ◌||◌, List, [], ◌∷◌, ◌++◌, map, Option, none, some, ◌≡◌, refl, ◌∙◌,
  arith, ◌&&◌, not, Bool-cases, inl, inr,
}

or_true : (b : Bool) → (b || true) ≡ true
or_true b = ground arith

module _ {Position : Type 0} where
  -- The session has called back.
  abbrev pub has_spawned : List (Action Position) → Bool
  has_spawned [] = false
  has_spawned (spawned ∷ actions) = true
  has_spawned (_ ∷ actions) = has_spawned actions

  -- The step that does.
  abbrev pub calls_back : Event Position → Bool
  calls_back (entered none xuid) = true
  calls_back _ = false

  has_spawned-append :
      (xs ys : List (Action Position)) → has_spawned (xs ++ ys) ≡ (has_spawned xs || has_spawned ys)
  has_spawned-append [] ys = refl
  has_spawned-append (spawned ∷ xs) ys = refl
  has_spawned-append (_ ∷ xs) ys = has_spawned-append xs ys

  quiet-append :
      (xs ys : List (Action Position))
      → has_spawned xs ≡ false
      → has_spawned ys ≡ false
      → has_spawned (xs ++ ys) ≡ false
  quiet-append xs ys hx hy = has_spawned-append xs ys ∙ rw hx hy

  map-quiet :
      {A : Type 0} (f : A → Action Position) (xs : List A)
      → ((x : A) → has_spawned (f x ∷ []) ≡ false)
      → has_spawned (map f xs) ≡ false
  map-quiet f [] h = refl
  map-quiet f (x ∷ xs) h = quiet-append (f x ∷ []) (map f xs) (h x) (map-quiet f xs h)

  respond-quiet :
      (v : ℕ) (w : Writer Position) (h : Handled Position) → has_spawned (respond v w h).0 ≡ false
  unfolding respond
  respond-quiet v w h = ground arith

  log_radius-quiet : (pk : Packet Position) → has_spawned (log_radius pk) ≡ false
  unfolding log_radius
  log_radius-quiet (chunk_radius_updated radius) = refl
  log_radius-quiet _ = refl

  -- In a step that can be taken: the callback is what it was, or this step makes it.
  abbrev pub Tells : Bool → Progress Position → Option (Progress Position) → Type 0
  Tells b s none = Unit
  Tells b s (some p) = has_spawned p.actions ≡ (b || has_spawned s.actions)

  then_at-Tells :
      (s : Progress Position) (actions : List (Action Position)) (stage : Stage)
      → has_spawned actions ≡ false
      → Tells false s (some (then_at s actions stage))
  then_at-Tells s actions stage h = ground (arith, has_spawned-append s.actions actions)

  failed_at-quiet :
      (actions : List (Action Position))
      → has_spawned actions ≡ false
      → has_spawned (actions ++ leave) ≡ false
  failed_at-quiet actions h = quiet-append actions leave h refl

  answered_in-Tells :
      (r : Respawner) (answers granted : List (Action Position)) (o : Option Text)
      (s : Progress Position)
      → has_spawned answers ≡ false
      → has_spawned granted ≡ false
      → Tells false s (some (answered_in r answers granted o s))
  unfolding answered_in
  answered_in-Tells r answers granted none s ha hg =
      then_at-Tells s (answers ++ granted) (at_pass r) (quiet-append answers granted ha hg)
  answered_in-Tells r answers granted (some err) s ha hg =
      then_at-Tells s (answers ++ leave)
        (over (some (codes "request chunk radius after respawn: " ++ err)))
        (failed_at-quiet answers ha)

  cancelled_in-Tells :
      (done : Bool) (stage : Stage) (s : Progress Position)
      → Tells false s (cancelled_in done stage s)
  unfolding cancelled_in
  cancelled_in-Tells done stage s = elim (Bool-cases (done && not s.is_cut)) [
    | inl e ↦ rw e refl
    | inr e ↦ rw e tt
  ]

  interrupted_in-Tells : (err : Text) (s : Progress Position) → Tells false s (interrupted_in err s)
  unfolding interrupted_in
  interrupted_in-Tells err s = elim (Bool-cases s.is_cut) [
    | inl e ↦ rw e (then_at-Tells s [] (read_failed err) refl)
    | inr e ↦ rw e tt
  ]

  pub step_at-Tells :
      {Schema : Type 0} (k : Constants) (v : ℕ) (baked : Protocol Schema) (done : Bool)
      (stage : Stage) (event : Event Position) (s : Progress Position)
      → Tells (calls_back event) s (step_at k v baked done stage event s)
  unfolding step_at pinged_in dialled_in entered_in requested_in tested_in arrived_in explained_in
  step_at-Tells k v baked done pinging (pinged pong) s =
      let (proto, spoofs) = negotiate pong baked true in
      then_at-Tells s (map (log_spoof baked.id) spoofs) (dialing proto.id)
        (map-quiet (log_spoof baked.id) spoofs (λ ad. refl))
  step_at-Tells k v baked done (dialing id) (dialled none) s =
      then_at-Tells s (dial id true ∷ watch ∷ []) spawning refl
  step_at-Tells k v baked done (dialing id) (dialled (some err)) s =
      then_at-Tells s (dial id false ∷ []) (over (some (codes "dial: " ++ err))) refl
  step_at-Tells k v baked done spawning (entered none xuid) s =
      has_spawned-append s.actions _ ∙ or_true (has_spawned s.actions)
  step_at-Tells k v baked done spawning (entered (some err) xuid) s =
      then_at-Tells s (do_spawn ∷ leave) (over (some (codes "spawn: " ++ err))) refl
  step_at-Tells k v baked done requesting (requested none id) s =
      then_at-Tells s (write (radius_request v) ∷ []) requesting refl
  step_at-Tells k v baked done requesting (requested (some err) id) s =
      then_at-Tells s (write (radius_request v) ∷ leave)
        (over (some (codes "request chunk radius: " ++ err))) refl
  step_at-Tells k v baked true (at_pass r) tested s = then_at-Tells s leave (over none) refl
  step_at-Tells k v baked false (at_pass r) tested s = then_at-Tells s [] (in_read r) refl
  step_at-Tells k v baked done (in_read r) (arrived pk w) s =
      let h = handle k r pk w in
      answered_in-Tells h.after (map write h.wrote ++ (respond v w h).0) (log_radius pk)
        (respond v w h).1 s
        (quiet-append (map write h.wrote) (respond v w h).0 (map-quiet write h.wrote (λ pk'. refl))
          (respond-quiet v w h))
        (log_radius-quiet pk)
  step_at-Tells k v baked done (in_read r) (broke err) s = then_at-Tells s [] (read_failed err) refl
  step_at-Tells k v baked done (read_failed err) explained s =
      then_at-Tells s leave (over none) refl
  step_at-Tells k v baked done (in_read r) (interrupted err) s = interrupted_in-Tells err s
  step_at-Tells k v baked done spawning cancelled s = cancelled_in-Tells done spawning s
  step_at-Tells k v baked done requesting cancelled s = cancelled_in-Tells done requesting s
  step_at-Tells k v baked done (at_pass r) cancelled s = cancelled_in-Tells done (at_pass r) s
  step_at-Tells k v baked done (in_read r) cancelled s = cancelled_in-Tells done (in_read r) s
  step_at-Tells k v baked done (read_failed err) cancelled s =
      cancelled_in-Tells done (read_failed err) s
  step_at-Tells k v baked done stage event s = tt

  -- A session that returns no error has found its context ended.
  abbrev pub Explains : Bool → Option (Progress Position) → Type 0
  Explains done none = Unit
  Explains done (some p) = p.stage ≡ over none → done ≡ true

  pub step_at-Explains :
      {Schema : Type 0} (k : Constants) (v : ℕ) (baked : Protocol Schema) (done : Bool)
      (stage : Stage) (event : Event Position) (s : Progress Position)
      → Explains done (step_at k v baked done stage event s)
  unfolding step_at pinged_in dialled_in entered_in requested_in tested_in arrived_in answered_in
      explained_in cancelled_in interrupted_in
  step_at-Explains k v baked done stage event s = ground arith
