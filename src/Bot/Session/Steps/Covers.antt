-- ===== src/Bot/Session/Steps/Covers.antt =====
-- What `session` does, a session in steps can do, and so the two are one.
use minecraft_afk_bot.Bot.Session.{
  Action, dial, do_spawn, spawned, write, watch, leave, log, log_radius, radius_request, respond,
  Pass, Read, packet, failed, Outcome, returned, reading, closing, after_radius, on_read, read_loop,
  after_request, after_spawn, after_dial, session,
}
use minecraft_afk_bot.Bot.Session.Steps.{
  Stage, pinging, spawning, requesting, dialing, at_pass, in_read, read_failed, over, Progress,
  Event, pinged, dialled, entered, requested, tested, arrived, broke, explained, begun, pinged_in,
  dialled_in, entered_in, requested_in, tested_in, answered_in, arrived_in, explained_in, step_at,
  step, continue, run,
}
use minecraft_afk_bot.Bot.Session.Steps.Course.{Course, env_of, number, spoof_logs}
use minecraft_afk_bot.Bot.Session.Steps.Refines.{run-Stands}
use minecraft_afk_bot.Gophertunnel.{Packet, Constants}
use minecraft_afk_bot.Liveness
use minecraft_afk_bot.Liveness.{Respawner, Writer, Handled, handle}
use minecraft_afk_bot.Logging.{severity_info, text, int}
use minecraft_afk_bot.Mcproto.{Protocol}
use minecraft_afk_bot.Prelude.Int.{ℤ, pos}
use minecraft_afk_bot.Prelude.Strings.{codes}
use minecraft_afk_bot.Prelude.{
  Text, ℕ, Bool, true, false, List, [], ◌∷◌, ◌++◌, map, Option, none, some, ◌≡◌, refl, sym, ◌∙◌,
  append-nil, append_assoc, Bool-cases, inl, inr, if◌then◌else◌, subst, ◌↔◌,
}

module _ {Position Schema : Type 0} (k : Constants) (v : ℕ) (baked : Protocol Schema) where
  abbrev at : Stage → List (Action Position) → Progress Position
  at stage actions = record { stage = stage; actions = actions; is_cut = false }

  -- Some run comes there.
  abbrev pub Reaches : Progress Position → Progress Position → Type 0
  Reaches s t = (moves : List (Bool × Event Position)) × (run k v baked moves s ≡ some t)

  Reaches-step :
      (done : Bool) (event : Event Position) (s u t : Progress Position)
      → step k v baked done event s ≡ some u
      → Reaches u t
      → Reaches s t
  unfolding run continue
  Reaches-step done event s u t moved (moves, rest) = ((done, event) ∷ moves, rw moved rest)

  Reaches-refl : (s : Progress Position) → Reaches s s
  unfolding run
  Reaches-refl s = ([], refl)

  -- The actions of what follows, the deferred close behind them.
  abbrev Covered : Stage → List (Action Position) → List (Action Position) × Outcome → Type 0
  Covered stage before (actions, returned err) =
      Reaches (at stage before) (at (over err) (before ++ (actions ++ leave)))
  Covered stage before (actions, reading) = Unit

  Covered-step :
      (done : Bool) (event : Event Position) (stage stage' : Stage)
      (before extra : List (Action Position)) (o : List (Action Position) × Outcome)
      → step k v baked done event (at stage before) ≡ some (at stage' (before ++ extra))
      → Covered stage' (before ++ extra) o
      → Covered stage before (extra ++ o.0, o.1)
  Covered-step done event stage stage' before extra (actions, reading) e h = tt
  Covered-step done event stage stage' before extra (actions, returned err) e h =
      Reaches-step done event (at stage before) (at stage' (before ++ extra))
        (at (over err) (before ++ ((extra ++ actions) ++ leave))) e
        (rw (append_assoc extra actions leave, sym (append_assoc before extra (actions ++ leave)))
          h)

  Covered-over :
      (done : Bool) (event : Event Position) (stage : Stage)
      (before actions : List (Action Position)) (err : Option Text)
      → step k v baked done event (at stage before)
        ≡ some (at (over err) (before ++ (actions ++ leave)))
      → Covered stage before (actions, returned err)
  Covered-over done event stage before actions err e =
      let t = at (over err) (before ++ (actions ++ leave)) in
      Reaches-step done event (at stage before) t t e (Reaches-refl t)

  answered-Covered :
      (r : Respawner) (pk : Packet Position) (w : Writer Position) (before : List (Action Position))
      (o : Option Text) (rest : List (Action Position) × Outcome)
      → (respond v w (handle k r pk w)).1 ≡ o
      → ((before' : List (Action Position))
          → Covered (at_pass (handle k r pk w).after) before' rest)
      → Covered (in_read r) before (
        map write (handle k r pk w).wrote
            ++ ((respond v w (handle k r pk w)).0 ++ (after_radius o (log_radius pk) rest).0),
        (after_radius o (log_radius pk) rest).1,
      )
  unfolding step step_at arrived_in answered_in
  answered-Covered r pk w before none rest e h =
      let hd = handle k r pk w in
      let answers = map write hd.wrote ++ (respond v w hd).0 in
      let extra = answers ++ log_radius pk in
      subst (λ l. Covered (in_read r) before (l, rest.1))
        (append_assoc answers (log_radius pk) rest.0
          ∙ append_assoc (map write hd.wrote) (respond v w hd).0 (log_radius pk ++ rest.0))
        (Covered-step false (arrived pk w) (in_read r) (at_pass hd.after) before extra rest
          (rw e refl) (h (before ++ extra)))
  answered-Covered r pk w before (some err) rest e h =
      let hd = handle k r pk w in
      rw (append-nil (respond v w hd).0) (
        Covered-over false (arrived pk w) (in_read r) before
          (map write hd.wrote ++ (respond v w hd).0)
          (some (codes "request chunk radius after respawn: " ++ err)) (rw e refl))

  read-Covered :
      (r : Respawner) (read : Read Position) (done : Bool) (w : Writer Position)
      (before : List (Action Position)) (next : Respawner → List (Action Position) × Outcome)
      → ((r' : Respawner) (before' : List (Action Position))
          → Covered (at_pass r') before' (next r'))
      → Covered (in_read r) before (on_read k v r done w next read)
  unfolding on_read step step_at explained_in
  read-Covered r (packet pk) done w before next h =
      let hd = handle k r pk w in
      answered-Covered r pk w before (respond v w hd).1 (next hd.after) refl (h hd.after)
  read-Covered r (failed err) done w before next h =
      Reaches-step false (broke err) (at (in_read r) before) (at (read_failed err) before)
        (at (over (if done then none else some (codes "read: " ++ err))) (before ++ leave))
        (rw (append-nil before) refl)
        (Covered-over done explained (read_failed err) before []
          (if done then none else some (codes "read: " ++ err)) refl)

  read_loop-Covered :
      (passes : List (Pass Position)) (r : Respawner) (before : List (Action Position))
      → Covered (at_pass r) before (read_loop k v r passes)
  unfolding read_loop step step_at tested_in
  read_loop-Covered [] r before = tt
  read_loop-Covered (p ∷ passes) r before = elim (Bool-cases p.done_before) [
    | inl e ↦ rw e (Covered-over true tested (at_pass r) before [] none refl)
    | inr e ↦
        let next = λ (r' : Respawner). read_loop k v r' passes in
        let o = on_read k v r p.done_after p.writer next p.read in
        rw e (
          Covered-step false tested (at_pass r) (in_read r) before [] o refl (
            rw (append-nil before) (
              read-Covered r p.read p.done_after p.writer before next
                (λ r' before'. read_loop-Covered passes r' before'))))
  ]

  after_request-Covered :
      (o : Option Text) (id : ℕ) (before : List (Action Position))
      (rest : List (Action Position) × Outcome)
      → ((before' : List (Action Position)) → Covered (at_pass (Liveness.new id)) before' rest)
      → Covered requesting before (after_request v o rest)
  unfolding after_request step step_at requested_in
  after_request-Covered none id before rest h =
      let extra = write (radius_request v) ∷ [] in
      Covered-step false (requested none id) requesting (at_pass (Liveness.new id)) before extra
        rest refl (h (before ++ extra))
  after_request-Covered (some err) id before rest h =
      Covered-over false (requested (some err) id) requesting before (write (radius_request v) ∷ [])
        (some (codes "request chunk radius: " ++ err)) refl

  after_spawn-Covered :
      (o : Option Text) (xuid : Text) (before : List (Action Position))
      (rest : List (Action Position) × Outcome)
      → ((before' : List (Action Position)) → Covered requesting before' rest)
      → Covered spawning before (after_spawn xuid v o rest)
  unfolding after_spawn step step_at entered_in
  after_spawn-Covered none xuid before rest h =
      let fields = (codes "xuid", text xuid) ∷ (codes "view_distance", int (pos v)) ∷ [] in
      let extra = do_spawn ∷ log severity_info (codes "spawned") fields ∷ spawned ∷ [] in
      Covered-step false (entered none xuid) spawning requesting before extra rest refl
        (h (before ++ extra))
  after_spawn-Covered (some err) xuid before rest h =
      Covered-over false (entered (some err) xuid) spawning before (do_spawn ∷ [])
        (some (codes "spawn: " ++ err)) refl

  -- From the dial on, the close among the actions.
  abbrev Whole : Stage → List (Action Position) → List (Action Position) × Outcome → Type 0
  Whole stage before (actions, returned err) =
      Reaches (at stage before) (at (over err) (before ++ actions))
  Whole stage before (actions, reading) = Unit

  dialled-Whole :
      (id : ℤ) (before : List (Action Position)) (o : List (Action Position) × Outcome)
      → Covered spawning (before ++ dial id true ∷ watch ∷ []) o
      → Whole (dialing id) before (dial id true ∷ watch ∷ (o.0 ++ closing o.1), o.1)
  unfolding step step_at dialled_in
  dialled-Whole id before (actions, reading) h = tt
  dialled-Whole id before (actions, returned err) h =
      Reaches-step false (dialled none) (at (dialing id) before)
        (at spawning (before ++ dial id true ∷ watch ∷ []))
        (at (over err) (before ++ (dial id true ∷ watch ∷ (actions ++ leave)))) refl
        (rw (sym (append_assoc before (dial id true ∷ watch ∷ []) (actions ++ leave))) h)

  after_dial-Whole :
      (o : Option Text) (id : ℤ) (before : List (Action Position))
      (rest : List (Action Position) × Outcome)
      → Covered spawning (before ++ dial id true ∷ watch ∷ []) rest
      → Whole (dialing id) before (after_dial id o rest)
  unfolding after_dial step step_at dialled_in
  after_dial-Whole none id before rest h = dialled-Whole id before rest h
  after_dial-Whole (some err) id before rest h =
      let t = at (over (some (codes "dial: " ++ err))) (before ++ dial id false ∷ []) in
      Reaches-step false (dialled (some err)) (at (dialing id) before) t t refl (Reaches-refl t)

  pinged-Whole :
      (pong : Option Text) (o : List (Action Position) × Outcome)
      → Whole (dialing (number baked pong)) (spoof_logs baked pong) o
      → Whole pinging [] (spoof_logs baked pong ++ o.0, o.1)
  unfolding step step_at pinged_in
  pinged-Whole pong (actions, reading) h = tt
  pinged-Whole pong (actions, returned err) h =
      Reaches-step false (pinged pong) begun
        (at (dialing (number baked pong)) (spoof_logs baked pong))
        (at (over err) (spoof_logs baked pong ++ actions)) refl h

  session-Whole : (c : Course Position) → Whole pinging [] (session k (env_of k v baked c))
  unfolding session
  session-Whole c =
      let served = read_loop k v (Liveness.new c.runtime_id) c.passes in
      let requested = after_request v (c.writer (radius_request v)) served in
      let inside = after_spawn c.xuid v c.spawn_error requested in
      let id = number baked c.pong in
      pinged-Whole c.pong (after_dial id c.dial_error inside) (
        after_dial-Whole c.dial_error id (spoof_logs baked c.pong) inside (
          after_spawn-Covered c.spawn_error c.xuid
            (spoof_logs baked c.pong ++ dial id true ∷ watch ∷ []) requested
            (λ b.
              after_request-Covered (c.writer (radius_request v)) c.runtime_id b served
                (λ b'. read_loop-Covered c.passes (Liveness.new c.runtime_id) b'))))

-- A session in steps, between which other threads run, can return an error (or none) with some
-- actions, with or without the close by `context.AfterFunc`, exactly when `session` returns it with
-- them for some course of the network.
pub run-session :
    {Position Schema : Type 0} (k : Constants) (v : ℕ) (baked : Protocol Schema)
    (actions : List (Action Position)) (err : Option Text)
    → ((is_cut : Bool) × Reaches k v baked begun
          (record { stage = over err; actions = actions; is_cut = is_cut }))
      ↔ ((c : Course Position) × (session k (env_of k v baked c) ≡ (actions, returned err)))
run-session k v baked actions err = (
  λ (is_cut, reached).
      run-Stands k v baked reached.0 begun
        (record { stage = over err; actions = actions; is_cut = is_cut }) reached.1 refl,
  λ (c, e). (false, subst (Whole k v baked pinging []) e (session-Whole k v baked c)),
)
