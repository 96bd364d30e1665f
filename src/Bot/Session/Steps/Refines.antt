-- ===== src/Bot/Session/Steps/Refines.antt =====
-- A session in steps does what `session` does.
use minecraft_afk_bot.Bot.Session.Steps.Course.{
  Course, number, spoof_logs, entry_actions, Reading, Stands, Of,
}
use minecraft_afk_bot.Bot.Session.{
  Action, dial, watch, write, leave, log_radius, radius_request, respond, Pass, Read, packet,
  failed, returned, closing, after_radius, on_read, read_loop, after_request, after_spawn,
  after_dial, session,
}
use minecraft_afk_bot.Bot.Session.Steps.{
  Stage, pinging, spawning, requesting, dialing, at_pass, in_read, read_failed, over, Progress,
  Event, pinged, dialled, entered, requested, tested, arrived, broke, cancelled, interrupted,
  explained, cancelled_in, interrupted_in, then_at, pinged_in, dialled_in, entered_in, requested_in,
  tested_in, answered_in, arrived_in, explained_in, step_at, step, continue, run,
}
use minecraft_afk_bot.Gophertunnel.{Packet, Constants}
use minecraft_afk_bot.Liveness
use minecraft_afk_bot.Liveness.{Respawner, Writer, Handled, handle}
use minecraft_afk_bot.Mcproto.{Protocol}
use minecraft_afk_bot.Prelude.Int.{ℤ}
use minecraft_afk_bot.Prelude.Strings.{codes}
use minecraft_afk_bot.Prelude.{
  Text, ℕ, Bool, true, false, List, [], ◌∷◌, ◌++◌, map, Option, none, some, ◌≡◌, refl, ◌∙◌,
  append-nil, append_assoc, ◌&&◌, not, Bool-cases, inl, inr, if◌then◌else◌, subst, some-injective,
}

module _ {Position Schema : Type 0} (k : Constants) (v : ℕ) (baked : Protocol Schema) where
  abbrev fresh : Option Text → Course Position
  fresh pong = record {
    pong = pong;
    dial_error = none;
    spawn_error = none;
    xuid = [];
    runtime_id = 0;
    writer = λ pk. none;
    passes = [];
  }

  dialled_in-Stands :
      (id : ℤ) (o : Option Text) (s : Progress Position)
      → Stands k v baked (dialing id) s.actions
      → Of k v baked (dialled_in id o s)
  unfolding dialled_in session after_dial
  dialled_in-Stands id none s (pong, e, h) = (pong, rw (e, h) refl)
  dialled_in-Stands id (some err) s (pong, e, h) =
      (record (fresh pong) { dial_error = some err }, rw (e, h) refl)

  entered_in-Stands :
      (o : Option Text) (xuid : Text) (s : Progress Position)
      → Stands k v baked spawning s.actions
      → Of k v baked (entered_in v o xuid s)
  unfolding entered_in session after_dial after_spawn
  entered_in-Stands none xuid s (pong, h) = (
    pong,
    xuid,
    rw (h, append_assoc (spoof_logs baked pong) (dial (number baked pong) true ∷ watch ∷ [])) refl,
  )
  entered_in-Stands (some err) xuid s (pong, h) = (
    record (fresh pong) { spawn_error = some err },
    rw (h, append_assoc (spoof_logs baked pong) (dial (number baked pong) true ∷ watch ∷ [])) refl,
  )

  requested_in-Stands :
      (o : Option Text) (id : ℕ) (s : Progress Position)
      → Stands k v baked requesting s.actions
      → Of k v baked (requested_in v o id s)
  unfolding requested_in session after_dial after_spawn after_request
  requested_in-Stands none id s (pong, xuid, h) = record {
    course = record (fresh pong) { xuid = xuid; runtime_id = id };
    goes_on = λ rest.
        let served = read_loop k v (Liveness.new id) rest in
        let before = spoof_logs baked pong in
        let entry = entry_actions v baked pong xuid in
        rw
          (
            h,
            append_assoc before entry,
            append_assoc before (entry ++ write (radius_request v) ∷ [])
                (served.0 ++ closing served.1),
          )
          refl;
  }
  requested_in-Stands (some err) id s (pong, xuid, h) = (
    record (fresh pong) { xuid = xuid; writer = λ pk. some err },
    rw (h, append_assoc (spoof_logs baked pong) (entry_actions v baked pong xuid)) refl,
  )

  Reading-over :
      (r : Respawner) (s : Progress Position) (rest : List (Pass Position))
      (actions : List (Action Position)) (err : Option Text)
      → read_loop k v r rest ≡ (actions, returned err)
      → Reading k v baked r s.actions
      → Of k v baked (then_at s (actions ++ leave) (over err))
  Reading-over r s rest actions err e h =
      (record h.course { passes = h.course.passes ++ rest }, h.goes_on rest ∙ rw e refl)

  Reading-next :
      (r r' : Respawner) (s : Progress Position) (p : Pass Position)
      (actions : List (Action Position))
      → ((rest : List (Pass Position))
          → read_loop k v r (p ∷ rest)
            ≡ (actions ++ (read_loop k v r' rest).0, (read_loop k v r' rest).1))
      → Reading k v baked r s.actions
      → Reading k v baked r' (s.actions ++ actions)
  Reading-next r r' s p actions e h = record {
    course = record h.course { passes = h.course.passes ++ p ∷ [] };
    goes_on = λ rest. rw (append_assoc h.course.passes (p ∷ []) rest) (
        h.goes_on (p ∷ rest)
        ∙ (let served = read_loop k v r' rest in
            rw
              (
                e rest,
                append_assoc s.actions actions (served.0 ++ closing served.1),
                append_assoc actions served.0 (closing served.1),
              )
              refl));
  }

  abbrev pass_of : Bool → Read Position → Bool → Writer Position → Pass Position
  pass_of before read after writer = record {
    done_before = before;
    read = read;
    done_after = after;
    writer = writer;
  }

  tested_in-Stands :
      (done : Bool) (r : Respawner) (s : Progress Position)
      → Reading k v baked r s.actions
      → Of k v baked (tested_in done r s)
  unfolding tested_in read_loop
  tested_in-Stands true r s h =
      Reading-over r s (pass_of true (failed []) false (λ pk. none) ∷ []) [] none refl h
  tested_in-Stands false r s h = rw (append-nil s.actions) h

  explained_in-Stands :
      (done : Bool) (err : Text) (r : Respawner) (s : Progress Position)
      → Reading k v baked r s.actions
      → Of k v baked (explained_in done err s)
  unfolding explained_in read_loop on_read
  explained_in-Stands done err r s h =
      Reading-over r s (pass_of false (failed err) done (λ pk. none) ∷ []) []
        (if done then none else some (codes "read: " ++ err)) refl h

  -- Behind the answer to a packet, given what the pass of the loop then does.
  answered_in-Stands :
      (pk : Packet Position) (writer : Writer Position) (r r' : Respawner)
      (answers granted : List (Action Position)) (o : Option Text) (s : Progress Position)
      → ((rest : List (Pass Position))
          → read_loop k v r (pass_of false (packet pk) false writer ∷ rest) ≡ (
            answers ++ (after_radius o granted (read_loop k v r' rest)).0,
            (after_radius o granted (read_loop k v r' rest)).1,
          ))
      → Reading k v baked r s.actions
      → Of k v baked (answered_in r' answers granted o s)
  unfolding answered_in
  answered_in-Stands pk writer r r' answers granted none s e h =
      Reading-next r r' s (pass_of false (packet pk) false writer) (answers ++ granted)
        (λ rest. e rest ∙ rw (append_assoc answers granted (read_loop k v r' rest).0) refl) h
  answered_in-Stands pk writer r r' answers granted (some err) s e h =
      Reading-over r s (pass_of false (packet pk) false writer ∷ []) answers
        (some (codes "request chunk radius after respawn: " ++ err))
        (e [] ∙ rw (append-nil answers) refl) h

  arrived_in-Stands :
      (pk : Packet Position) (writer : Writer Position) (r : Respawner) (s : Progress Position)
      → Reading k v baked r s.actions
      → Of k v baked (arrived_in k v r pk writer s)
  unfolding arrived_in read_loop on_read
  arrived_in-Stands pk writer r s h =
      let hd = handle k r pk writer in
      let (answer, err) = respond v writer hd in
      answered_in-Stands pk writer r hd.after (map write hd.wrote ++ answer) (log_radius pk) err s
        (λ rest. rw (append_assoc (map write hd.wrote) answer) refl) h

  continue-some :
      (o : Option (Progress Position)) (rest : Progress Position → Option (Progress Position))
      (t : Progress Position)
      → continue o rest ≡ some t
      → (s : Progress Position) × (o ≡ some s) × (rest s ≡ some t)
  unfolding continue
  continue-some none rest t e = cc
  continue-some (some s) rest t e = (s, refl, e)

  abbrev pub Ensured : Option (Progress Position) → Type 0
  Ensured none = Unit
  Ensured (some s) = Of k v baked s

  -- The close by `AfterFunc` is no action of the session.
  cancelled_in-Stands :
      (done : Bool) (stage : Stage) (s : Progress Position)
      → Stands k v baked stage s.actions
      → Ensured (cancelled_in done stage s)
  unfolding cancelled_in
  cancelled_in-Stands done stage s h = elim (Bool-cases (done && not s.is_cut)) [
    | inl e ↦ rw e h
    | inr e ↦ rw e tt
  ]

  interrupted_in-Stands :
      (r : Respawner) (err : Text) (s : Progress Position)
      → Reading k v baked r s.actions
      → Ensured (interrupted_in err s)
  unfolding interrupted_in
  interrupted_in-Stands r err s h = elim (Bool-cases s.is_cut) [
    | inl e ↦ rw e (r, rw (append-nil s.actions) h)
    | inr e ↦ rw e tt
  ]

  pub step_at-Stands :
      (done : Bool) (stage : Stage) (event : Event Position) (s : Progress Position)
      → Stands k v baked stage s.actions
      → Ensured (step_at k v baked done stage event s)
  unfolding step_at pinged_in entered_in dialled_in
  step_at-Stands done pinging (pinged pong) s h = (pong, refl, rw h refl)
  step_at-Stands done (dialing id) (dialled o) s h = dialled_in-Stands id o s h
  step_at-Stands done spawning (entered o xuid) s h = entered_in-Stands o xuid s h
  step_at-Stands done requesting (requested o id) s h = requested_in-Stands o id s h
  step_at-Stands done (at_pass r) tested s h = tested_in-Stands done r s h
  step_at-Stands done (in_read r) (arrived pk writer) s h = arrived_in-Stands pk writer r s h
  step_at-Stands done (in_read r) (broke err) s h = (r, rw (append-nil s.actions) h)
  step_at-Stands done (read_failed err) explained s (r, h) = explained_in-Stands done err r s h
  step_at-Stands done (in_read r) (interrupted err) s h = interrupted_in-Stands r err s h
  step_at-Stands done spawning cancelled s h = cancelled_in-Stands done spawning s h
  step_at-Stands done requesting cancelled s h = cancelled_in-Stands done requesting s h
  step_at-Stands done (at_pass r) cancelled s h = cancelled_in-Stands done (at_pass r) s h
  step_at-Stands done (in_read r) cancelled s h = cancelled_in-Stands done (in_read r) s h
  step_at-Stands done (read_failed err) cancelled s h =
      cancelled_in-Stands done (read_failed err) s h
  step_at-Stands done stage event s h = tt

  -- Every run stands somewhere.
  pub run-Stands :
      (moves : List (Bool × Event Position)) (s t : Progress Position)
      → run k v baked moves s ≡ some t
      → Of k v baked s
      → Of k v baked t
  unfolding run continue step
  run-Stands [] s t e h = subst (Of k v baked) (some-injective s t e) h
  run-Stands ((done, event) ∷ moves) s t e h =
      let (u, moved, rest) =
        continue-some (step k v baked done event s) (run k v baked moves) t e in
      run-Stands moves u t rest (subst Ensured moved (step_at-Stands done s.stage event s h))
