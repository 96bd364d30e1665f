-- ===== src/Bot/Session/Steps.antt =====
-- `session` of cmd/bot/main.go in steps, between which other threads run: each step is what it does
-- from the end of one call that waits (the ping, the dial, the spawn, the first request, a read), or
-- from a test of its context, to the next. The writes that answer a packet are in the packet's step.
-- One step is not the session's own: the close that `context.AfterFunc` makes of its connection.
pub mod Course
pub mod Refines
pub mod Covers
pub mod Calls
pub mod Bounds
use minecraft_afk_bot.Bot.Session.{
  Action, dial, watch, do_spawn, spawned, write, leave, log, log_spoof, log_radius, radius_request,
  respond,
}
use minecraft_afk_bot.Gophertunnel.{Packet, Constants}
use minecraft_afk_bot.Liveness
use minecraft_afk_bot.Liveness.{Respawner, Writer, Handled, handle}
use minecraft_afk_bot.Logging.{severity_info, text, int}
use minecraft_afk_bot.Mcproto.{Protocol, negotiate}
use minecraft_afk_bot.Prelude.Int.{ℤ, pos}
use minecraft_afk_bot.Prelude.Strings.{codes}
use minecraft_afk_bot.Prelude.{
  Text, ℕ, Bool, true, false, List, [], ◌∷◌, ◌++◌, map, Option, none, some, if◌then◌else◌, ◌&&◌,
  not,
}

-- Where the session stands: before the ping, before the dial with the number that it announces,
-- before the spawn, before the first request, at the head of its read loop, in `ReadPacket`, behind a
-- read that failed, or returned with its error.
pub data Stage : Type 0 where
  pinging spawning requesting : Stage
  dialing : ℤ → Stage
  at_pass in_read : Respawner → Stage
  read_failed : Text → Stage
  over : Option Text → Stage

pub record Progress (Position : Type 0) : Type 0 where
  pub stage : Stage
  pub actions : List (Action Position)
  -- the function given to `context.AfterFunc` has closed the connection
  pub is_cut : Bool

-- How a call ends, with what the connection gives.
pub data Event (Position : Type 0) : Type 0 where
  pinged : Option Text → Event Position
  dialled : Option Text → Event Position
  -- with the player's XUID
  entered : Option Text → Text → Event Position
  -- with the player's runtime id
  requested : Option Text → ℕ → Event Position
  -- the test at the head of the read loop
  tested : Event Position
  arrived : Packet Position → Writer Position → Event Position
  broke : Text → Event Position
  -- the close by `context.AfterFunc`, in its own goroutine
  cancelled : Event Position
  -- `ReadPacket` returns because of that close
  interrupted : Text → Event Position
  -- the test behind a read that failed
  explained : Event Position

abbrev pub begun : {Position : Type 0} → Progress Position
begun = record { stage = pinging; actions = []; is_cut = false }

module _ {Position : Type 0} where
  -- More actions, and the next stage.
  abbrev pub then_at : Progress Position → List (Action Position) → Stage → Progress Position
  then_at s actions stage = record s { stage = stage; actions = s.actions ++ actions }

  -- The return with an error, and the deferred calls.
  abbrev pub failed_at : Progress Position → List (Action Position) → Text → Progress Position
  failed_at s actions message = then_at s (actions ++ leave) (over (some message))

  -- `Negotiate`, behind its ping.
  unfoldable pub pinged_in :
      {Schema : Type 0} → Protocol Schema → Option Text → Progress Position → Progress Position
  pinged_in baked pong s =
      let (proto, spoofs) = negotiate pong baked true in
      then_at s (map (log_spoof baked.id) spoofs) (dialing proto.id)

  -- From `DialContext`, which ended so.
  unfoldable pub dialled_in : ℤ → Option Text → Progress Position → Progress Position
  dialled_in id (some err) s = then_at s (dial id false ∷ []) (over (some (codes "dial: " ++ err)))
  dialled_in id none s = then_at s (dial id true ∷ watch ∷ []) spawning

  -- From `DoSpawnContext`; a spawn that succeeded is logged, and calls back.
  unfoldable pub entered_in : ℕ → Option Text → Text → Progress Position → Progress Position
  entered_in view_distance (some err) xuid s = failed_at s (do_spawn ∷ []) (codes "spawn: " ++ err)
  entered_in view_distance none xuid s =
      let fields =
        (codes "xuid", text xuid) ∷ (codes "view_distance", int (pos view_distance)) ∷ [] in
      then_at s (do_spawn ∷ log severity_info (codes "spawned") fields ∷ spawned ∷ []) requesting

  -- From the first request for chunks.
  unfoldable pub requested_in : ℕ → Option Text → ℕ → Progress Position → Progress Position
  requested_in view_distance (some err) runtime_id s =
      failed_at s (write (radius_request view_distance) ∷ [])
        (codes "request chunk radius: " ++ err)
  requested_in view_distance none runtime_id s =
      then_at s (write (radius_request view_distance) ∷ []) (at_pass (Liveness.new runtime_id))

  -- The head of the read loop.
  unfoldable pub tested_in : Bool → Respawner → Progress Position → Progress Position
  tested_in done r s = if done then then_at s leave (over none) else then_at s [] (in_read r)

  -- Behind the answer to a packet, which ended so.
  unfoldable pub answered_in :
      Respawner
      → List (Action Position)
      → List (Action Position)
      → Option Text
      → Progress Position
      → Progress Position
  answered_in r answers granted none s = then_at s (answers ++ granted) (at_pass r)
  answered_in r answers granted (some err) s =
      failed_at s answers (codes "request chunk radius after respawn: " ++ err)

  -- From a packet.
  unfoldable pub arrived_in :
      Constants
      → ℕ
      → Respawner
      → Packet Position
      → Writer Position
      → Progress Position
      → Progress Position
  arrived_in k view_distance r pk writer s =
      let h = handle k r pk writer in
      let (answer, err) = respond view_distance writer h in
      answered_in h.after (map write h.wrote ++ answer) (log_radius pk) err s

  -- The test behind a read that failed.
  unfoldable pub explained_in : Bool → Text → Progress Position → Progress Position
  explained_in done err s =
      then_at s leave (over (if done then none else some (codes "read: " ++ err)))

  -- The function given to `context.AfterFunc`, which runs once the context has ended, and once.
  unfoldable pub cancelled_in : Bool → Stage → Progress Position → Option (Progress Position)
  cancelled_in done stage s =
      if done && not s.is_cut then some (record s { stage = stage; is_cut = true }) else none

  -- A read of a connection that has been closed so.
  unfoldable pub interrupted_in : Text → Progress Position → Option (Progress Position)
  interrupted_in err s = if s.is_cut then some (then_at s [] (read_failed err)) else none

  -- One step from a stage, or `none` where it cannot be taken; `done` is `ctx.Err() != nil`.
  unfoldable pub step_at :
      {Schema : Type 0}
      → Constants
      → ℕ
      → Protocol Schema
      → Bool
      → Stage
      → Event Position
      → Progress Position
      → Option (Progress Position)
  unfolding pinged_in dialled_in entered_in requested_in tested_in answered_in arrived_in
      explained_in cancelled_in interrupted_in
  step_at k v baked done pinging (pinged pong) s = some (pinged_in baked pong s)
  step_at k v baked done (dialing id) (dialled err) s = some (dialled_in id err s)
  step_at k v baked done spawning (entered err xuid) s = some (entered_in v err xuid s)
  step_at k v baked done requesting (requested err id) s = some (requested_in v err id s)
  step_at k v baked done (at_pass r) tested s = some (tested_in done r s)
  step_at k v baked done (in_read r) (arrived pk writer) s = some (arrived_in k v r pk writer s)
  step_at k v baked done (in_read r) (broke err) s = some (then_at s [] (read_failed err))
  step_at k v baked done (read_failed err) explained s = some (explained_in done err s)
  step_at k v baked done (in_read r) (interrupted err) s = interrupted_in err s
  step_at k v baked done spawning cancelled s = cancelled_in done spawning s
  step_at k v baked done requesting cancelled s = cancelled_in done requesting s
  step_at k v baked done (at_pass r) cancelled s = cancelled_in done (at_pass r) s
  step_at k v baked done (in_read r) cancelled s = cancelled_in done (in_read r) s
  step_at k v baked done (read_failed err) cancelled s = cancelled_in done (read_failed err) s
  step_at k v baked done stage event s = none

  unfoldable pub step :
      {Schema : Type 0}
      → Constants
      → ℕ
      → Protocol Schema
      → Bool
      → Event Position
      → Progress Position
      → Option (Progress Position)
  unfolding step_at
  step k v baked done event s = step_at k v baked done s.stage event s

  unfoldable pub continue :
      Option (Progress Position)
      → (Progress Position → Option (Progress Position))
      → Option (Progress Position)
  continue none rest = none
  continue (some s) rest = rest s

  -- A run of steps, each with whether the context has ended.
  unfoldable pub run :
      {Schema : Type 0}
      → Constants
      → ℕ
      → Protocol Schema
      → List (Bool × Event Position)
      → Progress Position
      → Option (Progress Position)
  unfolding continue
  run k v baked [] s = some s
  run k v baked ((done, event) ∷ moves) s =
      continue (step k v baked done event s) (run k v baked moves)
