-- ===== src/Bot/Session.antt =====
-- `session` of cmd/bot/main.go: one connection, from the ping to its end. What the network and the
-- context do is an `Env`; what the session does is a list of actions.
pub mod Writes
pub mod Link
pub mod Ends
pub mod Result
pub mod Steps
use minecraft_afk_bot.Gophertunnel.{Packet, request_chunk_radius, chunk_radius_updated, Constants}
use minecraft_afk_bot.Liveness
use minecraft_afk_bot.Liveness.{Respawner, Writer, Handled, dead, handle}
use minecraft_afk_bot.Logging.{
  Severity, severity_info, severity_warn, severity_error, Fields, text, int, flag,
}
use minecraft_afk_bot.Mcproto.{Advertisement, Protocol, negotiate}
use minecraft_afk_bot.Prelude.Int.{ℤ, pos}
use minecraft_afk_bot.Prelude.Strings.{codes}
use minecraft_afk_bot.Prelude.{
  Text, ℕ, Bool, true, false, List, [], ◌∷◌, ◌++◌, map, Option, none, some, if◌then◌else◌,
}

pub data Action (Position : Type 0) : Type 0 where
  log : Severity → Text → Fields → Action Position
  -- `DialContext`, with the protocol number that is announced, and whether it connected
  dial : ℤ → Bool → Action Position
  -- `DoSpawnContext`
  do_spawn : Action Position
  -- the callback of the connect loop
  spawned : Action Position
  write : Packet Position → Action Position
  -- `context.AfterFunc` sets up a close of the connection for the end of the context
  watch : Action Position
  -- that close, which a goroutine of its own makes and no line of the session
  cut : Action Position
  -- the deferred `stop`, which calls it off
  unwatch : Action Position
  -- the deferred `conn.Close`
  close : Action Position

-- How `ReadPacket` ends.
pub data Read (Position : Type 0) : Type 0 where
  packet : Packet Position → Read Position
  failed : Text → Read Position

-- One pass of the read loop.
pub record Pass (Position : Type 0) : Type 0 where
  -- `ctx.Err() != nil` at the head of the pass
  pub done_before : Bool
  pub read : Read Position
  -- `ctx.Err() != nil` after a failed read
  pub done_after : Bool
  pub writer : Writer Position

pub record Env (Position Schema : Type 0) : Type 0 where
  pub view_distance : ℕ
  -- what the ping brings
  pub pong : Option Text
  pub baked : Protocol Schema
  pub dial_error : Option Text
  pub spawn_error : Option Text
  pub xuid : Text
  pub runtime_id : ℕ
  -- the connection before the read loop
  pub writer : Writer Position
  pub passes : List (Pass Position)

-- A session that has returned its error, or one that has used up the passes that it was given.
pub data Outcome : Type 0 where
  returned : Option Text → Outcome
  reading : Outcome

module _ {Position : Type 0} where
  -- The deferred calls behind the dial, the last deferred first.
  abbrev pub leave : List (Action Position)
  leave = unwatch ∷ close ∷ []

  -- The request for chunks; the radius is an int32 and a uint8 of the same value.
  abbrev pub radius_request : ℕ → Packet Position
  radius_request view_distance = request_chunk_radius view_distance view_distance

  -- What follows a handled packet: the log, the request after a respawn, and its error.
  unfoldable pub respond :
      ℕ → Writer Position → Handled Position → List (Action Position) × Option Text
  unfolding dead
  respond view_distance writer h =
      let radius = radius_request view_distance in
      elim h.err [
        | some e ↦
            (log severity_error (codes "respawn_failed") ((codes "error", text e) ∷ []) ∷ [], none)
        | none ↦
            if h.handled
            then if dead h.after
              then (
                log severity_info (codes "died") ((codes "requesting_respawn", flag true) ∷ [])
                    ∷ [],
                none,
              )
              else (log severity_info (codes "respawned") [] ∷ write radius ∷ [], writer radius)
            else ([], none)
      ]

  -- The log of the server's answer to a radius request.
  unfoldable pub log_radius : Packet Position → List (Action Position)
  log_radius (chunk_radius_updated radius) =
      log severity_info (codes "chunk_radius_granted") ((codes "radius", int (pos radius)) ∷ [])
      ∷ []
  log_radius _ = []

  abbrev pub after_radius :
      Option Text
      → List (Action Position)
      → List (Action Position) × Outcome
      → List (Action Position) × Outcome
  after_radius none granted rest = (granted ++ rest.0, rest.1)
  after_radius (some e) granted rest =
      ([], returned (some (codes "request chunk radius after respawn: " ++ e)))

  -- A pass from `ReadPacket` on; `next` is the rest of the loop, from the respawner that it finds.
  unfoldable pub on_read :
      Constants
      → ℕ
      → Respawner
      → Bool
      → Writer Position
      → (Respawner → List (Action Position) × Outcome)
      → Read Position
      → List (Action Position) × Outcome
  on_read k view_distance r done_after writer next (failed e) =
      ([], returned (if done_after then none else some (codes "read: " ++ e)))
  on_read k view_distance r done_after writer next (packet pk) =
      let h = handle k r pk writer in
      let (answer, failure) = respond view_distance writer h in
      let (more, outcome) = after_radius failure (log_radius pk) (next h.after) in
      (map write h.wrote ++ (answer ++ more), outcome)

  -- The read loop. Behind the close that `watch` has set up, a read fails.
  unfoldable pub read_loop :
      Constants → ℕ → Respawner → List (Pass Position) → List (Action Position) × Outcome
  read_loop k view_distance r [] = ([], reading)
  read_loop k view_distance r (p ∷ passes) =
      let next = λ (r' : Respawner). read_loop k view_distance r' passes in
      if p.done_before
      then ([], returned none)
      else on_read k view_distance r p.done_after p.writer next p.read

  abbrev pub log_spoof : ℤ → Advertisement → Action Position
  log_spoof compiled ad = log severity_warn (codes "protocol_spoofed") (
      (codes "compiled_protocol", int compiled)
      ∷ (codes "advertised_protocol", int ad.protocol)
      ∷ (codes "server_version", text ad.version)
      ∷ [])

  -- The deferred calls, once the function returns.
  abbrev pub closing : Outcome → List (Action Position)
  closing (returned e) = leave
  closing reading = []

  -- Behind the first request for chunks, whose write ended so.
  unfoldable pub after_request :
      ℕ → Option Text → List (Action Position) × Outcome → List (Action Position) × Outcome
  after_request view_distance (some err) rest = (
    write (radius_request view_distance) ∷ [],
    returned (some (codes "request chunk radius: " ++ err)),
  )
  after_request view_distance none rest = (write (radius_request view_distance) ∷ rest.0, rest.1)

  -- Behind `DoSpawnContext`, which ended so.
  unfoldable pub after_spawn :
      Text → ℕ → Option Text → List (Action Position) × Outcome → List (Action Position) × Outcome
  after_spawn xuid view_distance (some err) rest =
      (do_spawn ∷ [], returned (some (codes "spawn: " ++ err)))
  after_spawn xuid view_distance none rest =
      let fields =
        (codes "xuid", text xuid) ∷ (codes "view_distance", int (pos view_distance)) ∷ [] in
      (do_spawn ∷ log severity_info (codes "spawned") fields ∷ spawned ∷ rest.0, rest.1)

  -- Behind `DialContext`, which ended so; only a connection is watched, and closed.
  unfoldable pub after_dial :
      ℤ → Option Text → List (Action Position) × Outcome → List (Action Position) × Outcome
  after_dial id (some err) rest = (dial id false ∷ [], returned (some (codes "dial: " ++ err)))
  after_dial id none rest = (dial id true ∷ watch ∷ (rest.0 ++ closing rest.1), rest.1)

module _ {Position Schema : Type 0} where
  unfoldable pub session : Constants → Env Position Schema → List (Action Position) × Outcome
  unfolding after_request after_spawn after_dial
  session k e =
      let (proto, spoofs) = negotiate e.pong e.baked true in
      let served = read_loop k e.view_distance (Liveness.new e.runtime_id) e.passes in
      let requested =
        after_request e.view_distance (e.writer (radius_request e.view_distance)) served in
      let entered = after_spawn e.xuid e.view_distance e.spawn_error requested in
      let (actions, outcome) = after_dial proto.id e.dial_error entered in
      (map (log_spoof e.baked.id) spoofs ++ actions, outcome)
