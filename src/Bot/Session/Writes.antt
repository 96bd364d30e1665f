-- ===== src/Bot/Session/Writes.antt =====
-- The packets that a session writes: radius requests and confirmed respawns.
use minecraft_afk_bot.Bot.Session.{
  Action, write, leave, Read, packet, failed, Pass, Env, Outcome, returned, reading, radius_request,
  respond, log_radius, on_read, read_loop, log_spoof, closing, after_request, after_spawn,
  after_dial, session,
}
use minecraft_afk_bot.Gophertunnel.{
  Packet, death_info, respawn, player_action, request_chunk_radius, chunk_radius_updated, Constants,
}
use minecraft_afk_bot.Liveness
use minecraft_afk_bot.Liveness.{Respawner, Writer, Handled, dead, handle}
use minecraft_afk_bot.Mcproto.{Advertisement, negotiate}
use minecraft_afk_bot.Prelude.Int.{ℤ}
use minecraft_afk_bot.Prelude.{
  Text, append-nil, ℕ, ◌+◌, Bool, true, false, List, [], ◌∷◌, ◌++◌, map, Option, none, some, ◌≡◌,
  refl, All, count, count-append, arith, Bool-cases, inl, inr,
}

module _ {Position : Type 0} where
  abbrev pub asks_radius : Action Position → Bool
  asks_radius (write (request_chunk_radius a b)) = true
  asks_radius _ = false

  abbrev pub confirms : Action Position → Bool
  confirms (write (respawn position state id)) = true
  confirms _ = false

  -- A connection whose writes succeed.
  abbrev pub Works : Writer Position → Type 0
  Works w = (pk : Packet Position) → w pk ≡ none

  -- One packet: as many radius requests as confirmations, and no failure.
  respond-counts :
      (k : Constants) (v : ℕ) (r : Respawner) (pk : Packet Position) (w : Writer Position)
      → Works w
      → let h = handle k r pk w in
        let (answer, failure) = respond v w h in
        (failure ≡ none)
        × (count asks_radius (map write h.wrote) ≡ 0)
        × (count confirms answer ≡ 0)
        × (count asks_radius answer ≡ count confirms (map write h.wrote))
  unfolding handle respond
  respond-counts k v r death_info w works =
      rw (works (player_action r.runtime_id k.player_action_respawn)) (refl, refl, refl, refl)
  respond-counts k v r (respawn position state id) w works = ground (
    arith,
    works (respawn position k.respawn_state_client_ready_to_spawn r.runtime_id),
    works (radius_request v),
  )
  respond-counts k v r _ w works = (refl, refl, refl, refl)

  log_radius-counts :
      (pk : Packet Position)
      → (count asks_radius (log_radius pk) ≡ 0) × (count confirms (log_radius pk) ≡ 0)
  unfolding log_radius
  log_radius-counts (chunk_radius_updated radius) = (refl, refl)
  log_radius-counts _ = (refl, refl)

  -- As many radius requests as confirmations.
  abbrev Balanced : List (Action Position) × Outcome → Type 0
  Balanced (actions, outcome) = count asks_radius actions ≡ count confirms actions

  count-append_twice :
      (f : Action Position → Bool) (a b c : List (Action Position))
      → count f (a ++ (b ++ c)) ≡ count f a + count f b + count f c
  count-append_twice f a b c = omega (arith, count-append f a (b ++ c), count-append f b c)

  on_read-Balanced :
      (k : Constants) (v : ℕ) (r : Respawner) (done : Bool) (w : Writer Position)
      (next : Respawner → List (Action Position) × Outcome) (read : Read Position)
      → Works w
      → ((r' : Respawner) → Balanced (next r'))
      → Balanced (on_read k v r done w next read)
  unfolding on_read
  on_read-Balanced k v r done w next (failed e) works h = refl
  on_read-Balanced k v r done w next (packet pk) works h =
      let one = respond-counts k v r pk w works in
      let granted = log_radius-counts pk in
      let rest = h (handle k r pk w).after in
      let wrote = map write (handle k r pk w).wrote in
      let answer = (respond v w (handle k r pk w)).0 in
      let more = log_radius pk ++ (next (handle k r pk w).after).0 in
      rw one.0 (
        omega (
          arith,
          one.1,
          one.2,
          one.3,
          granted.0,
          granted.1,
          rest,
          count-append_twice asks_radius wrote answer more,
          count-append_twice confirms wrote answer more,
          count-append asks_radius (log_radius pk) (next (handle k r pk w).after).0,
          count-append confirms (log_radius pk) (next (handle k r pk w).after).0,
        ))

  read_loop-Balanced :
      (k : Constants) (v : ℕ) (r : Respawner) (passes : List (Pass Position))
      → All (λ p. Works p.writer) passes
      → Balanced (read_loop k v r passes)
  unfolding read_loop
  read_loop-Balanced k v r [] works = refl
  read_loop-Balanced k v r (p ∷ passes) (works, more) = elim (Bool-cases p.done_before) [
    | inl e ↦ rw e
    | inr e ↦ rw e (
        on_read-Balanced k v r p.done_after p.writer (λ r'. read_loop k v r' passes) p.read works
          (λ r'. read_loop-Balanced k v r' passes more))
  ]

module _ {Position : Type 0} where
  -- One radius request more than confirmations.
  abbrev Ahead : List (Action Position) × Outcome → Type 0
  Ahead (actions, outcome) = count asks_radius actions ≡ 1 + count confirms actions

  after_request-Ahead :
      (v : ℕ) (o : Option Text) (rest : List (Action Position) × Outcome)
      → o ≡ none
      → Balanced rest
      → Ahead (after_request v o rest)
  unfolding after_request
  after_request-Ahead v none rest e h = omega (arith, h)
  after_request-Ahead v (some err) rest e h = cc

  after_spawn-Ahead :
      (xuid : Text) (v : ℕ) (o : Option Text) (rest : List (Action Position) × Outcome)
      → o ≡ none
      → Ahead rest
      → Ahead (after_spawn xuid v o rest)
  unfolding after_spawn
  after_spawn-Ahead xuid v none rest e h = omega (arith, h)
  after_spawn-Ahead xuid v (some err) rest e h = cc

  closing-counts :
      (actions : List (Action Position)) (o : Outcome)
      → (count asks_radius (actions ++ closing o) ≡ count asks_radius actions)
        × (count confirms (actions ++ closing o) ≡ count confirms actions)
  closing-counts actions (returned e) = (
    omega (arith, count-append asks_radius actions leave),
    omega (arith, count-append confirms actions leave),
  )
  closing-counts actions reading = rw append-nil (refl, refl)

  after_dial-Ahead :
      (id : ℤ) (o : Option Text) (rest : List (Action Position) × Outcome)
      → o ≡ none
      → Ahead rest
      → Ahead (after_dial id o rest)
  unfolding after_dial
  after_dial-Ahead id none rest e h =
      let same = closing-counts rest.0 rest.1 in omega (arith, h, same)
  after_dial-Ahead id (some err) rest e h = cc

  spoofs-counts :
      (id : ℤ) (spoofs : List Advertisement) (rest : List (Action Position))
      → (count asks_radius (map (log_spoof id) spoofs ++ rest) ≡ count asks_radius rest)
        × (count confirms (map (log_spoof id) spoofs ++ rest) ≡ count confirms rest)
  spoofs-counts id [] rest = (refl, refl)
  spoofs-counts id (ad ∷ spoofs) rest =
      let tail = spoofs-counts id spoofs rest in (omega (arith, tail.0), omega (arith, tail.1))

-- On a connection whose writes succeed, a session that spawns asks for chunks once at its start and
-- once more for each respawn that it confirms, whatever the server sends and however it ends.
pub session-asks_radius :
    {Position Schema : Type 0} (k : Constants) (e : Env Position Schema)
    → e.dial_error ≡ none
    → e.spawn_error ≡ none
    → Works e.writer
    → All (λ p. Works p.writer) e.passes
    → count asks_radius (session k e).0 ≡ 1 + count confirms (session k e).0
unfolding session
session-asks_radius k e dialled entered works more =
    let v = e.view_distance in
    let (proto, spoofs) = negotiate e.pong e.baked true in
    let served = read_loop k v (Liveness.new e.runtime_id) e.passes in
    let balanced = read_loop-Balanced k v (Liveness.new e.runtime_id) e.passes more in
    let requested = after_request v (e.writer (radius_request v)) served in
    let ahead =
      after_dial-Ahead proto.id e.dial_error (after_spawn e.xuid v e.spawn_error requested) dialled
        (after_spawn-Ahead e.xuid v e.spawn_error requested entered (
          after_request-Ahead v (e.writer (radius_request v)) served (works (radius_request v))
            balanced)) in
    let same =
      spoofs-counts e.baked.id spoofs
        (after_dial proto.id e.dial_error (after_spawn e.xuid v e.spawn_error requested)).0 in
    omega (arith, ahead, same)
