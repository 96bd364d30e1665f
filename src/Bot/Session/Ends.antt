-- ===== src/Bot/Session/Ends.antt =====
-- How a session ends: its result, the callback, and the connection that it leaves.
use minecraft_afk_bot.Bot.Session.Link.{Link, observe_all, observe_all-append, link_of, down, up}
use minecraft_afk_bot.Bot.Session.{
  Action, write, leave, Read, packet, failed, Pass, Env, Outcome, returned, reading, after_radius,
  radius_request, respond, log_radius, on_read, read_loop, log_spoof, closing, after_request,
  after_spawn, after_dial, session,
}
use minecraft_afk_bot.Gophertunnel.{Packet, chunk_radius_updated, Constants}
use minecraft_afk_bot.Liveness
use minecraft_afk_bot.Liveness.{Respawner, Writer, Handled, dead, handle}
use minecraft_afk_bot.Mcproto.{Advertisement, negotiate}
use minecraft_afk_bot.Prelude.Int.{ℤ}
use minecraft_afk_bot.Prelude.{
  Text, append-nil, ℕ, Bool, true, false, ◌&&◌, List, [], ◌∷◌, ◌++◌, map, Option, none, some, ◌≡◌,
  refl, arith, ap, ◌∙◌, Bool-cases, inl, inr,
}

abbrev pub is_none : Option Text → Bool
is_none none = true
is_none (some e) = false

abbrev pub is_reading : Outcome → Bool
is_reading reading = true
is_reading (returned e) = false

module _ {Position : Type 0} where
  -- Actions that are logs and writes leave a spawned session as it is.
  KeepsUp : List (Action Position) → Type 0
  KeepsUp actions = observe_all (up true) actions ≡ up true

  writes-KeepsUp : (pks : List (Packet Position)) → KeepsUp (map write pks)
  unfolding KeepsUp
  writes-KeepsUp [] = refl
  writes-KeepsUp (pk ∷ pks) = writes-KeepsUp pks

  KeepsUp-append : (xs ys : List (Action Position)) → KeepsUp xs → KeepsUp ys → KeepsUp (xs ++ ys)
  unfolding KeepsUp
  KeepsUp-append xs ys hx hy =
      observe_all-append (up true) xs ys ∙ ap (λ l. observe_all l ys) hx ∙ hy

  respond-KeepsUp : (v : ℕ) (w : Writer Position) (h : Handled Position) → KeepsUp (respond v w h).0
  unfolding KeepsUp respond
  respond-KeepsUp v w h = ground arith

  log_radius-KeepsUp : (pk : Packet Position) → KeepsUp (log_radius pk)
  unfolding KeepsUp log_radius
  log_radius-KeepsUp (chunk_radius_updated radius) = refl
  log_radius-KeepsUp _ = refl

  after_radius-KeepsUp :
      (o : Option Text) (granted : List (Action Position)) (rest : List (Action Position) × Outcome)
      → KeepsUp granted
      → KeepsUp rest.0
      → KeepsUp (after_radius o granted rest).0
  after_radius-KeepsUp none granted rest hg hr = KeepsUp-append granted rest.0 hg hr
  after_radius-KeepsUp (some e) granted rest hg hr = unfold KeepsUp in refl

  on_read-KeepsUp :
      (k : Constants) (v : ℕ) (r : Respawner) (done : Bool) (w : Writer Position)
      (next : Respawner → List (Action Position) × Outcome) (read : Read Position)
      → ((r' : Respawner) → KeepsUp (next r').0)
      → KeepsUp (on_read k v r done w next read).0
  unfolding on_read
  on_read-KeepsUp k v r done w next (failed e) h = unfold KeepsUp in refl
  on_read-KeepsUp k v r done w next (packet pk) h =
      let hd = handle k r pk w in
      let (answer, failure) = respond v w hd in
      let more = after_radius failure (log_radius pk) (next hd.after) in
      KeepsUp-append (map write hd.wrote) (answer ++ more.0) (writes-KeepsUp hd.wrote) (
        KeepsUp-append answer more.0 (respond-KeepsUp v w hd) (
          after_radius-KeepsUp failure (log_radius pk) (next hd.after) (log_radius-KeepsUp pk)
            (h hd.after)))

  read_loop-KeepsUp :
      (k : Constants) (v : ℕ) (r : Respawner) (passes : List (Pass Position))
      → KeepsUp (read_loop k v r passes).0
  unfolding read_loop
  read_loop-KeepsUp k v r [] = unfold KeepsUp in refl
  read_loop-KeepsUp k v r (p ∷ passes) = elim (Bool-cases p.done_before) [
    | inl e ↦ rw e (unfold KeepsUp in refl)
    | inr e ↦ rw e (
        on_read-KeepsUp k v r p.done_after p.writer (λ r'. read_loop k v r' passes) p.read
          (λ r'. read_loop-KeepsUp k v r' passes))
  ]

  after_request-KeepsUp :
      (v : ℕ) (o : Option Text) (rest : List (Action Position) × Outcome)
      → KeepsUp rest.0
      → KeepsUp (after_request v o rest).0
  unfolding after_request KeepsUp
  after_request-KeepsUp v none rest h = h
  after_request-KeepsUp v (some err) rest h = refl

  after_spawn-up :
      (xuid : Text) (v : ℕ) (o : Option Text) (rest : List (Action Position) × Outcome)
      → KeepsUp rest.0
      → observe_all (up false) (after_spawn xuid v o rest).0 ≡ up (is_none o)
  unfolding after_spawn KeepsUp
  after_spawn-up xuid v none rest h = h
  after_spawn-up xuid v (some err) rest h = refl

  closing-link :
      (announced : Bool) (actions : List (Action Position)) (o : Outcome)
      → observe_all (up false) actions ≡ up announced
      → observe_all (up false) (actions ++ closing o) ≡ link_of (is_reading o) announced
  closing-link announced actions (returned e) h =
      observe_all-append (up false) actions leave
      ∙ ap (λ l. observe_all {Position = Position} l leave) h
  closing-link announced actions reading h = rw append-nil h

  after_dial-link :
      (id : ℤ) (dialled spawned_ok : Option Text) (rest : List (Action Position) × Outcome)
      → observe_all (up false) rest.0 ≡ up (is_none spawned_ok)
      → observe_all down (after_dial id dialled rest).0
        ≡ link_of (is_none dialled && is_reading rest.1) (is_none dialled && is_none spawned_ok)
  unfolding after_dial
  after_dial-link id none spawned_ok rest h = closing-link (is_none spawned_ok) rest.0 rest.1 h
  after_dial-link id (some err) spawned_ok rest h = refl

  spoofs-link :
      (l : Link) (id : ℤ) (spoofs : List Advertisement) (rest : List (Action Position))
      → observe_all l (map (log_spoof id) spoofs ++ rest) ≡ observe_all l rest
  spoofs-link l id [] rest = refl
  spoofs-link l id (ad ∷ spoofs) rest = spoofs-link l id spoofs rest

after_dial-reading :
    {Position : Type 0} (id : ℤ) (o : Option Text) (rest : List (Action Position) × Outcome)
    → (is_none o && is_reading rest.1) ≡ is_reading (after_dial id o rest).1
unfolding after_dial
after_dial-reading id none rest = refl
after_dial-reading id (some err) rest = refl

-- The connection and the callback, by the session's own actions.
pub session-link_of :
    {Position Schema : Type 0} (k : Constants) (e : Env Position Schema)
    → observe_all down (session k e).0
      ≡ link_of (is_reading (session k e).1) (is_none e.dial_error && is_none e.spawn_error)
unfolding session
session-link_of k e =
    let v = e.view_distance in
    let (proto, spoofs) = negotiate e.pong e.baked true in
    let served = read_loop k v (Liveness.new e.runtime_id) e.passes in
    let requested = after_request v (e.writer (radius_request v)) served in
    let entered = after_spawn e.xuid v e.spawn_error requested in
    let kept =
      after_request-KeepsUp v (e.writer (radius_request v)) served
        (read_loop-KeepsUp k v (Liveness.new e.runtime_id) e.passes) in
    spoofs-link down e.baked.id spoofs (after_dial proto.id e.dial_error entered).0
    ∙ after_dial-link proto.id e.dial_error e.spawn_error entered
        (after_spawn-up e.xuid v e.spawn_error requested kept)
    ∙ ap (λ b. link_of b (is_none e.dial_error && is_none e.spawn_error))
        (after_dial-reading proto.id e.dial_error entered)
