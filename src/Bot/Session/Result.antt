-- ===== src/Bot/Session/Result.antt =====
-- When a session returns no error, and what the connect loop makes of it.
use minecraft_afk_bot.Bot.Loop
use minecraft_afk_bot.Bot.Loop.{
  Round, announce, log_end, settle, attempt, round, run, run_connect_loop,
}
use minecraft_afk_bot.Bot.Backoff.{Duration}
use minecraft_afk_bot.Bot.Session.{
  Action, Read, packet, failed, Pass, Env, Outcome, returned, after_radius, respond, log_radius,
  on_read, read_loop, after_request, after_spawn, after_dial, session, radius_request,
}
use minecraft_afk_bot.Gophertunnel.{Constants}
use minecraft_afk_bot.Liveness
use minecraft_afk_bot.Liveness.{Respawner, Writer, handle}
use minecraft_afk_bot.Mcproto.{negotiate}
use minecraft_afk_bot.Prelude.Int.{ℤ}
use minecraft_afk_bot.Prelude.Strings.{codes}
use minecraft_afk_bot.Prelude.{
  Text, ℕ, zero, suc, Bool, true, false, not, ◌||◌, List, [], ◌∷◌, Option, none, some, ◌≡◌, refl,
  arith, All, equal, count, count-append, Bool-cases, inl, inr,
}

-- The session returned no error.
abbrev pub is_clean : Outcome → Bool
is_clean (returned none) = true
is_clean _ = false

module _ {Position : Type 0} where
  -- Some pass found the context ended.
  abbrev pub saw_done : List (Pass Position) → Bool
  saw_done [] = false
  saw_done (p ∷ passes) = p.done_before || p.done_after || saw_done passes

  -- A return of no error is explained by `b`.
  abbrev Explains : Bool → List (Action Position) × Outcome → Type 0
  Explains b (actions, outcome) = is_clean outcome ≡ true → b ≡ true

  after_radius-Explains :
      (b : Bool) (o : Option Text) (granted : List (Action Position))
      (rest : List (Action Position) × Outcome)
      → Explains b rest
      → Explains b (after_radius o granted rest)
  after_radius-Explains b none granted rest h = h
  after_radius-Explains b (some e) granted rest h = λ c. cc

  on_read-Explains :
      (b : Bool) (k : Constants) (v : ℕ) (r : Respawner) (done : Bool) (w : Writer Position)
      (next : Respawner → List (Action Position) × Outcome) (read : Read Position)
      → ((r' : Respawner) → Explains b (next r'))
      → Explains (done || b) (on_read k v r done w next read)
  unfolding on_read
  on_read-Explains b k v r done w next (failed e) h = ground arith
  on_read-Explains b k v r done w next (packet pk) h =
      let hd = handle k r pk w in
      let both =
        after_radius-Explains b (respond v w hd).1 (log_radius pk) (next hd.after) (h hd.after) in
      λ c. ground (arith, both c)

  read_loop-Explains :
      (k : Constants) (v : ℕ) (r : Respawner) (passes : List (Pass Position))
      → Explains (saw_done passes) (read_loop k v r passes)
  unfolding read_loop
  read_loop-Explains k v r [] = λ c. cc
  read_loop-Explains k v r (p ∷ passes) = elim (Bool-cases p.done_before) [
    | inl e ↦ λ c. ground arith
    | inr e ↦ rw e (
        on_read-Explains (saw_done passes) k v r p.done_after p.writer
          (λ r'. read_loop k v r' passes) p.read (λ r'. read_loop-Explains k v r' passes))
  ]

  after_request-Explains :
      (b : Bool) (v : ℕ) (o : Option Text) (rest : List (Action Position) × Outcome)
      → Explains b rest
      → Explains b (after_request v o rest)
  unfolding after_request
  after_request-Explains b v none rest h = h
  after_request-Explains b v (some e) rest h = λ c. cc

  after_spawn-Explains :
      (b : Bool) (x : Text) (v : ℕ) (o : Option Text) (rest : List (Action Position) × Outcome)
      → Explains b rest
      → Explains b (after_spawn x v o rest)
  unfolding after_spawn
  after_spawn-Explains b x v none rest h = h
  after_spawn-Explains b x v (some e) rest h = λ c. cc

  after_dial-Explains :
      (b : Bool) (id : ℤ) (o : Option Text) (rest : List (Action Position) × Outcome)
      → Explains b rest
      → Explains b (after_dial id o rest)
  unfolding after_dial
  after_dial-Explains b id none rest h = h
  after_dial-Explains b id (some e) rest h = λ c. cc

-- A session returns no error only if its context had ended when the read loop looked: every other
-- end, a closed connection included, is an error.
pub session-clean :
    {Position Schema : Type 0} (k : Constants) (e : Env Position Schema)
    → is_clean (session k e).1 ≡ true
    → saw_done e.passes ≡ true
unfolding session
session-clean k e =
    let v = e.view_distance in
    let b = saw_done e.passes in
    let (proto, spoofs) = negotiate e.pong e.baked true in
    let served = read_loop k v (Liveness.new e.runtime_id) e.passes in
    let requested = after_request v (e.writer (radius_request v)) served in
    after_dial-Explains b proto.id e.dial_error (after_spawn e.xuid v e.spawn_error requested) (
      after_spawn-Explains b e.xuid v e.spawn_error requested (
        after_request-Explains b v (e.writer (radius_request v)) served
          (read_loop-Explains k v (Liveness.new e.runtime_id) e.passes)))

-- A pass of the connect loop whose `connect` is a session: the error is the session's, and a
-- context that the session saw ended has ended when the loop asks.
abbrev pub RunsSession :
    {Position Schema : Type 0} → Constants → Env Position Schema → Round → Type 0
RunsSession k e r =
    ((session k e).1 ≡ returned r.err) × ((not (saw_done e.passes) || r.session_done) ≡ true)

-- The log line for a session that ended without an error.
abbrev pub is_session_ended : Loop.Action → Bool
is_session_ended (Loop.log severity event fields) = equal event (codes "session_ended")
is_session_ended _ = false

-- In what a round may be asked to log: no clean end without a context that has ended.
abbrev pub IsParkedIfClean : Round → Type 0
IsParkedIfClean r = r.err ≡ none → r.session_done ≡ true

RunsSession-IsParkedIfClean :
    {Position Schema : Type 0} (k : Constants) (e : Env Position Schema) (r : Round)
    → RunsSession k e r
    → IsParkedIfClean r
RunsSession-IsParkedIfClean k e r (result, seen) clean =
    let done = session-clean k e (rw (result, clean) refl) in ground arith

announce-count : (n : ℕ) → count is_session_ended (announce n) ≡ 0
unfolding announce
announce-count zero = refl
announce-count (suc n) = omega (arith, announce-count n)

module _ (lo hi : Duration) where
  pub settle-count :
      (s : Loop.Loop) (r : Round)
      → IsParkedIfClean r
      → count is_session_ended (settle lo hi s r).0 ≡ 0
  unfolding settle log_end equal
  settle-count s r h = ground (arith, h)

  attempt-count :
      (s : Loop.Loop) (r : Round)
      → IsParkedIfClean r
      → count is_session_ended (attempt lo hi s r).0 ≡ 0
  unfolding attempt
  attempt-count s r h =
      let ended = (settle lo hi s r).0 in
      ground (
        arith,
        settle-count s r h,
        announce-count r.spawns,
        count-append is_session_ended (announce r.spawns)
            (Loop.connected false ∷ Loop.release ∷ ended),
      )

  round-count :
      (s : Loop.Loop) (r : Round)
      → IsParkedIfClean r
      → count is_session_ended (round lo hi s r).0 ≡ 0
  unfolding round equal
  round-count s r h = ground (arith, attempt-count s r h)

  run-count :
      (s : Option Loop.Loop) (rs : List Round)
      → All IsParkedIfClean rs
      → count is_session_ended (run lo hi s rs).0 ≡ 0
  unfolding run
  run-count none rs h = refl
  run-count (some s) [] h = refl
  run-count (some s) (r ∷ rs) (h, more) =
      let (actions, next) = round lo hi s r in
      omega (
        arith,
        round-count s r h,
        run-count next rs more,
        count-append is_session_ended actions (run lo hi next rs).0,
      )

RunsSession-All :
    (Position Schema : Type 0) (k : Constants) (rs : List Round)
    → All (λ r. (e : Env Position Schema) × RunsSession k e r) rs
    → All IsParkedIfClean rs
RunsSession-All Position Schema k [] h = tt
RunsSession-All Position Schema k (r ∷ rs) ((e, runs), more) =
    (RunsSession-IsParkedIfClean k e r runs, RunsSession-All Position Schema k rs more)

-- With the bot's own session as its `connect`, the connect loop never logs `session_ended`: a
-- session that returns no error has been parked, or the process is shutting down.
pub session_ended_never :
    (Position Schema : Type 0) (k : Constants) (min_ms max_ms : ℕ) (rs : List Round)
    → All (λ r. (e : Env Position Schema) × RunsSession k e r) rs
    → count is_session_ended (run_connect_loop min_ms max_ms rs).0 ≡ 0
unfolding run_connect_loop
session_ended_never Position Schema k min_ms max_ms rs h =
    run-count (Loop.of_milliseconds min_ms) (Loop.of_milliseconds max_ms)
      (some (Loop.start (Loop.of_milliseconds min_ms))) rs (RunsSession-All Position Schema k rs h)
