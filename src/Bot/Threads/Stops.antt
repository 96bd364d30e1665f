-- ===== src/Bot/Threads/Stops.antt =====
-- From the end of the process to the return of the loop, with the session's own way out.
use minecraft_afk_bot.Bot.Backoff.{Duration}
use minecraft_afk_bot.Bot.Loop
use minecraft_afk_bot.Bot.Loop.{settle}
use minecraft_afk_bot.Bot.Session.Link.{observe_all, down}
use minecraft_afk_bot.Bot.System
use minecraft_afk_bot.Bot.System.{
  in_session, returned, System, Step, gate, connect_returns, report_apart, observe, let_go, finish,
}
use minecraft_afk_bot.Bot.Threads.{Threads, Move, beside, inside, returns, run, started}
use minecraft_afk_bot.Bot.Threads.Inside.{reachable-Inv}
use minecraft_afk_bot.Bot.Threads.Exits.{
  IsReading, exit_events, left, length-exit_events, run-beside, run-returns, run-exit,
}
use minecraft_afk_bot.Bot.Threads.Runs.{with_progress, run-append, Reaches-trans}
use minecraft_afk_bot.Gophertunnel.{Constants}
use minecraft_afk_bot.Mcproto.{Protocol}
use minecraft_afk_bot.Bot.Session.Steps.{Progress}
use minecraft_afk_bot.Presence.Api.{Api}
use minecraft_afk_bot.Presence.Client.{Client}
use minecraft_afk_bot.Presence.Gate
use minecraft_afk_bot.Presence.Gate.{shutdown}
use minecraft_afk_bot.Presence.Reconciler.{new_reconciler, set_connected}
use minecraft_afk_bot.Prelude.{
  Text, ℕ, ◌≡◌, refl, ap, sym, subst, ◌∙◌, true, false, List, [], ◌∷◌, ◌++◌, map, none, some,
  append_assoc, append-nil, length, ◌≤◌,
}

-- What the loop does behind its session.
abbrev last_steps : List Step
last_steps = report_apart ∷ observe ∷ let_go ∷ finish ∷ []

-- The signal, the session's way out, and the loop's.
abbrev pub stop_moves :
    {Position : Type 0} → Text → Duration → Progress Position → List (Move Position)
stop_moves err lasted p =
    beside (gate shutdown)
    ∷ (map inside (exit_events err p.is_cut p.stage) ++ returns lasted ∷ map beside last_steps)

-- The process told to stop, and nothing else.
abbrev signalled : System → System
signalled s = record s { world = record s.world { ctx_done = true; session_done = true } }

-- The loop returned, the end of the session reported and its slot released.
abbrev pub stopped : System → System
stopped s = record s {
  world = record s.world {
    reconciler = set_connected false s.world.reconciler;
    ctx_done = true;
    session_done = true;
  };
  place = returned;
  done = s.done ++ Loop.connected false ∷ Loop.release ∷ [];
}

module _ (api : Api) (lo hi : Duration) where
  in_place : System → System
  in_place s = record s { place = in_session }

  run-signal :
      (s : System)
      → System.run api lo hi (gate shutdown ∷ []) (in_place s) ≡ some (signalled (in_place s))
  unfolding in_place System.run System.continue System.step Gate.step
  run-signal s = refl

  run-last :
      (lasted : Duration) (s : System)
      → System.run api lo hi (connect_returns none lasted ∷ last_steps) (signalled (in_place s))
        ≡ some (stopped (in_place s))
  unfolding in_place System.run System.continue System.step Gate.step settle set_connected
  run-last lasted s =
      rw (append-nil, append_assoc s.done (Loop.connected false ∷ []) (Loop.release ∷ [])) refl

  same_place : (s : System) → s.place ≡ in_session → in_place s ≡ s
  unfolding in_place
  same_place s here = ap (λ p. record s { place = p }) (sym here)

-- However the program came to a session that is in its read loop, once the process is told to stop,
-- the program comes to its end without another word of the server, the agent or the poller: where the
-- session waits for a packet, the close that `AfterFunc` makes ends the read, and so the session
-- returns no error in at most three steps; and five steps of the loop, the return of its session
-- among them, take it to its own return. Then the connection is closed by the session too, which is
-- reported as over and released, and nothing more is logged or waited for.
pub shutdown_closes :
    {Position Schema : Type 0} (api : Api) (lo hi : Duration) (k : Constants) (v : ℕ)
    (baked : Protocol Schema) (c : Client) (initial version : Text) (moves : List (Move Position))
    (t : Threads Position) (err : Text) (lasted : Duration)
    → run api lo hi k v baked moves (started (new_reconciler c initial version) lo) ≡ some t
    → t.system.place ≡ in_session
    → IsReading t.session.stage
    → (run api lo hi k v baked (stop_moves err lasted t.session) t
        ≡ some (with_progress (stopped t.system) (left t.session)))
      × (length (exit_events {Position = Position} err t.session.is_cut t.session.stage) ≤ 3)
      × ((observe_all down (left t.session).actions).is_open ≡ false)
unfolding new_reconciler
shutdown_closes {Position = Position} api lo hi k v baked c initial version moves t err lasted e
      here reading =
    let r = new_reconciler c initial version in
    let p = t.session in
    let gone = signalled t.system in
    let end = stopped t.system in
    let same = same_place api lo hi t.system here in
    let signal =
      subst (λ s. System.run api lo hi (gate shutdown ∷ []) s ≡ some (signalled s)) same
        (run-signal api lo hi t.system) in
    let last =
      subst
        (λ s.
          System.run api lo hi (connect_returns none lasted ∷ last_steps) (signalled s)
          ≡ some (stopped s))
        same (run-last api lo hi lasted t.system) in
    let second : List (Move Position) = returns lasted ∷ map beside last_steps in
    let exit = map inside (exit_events {Position = Position} err p.is_cut p.stage) in
    let runs =
      run-append api lo hi k v baked (beside (gate shutdown) ∷ []) (exit ++ second) t
        (with_progress gone p)
        (run-beside api lo hi k v baked (gate shutdown ∷ []) t.system gone p (refl, tt) signal)
      ∙ (run-append api lo hi k v baked exit second (with_progress gone p)
            (with_progress gone (left p))
            (run-exit api lo hi k v baked gone here refl err p.stage p.actions p.is_cut reading)
          ∙ run-returns api lo hi k v baked none lasted last_steps gone end (left p)
              (refl, (refl, (refl, (refl, tt)))) refl last) in
    let (all_moves, whole) =
      Reaches-trans api lo hi k v baked (started r lo) t (with_progress end (left p)) (moves, e)
        (stop_moves err lasted p, runs) in
    (
      runs,
      length-exit_events Position err p.is_cut p.stage,
      (reachable-Inv k v baked api lo hi r all_moves (with_progress end (left p)) refl whole).held,
    )
