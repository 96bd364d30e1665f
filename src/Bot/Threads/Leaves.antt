-- ===== src/Bot/Threads/Leaves.antt =====
-- From a park to a bot that waits off the server, with the session's own way out.
use minecraft_afk_bot.Bot.Threads.Exits.{
  IsReading, exit_events, length-exit_events, left, run-beside, run-returns, run-exit,
}
use minecraft_afk_bot.Bot.Backoff.{Duration, Int63n}
use minecraft_afk_bot.Bot.Session.Link.{observe_all, down}
use minecraft_afk_bot.Bot.Session.Steps.{Progress}
use minecraft_afk_bot.Bot.System
use minecraft_afk_bot.Bot.System.{
  Place, in_session, admit_returns, spawn, System, Step, gate, head, connect_returns, report_apart,
  observe, let_go, finish, start_on,
}
use minecraft_afk_bot.Bot.System.Parks.{
  wake_schedule, cancelled_system, park_cancels, off_server, park_leaves,
}
use minecraft_afk_bot.Bot.System.Runs
use minecraft_afk_bot.Bot.Threads.{Threads, Move, beside, returns, run, started, inside}
use minecraft_afk_bot.Bot.Threads.Inside.{reachable-Inv}
use minecraft_afk_bot.Bot.Threads.Refines.{run-refines}
use minecraft_afk_bot.Bot.Threads.Runs.{with_progress, run-append, Reaches-trans}
use minecraft_afk_bot.Gophertunnel.{Constants}
use minecraft_afk_bot.Mcproto.{Protocol}
use minecraft_afk_bot.Presence.Api.{Api, IsContract}
use minecraft_afk_bot.Presence.Client.{Client}
use minecraft_afk_bot.Presence.Gate.{check, look, watching}
use minecraft_afk_bot.Presence.Reconciler.{new_reconciler}
use minecraft_afk_bot.Prelude.{
  length, ◌≤◌, ◌++◌, map, Text, ℕ, ◌≡◌, refl, sym, subst, ◌∙◌, false, List, [], ◌∷◌, none, some,
  some-injective,
}

-- What the loop does behind its session.
abbrev behind : Int63n → List Step
behind int63n = report_apart ∷ observe ∷ let_go ∷ finish ∷ head int63n ∷ gate check ∷ gate look ∷ []

-- The watcher's steps, the session's, and the loop's.
abbrev pub park_moves :
    {Position : Type 0} → Text → Duration → Int63n → Progress Position → List (Move Position)
park_moves err lasted int63n p =
    map beside wake_schedule
    ++ (map inside (exit_events err p.is_cut p.stage)
        ++ returns lasted ∷ map beside (behind int63n))

-- However the program came to a session that its watcher guards and that is in its read loop, once
-- the agent has parked the bot, and while the process is not told to stop, the bot leaves without
-- another word of the server: two steps of the watcher cancel the session; where it waits for a
-- packet, the close that `AfterFunc` makes ends the read, and so the session returns no error in at
-- most three steps; and its return and seven steps of the loop and the gate follow. Then the
-- connection is closed by the session too, which is released, reported as over and logged as
-- parked, and the loop waits in `Admit` with its delay back at the floor. The states are those of
-- the agent's contract.
pub park_closes :
    {Position Schema : Type 0} (api : Api)
    → IsContract api
    → (lo hi : Duration) (k : Constants) (v : ℕ) (baked : Protocol Schema) (c : Client)
      (initial version : Text) (moves : List (Move Position)) (t : Threads Position) (chan : ℕ)
      (err : Text) (lasted : Duration) (int63n : Int63n)
    → run api lo hi k v baked moves (started (new_reconciler c initial version) lo) ≡ some t
    → t.system.place ≡ in_session
    → IsReading t.session.stage
    → t.system.world.watcher ≡ watching chan
    → t.system.world.ctx_done ≡ false
    → t.system.world.reconciler.desired ≡ api.state_parked
    → (run api lo hi k v baked (park_moves err lasted int63n t.session) t
        ≡ some (with_progress (off_server lo lasted t.system) (left t.session)))
      × (length (exit_events {Position = Position} err t.session.is_cut t.session.stage) ≤ 3)
      × ((observe_all down (left t.session).actions).is_open ≡ false)
unfolding new_reconciler
park_closes {Position = Position} api contract lo hi k v baked c initial version moves t chan err
      lasted int63n e here reading watched live parked =
    let r = new_reconciler c initial version in
    let p = t.session in
    let off = off_server lo lasted t.system in
    let gone = cancelled_system t.system in
    let (steps, reached) = run-refines api lo hi k v baked r moves t e in
    let wakes =
      park_cancels api contract lo hi c initial version steps t.system chan reached here watched
        live parked in
    let after = connect_returns none lasted ∷ behind int63n in
    let (w, seen, goes_on) = Runs.run-split api lo hi wake_schedule after t.system off (
      park_leaves api contract lo hi c initial version steps t.system chan none lasted int63n
        reached here watched live parked) in
    let rest =
      subst (λ x. System.run api lo hi after x ≡ some off)
        (some-injective w gone (sym seen ∙ wakes)) goes_on in
    let second : List (Move Position) = returns lasted ∷ map beside (behind int63n) in
    let exit = exit_events {Position = Position} err p.is_cut p.stage in
    let runs =
      run-append api lo hi k v baked (map beside wake_schedule) (map inside exit ++ second) t
        (with_progress gone p)
        (run-beside api lo hi k v baked wake_schedule t.system gone p (refl, (refl, tt)) wakes)
      ∙ (run-append api lo hi k v baked (map inside exit) second (with_progress gone p)
            (with_progress gone (left p))
            (run-exit api lo hi k v baked gone here refl err p.stage p.actions p.is_cut reading)
          ∙ run-returns api lo hi k v baked none lasted (behind int63n) gone off (left p)
              (refl, (refl, (refl, (refl, (refl, (refl, (refl, tt))))))) refl rest) in
    let (all_moves, whole) =
      Reaches-trans api lo hi k v baked (started r lo) t (with_progress off (left p)) (moves, e)
        (park_moves err lasted int63n p, runs) in
    (
      runs,
      length-exit_events Position err p.is_cut p.stage,
      (reachable-Inv k v baked api lo hi r all_moves (with_progress off (left p)) refl whole).held,
    )
