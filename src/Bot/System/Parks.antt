-- ===== src/Bot/System/Parks.antt =====
-- From a park to a bot that waits off the server, through all the threads.
use minecraft_afk_bot.Bot.Backoff.{Duration, Int63n}
use minecraft_afk_bot.Bot.Loop
use minecraft_afk_bot.Bot.Loop.{Action, Loop, connected, log, lasted_field, settle, start}
use minecraft_afk_bot.Bot.System.{
  admitting, in_session, System, Step, gate, head, connect_returns, report_apart, observe, let_go,
  finish, step, continue, run, start_on,
}
use minecraft_afk_bot.Bot.System.Apart.{apart}
use minecraft_afk_bot.Bot.System.Projection.{reachable-projects}
use minecraft_afk_bot.Logging.{severity_info}
use minecraft_afk_bot.Presence.Api.{Api, IsContract}
use minecraft_afk_bot.Presence.Client.{Client}
use minecraft_afk_bot.Presence.Gate
use minecraft_afk_bot.Presence.Gate.{
  World, admitted, at_top, checked, waiting, Watcher, woken, watching, check, look, watcher_wake,
  watcher_look, check_in, look_in, watcher_wake_in, watcher_look_in, is_closed,
}
use minecraft_afk_bot.Presence.Gate.Invariant.{reachable-Inv}
use minecraft_afk_bot.Presence.Gate.Waiters.{Informed, WatcherInv}
use minecraft_afk_bot.Presence.Reconciler.{new_reconciler, set_connected}
use minecraft_afk_bot.Prelude.Strings.{codes}
use minecraft_afk_bot.Prelude.{
  Text, ℕ, ◌≡◌, refl, sym, ap, ◌∙◌, true, false, List, [], ◌∷◌, ◌++◌, Option, some, Bool-cases, inl,
  inr, subst, equal, equal_iff, append_assoc,
}

-- A watcher that wakes to a park, the session that ends on its closed connection, the rest of the
-- pass, and the next pass into `Admit`.
abbrev pub park_schedule : Option Text → Duration → Int63n → List Step
park_schedule err lasted int63n =
    gate watcher_wake
    ∷ gate watcher_look
    ∷ connect_returns err lasted
    ∷ report_apart
    ∷ observe
    ∷ let_go
    ∷ finish
    ∷ head int63n
    ∷ gate check
    ∷ gate look
    ∷ []

-- What the watcher does of a park.
abbrev pub wake_schedule : List Step
wake_schedule = gate watcher_wake ∷ gate watcher_look ∷ []

-- The session cancelled, and the loop still in it.
abbrev pub cancelled_system : System → System
cancelled_system s = record s {
  world = record s.world { watcher = Gate.ended; session_done = true };
}

-- The bot off the server, with `Admit` in its `select`.
abbrev pub off_server : Duration → Duration → System → System
off_server lo lasted s = record {
  world = record s.world {
    reconciler = set_connected false s.world.reconciler;
    phase = waiting s.world.reconciler.changed;
    watcher = Gate.ended;
    session_done = true;
  };
  place = admitting;
  loop = start lo;
  done =
      s.done
      ++ connected false
        ∷ Loop.release
        ∷ log severity_info (codes "session_parked") (lasted_field lasted)
        ∷ [];
}

module _ (api : Api) (lo hi : Duration) where
  run-cons :
      (x : Step) (steps : List Step) (s t : System)
      → step api lo hi x s ≡ some t
      → run api lo hi (x ∷ steps) s ≡ run api lo hi steps t
  unfolding run continue
  run-cons x steps s t e = rw e refl

  -- From a session that a watcher guards.
  guarded : System → ℕ → System
  guarded s chan = record s {
    place = in_session;
    world = record s.world { watcher = watching chan; ctx_done = false };
  }

  guarded-run :
      (s : System) (chan : ℕ) (err : Option Text) (lasted : Duration) (int63n : Int63n)
      → s.world.reconciler.channels.closed chan ≡ true
      → equal s.world.reconciler.desired api.state_parked ≡ true
      → equal s.world.reconciler.desired api.state_present ≡ false
      → run api lo hi (park_schedule err lasted int63n) (guarded s chan)
        ≡ some (off_server lo lasted (guarded s chan))
  unfolding run continue guarded step Gate.step settle start set_connected
  guarded-run s chan err lasted int63n closed parked away =
      rw
        (
          closed,
          parked,
          away,
          append_assoc (s.done ++ connected false ∷ []) (Loop.release ∷ [])
              (log severity_info (codes "session_parked") (lasted_field lasted) ∷ []),
          append_assoc s.done (connected false ∷ []) (
              Loop.release ∷ log severity_info (codes "session_parked") (lasted_field lasted) ∷ []),
        )
        refl

  guarded-wakes :
      (s : System) (chan : ℕ)
      → s.world.reconciler.channels.closed chan ≡ true
      → equal s.world.reconciler.desired api.state_parked ≡ true
      → run api lo hi wake_schedule (guarded s chan) ≡ some (cancelled_system (guarded s chan))
  unfolding run continue guarded step Gate.step
  guarded-wakes s chan closed parked = rw (closed, parked) refl

  guarded-same :
      (s : System) (chan : ℕ)
      → s.place ≡ in_session
      → s.world.watcher ≡ watching chan
      → s.world.ctx_done ≡ false
      → guarded s chan ≡ s
  unfolding guarded
  guarded-same s chan here watched live =
      ap
        (λ b. record s {
          place = in_session;
          world = record s.world { watcher = watching chan; ctx_done = b };
        })
        (sym live)
      ∙ (ap (λ v. record s { place = in_session; world = record s.world { watcher = v } })
            (sym watched)
          ∙ ap (λ p. record s { place = p }) (sym here))

  -- A park that the watcher waits for has closed its channel, and is no call for the bot.
  park-closed :
      IsContract api
      → (c : Client) (initial version : Text) (moves : List Gate.Step) (w : World) (chan : ℕ)
      → Gate.run api moves (Gate.start (new_reconciler c initial version)) ≡ some (apart w)
      → w.watcher ≡ watching chan
      → equal w.reconciler.desired api.state_parked ≡ true
      → w.reconciler.channels.closed chan ≡ true
  unfolding set_connected
  park-closed k c initial version moves w chan e watched parked =
      let inv = reachable-Inv api k c initial version moves (apart w) e in
      let informed : Informed api (apart w).reconciler chan api.state_parked =
        subst (λ v. WatcherInv api (apart w).reconciler v) watched inv.watched in
      elim informed [ inl closed ↦ closed | inr (same, other) ↦ cc (other, parked) ]

  away_if_parked :
      IsContract api
      → (state : Text) → equal state api.state_parked ≡ true
      → equal state api.state_present ≡ false
  away_if_parked k state parked = elim (Bool-cases (equal state api.state_present)) [
    | inl e ↦ absurd (
        k.distinct (
          sym ((equal_iff state api.state_present).0 e)
          ∙ (equal_iff state api.state_parked).0 parked))
    | inr e ↦ e
  ]

-- The first two of the steps below cancel the session.
pub park_cancels :
    (api : Api)
    → IsContract api
    → (lo hi : Duration) (c : Client) (initial version : Text) (steps : List Step) (s : System)
      (chan : ℕ)
    → run api lo hi steps (start_on (new_reconciler c initial version) lo) ≡ some s
    → s.place ≡ in_session
    → s.world.watcher ≡ watching chan
    → s.world.ctx_done ≡ false
    → s.world.reconciler.desired ≡ api.state_parked
    → run api lo hi wake_schedule s ≡ some (cancelled_system s)
park_cancels api k lo hi c initial version steps s chan e here watched live parked =
    let is_parked = (equal_iff s.world.reconciler.desired api.state_parked).1 parked in
    let (moves, reached) = reachable-projects api lo hi c initial version steps s e in
    subst (λ t. run api lo hi wake_schedule t ≡ some (cancelled_system t))
      (guarded-same api lo hi s chan here watched live)
      (guarded-wakes api lo hi s chan
        (park-closed api lo hi k c initial version moves s.world chan reached watched is_parked)
        is_parked)

-- However the program came to a session that its watcher guards, once the agent has parked the
-- bot, and while the process is not told to stop, the next steps of the watcher and of the loop
-- take it off the server and leave it in `Admit`: the session is cancelled and released, reported
-- as over and logged as parked whatever error it ended with, and the loop waits for the agent with
-- its delay back at the floor and no sleep before it. The states are those of the agent's
-- contract.
pub park_leaves :
    (api : Api)
    → IsContract api
    → (lo hi : Duration) (c : Client) (initial version : Text) (steps : List Step) (s : System)
      (chan : ℕ) (err : Option Text) (lasted : Duration) (int63n : Int63n)
    → run api lo hi steps (start_on (new_reconciler c initial version) lo) ≡ some s
    → s.place ≡ in_session
    → s.world.watcher ≡ watching chan
    → s.world.ctx_done ≡ false
    → s.world.reconciler.desired ≡ api.state_parked
    → run api lo hi (park_schedule err lasted int63n) s ≡ some (off_server lo lasted s)
park_leaves api k lo hi c initial version steps s chan err lasted int63n e here watched live
      parked =
    let same = guarded-same api lo hi s chan here watched live in
    let is_parked = (equal_iff s.world.reconciler.desired api.state_parked).1 parked in
    let (moves, reached) = reachable-projects api lo hi c initial version steps s e in
    subst (λ t. run api lo hi (park_schedule err lasted int63n) t ≡ some (off_server lo lasted t))
      same
      (guarded-run api lo hi s chan err lasted int63n
        (park-closed api lo hi k c initial version moves s.world chan reached watched is_parked)
        is_parked (away_if_parked api lo hi k s.world.reconciler.desired is_parked))
