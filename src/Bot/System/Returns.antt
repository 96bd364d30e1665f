-- ===== src/Bot/System/Returns.antt =====
-- From a bot that waits off the server back into a session.
use minecraft_afk_bot.Bot.Backoff.{Duration}
use minecraft_afk_bot.Bot.Loop.{admit, connect}
use minecraft_afk_bot.Bot.System.{
  admitting, in_session, System, Step, gate, admit_returns, step, continue, run, start_on,
}
use minecraft_afk_bot.Bot.System.Apart.{apart}
use minecraft_afk_bot.Bot.System.Projection.{reachable-projects}
use minecraft_afk_bot.Presence.Api.{Api, IsContract}
use minecraft_afk_bot.Presence.Client.{Client}
use minecraft_afk_bot.Presence.Gate
use minecraft_afk_bot.Presence.Gate.{World, admitted, waiting, watching, check, look, wake}
use minecraft_afk_bot.Presence.Gate.Invariant.{reachable-Inv}
use minecraft_afk_bot.Presence.Gate.Waiters.{Informed, PhaseInv}
use minecraft_afk_bot.Presence.Reconciler.{new_reconciler, set_connected}
use minecraft_afk_bot.Prelude.{
  Text, ℕ, ◌≡◌, sym, ap, ◌∙◌, refl, true, false, List, [], ◌∷◌, ◌++◌, some, inl, inr, subst, equal,
  equal_iff,
}

-- `Admit` wakes, looks, and returns a session.
abbrev pub return_schedule : List Step
return_schedule = gate wake ∷ gate check ∷ gate look ∷ admit_returns ∷ []

-- The bot in a session that is live and watched on the current channel.
abbrev pub on_server : System → System
on_server s = record s {
  world = record s.world {
    phase = admitted;
    watcher = watching s.world.reconciler.changed;
    session_done = false;
  };
  place = in_session;
  done = s.done ++ admit true ∷ connect ∷ [];
}

module _ (api : Api) (lo hi : Duration) where
  -- In `Admit`, in its `select`.
  idling : System → ℕ → System
  idling s chan = record s {
    place = admitting;
    world = record s.world { phase = waiting chan; ctx_done = false };
  }

  idling-run :
      (s : System) (chan : ℕ)
      → s.world.reconciler.channels.closed chan ≡ true
      → equal s.world.reconciler.desired api.state_present ≡ true
      → run api lo hi return_schedule (idling s chan) ≡ some (on_server (idling s chan))
  unfolding run continue idling step Gate.step
  idling-run s chan closed present = rw (closed, present) refl

  idling-same :
      (s : System) (chan : ℕ)
      → s.place ≡ admitting
      → s.world.phase ≡ waiting chan
      → s.world.ctx_done ≡ false
      → idling s chan ≡ s
  unfolding idling
  idling-same s chan here waits live =
      ap
        (λ b. record s {
          place = admitting;
          world = record s.world { phase = waiting chan; ctx_done = b };
        })
        (sym live)
      ∙ (ap (λ v. record s { place = admitting; world = record s.world { phase = v } }) (sym waits)
          ∙ ap (λ p. record s { place = p }) (sym here))

  -- A return that `Admit` waits for has closed its channel.
  return-closed :
      IsContract api
      → (c : Client) (initial version : Text) (moves : List Gate.Step) (w : World) (chan : ℕ)
      → Gate.run api moves (Gate.start (new_reconciler c initial version)) ≡ some (apart w)
      → w.phase ≡ waiting chan
      → equal w.reconciler.desired api.state_present ≡ true
      → w.reconciler.channels.closed chan ≡ true
  unfolding set_connected
  return-closed k c initial version moves w chan e waits present =
      let inv = reachable-Inv api k c initial version moves (apart w) e in
      let informed : Informed api (apart w).reconciler chan api.state_present =
        subst (λ p. PhaseInv api (apart w).reconciler p) waits inv.waiter in
      elim informed [ inl closed ↦ closed | inr (same, other) ↦ cc (other, present) ]

-- However the program came to wait in `Admit`, once the agent asks for the bot, and while the
-- process is not told to stop, the next steps of the gate and of the loop bring it into a session
-- that is live and watched, with no sleep before it. The states are those of the agent's contract.
pub present_returns :
    (api : Api)
    → IsContract api
    → (lo hi : Duration) (c : Client) (initial version : Text) (steps : List Step) (s : System)
      (chan : ℕ)
    → run api lo hi steps (start_on (new_reconciler c initial version) lo) ≡ some s
    → s.place ≡ admitting
    → s.world.phase ≡ waiting chan
    → s.world.ctx_done ≡ false
    → s.world.reconciler.desired ≡ api.state_present
    → run api lo hi return_schedule s ≡ some (on_server s)
present_returns api k lo hi c initial version steps s chan e here waits live present =
    let same = idling-same api lo hi s chan here waits live in
    let wanted = (equal_iff s.world.reconciler.desired api.state_present).1 present in
    let (moves, reached) = reachable-projects api lo hi c initial version steps s e in
    subst (λ t. run api lo hi return_schedule t ≡ some (on_server t)) same
      (idling-run api lo hi s chan
        (return-closed api lo hi k c initial version moves s.world chan reached waits wanted)
        wanted)
