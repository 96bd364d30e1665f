-- ===== src/Examples/Gates.antt =====
-- Tests of the gate and the watchers of internal/presence.
use minecraft_afk_bot.Examples.Agent
use minecraft_afk_bot.Examples.Agent.{api, api-IsContract, client, net_of, accepts}
use minecraft_afk_bot.Presence.Gate.Ticks.{Gives, shared_world, tick-Follows}
use minecraft_afk_bot.Presence.Gate.Invariant.{Inv, reachable-Inv}
use minecraft_afk_bot.Presence.Gate.Progress.{session_stays}
use minecraft_afk_bot.Presence.Gate.{
  admitted, waiting, watching, absent, World, Step, follow, check, look, step, continue, check_in,
  look_in, run, start,
}
use minecraft_afk_bot.Presence.Reconciler.{Reconciler, new_reconciler, set, tick}
use minecraft_afk_bot.Prelude.Strings.{codes}
use minecraft_afk_bot.Prelude.{Text, false, ◌⊎◌, ◌≡◌, refl, List, [], ◌∷◌, some, equal}

abbrev made : Reconciler
made = new_reconciler client (codes "present") (codes "1.0")

-- The bot is admitted, and then parked.
abbrev parks : List Step
parks = check ∷ look ∷ follow (codes "parked") (codes "7") ∷ []

abbrev parked_world : World
parked_world = record {
  reconciler = (set (codes "parked") (codes "7") made).0;
  ctx_done = false;
  phase = admitted;
  watcher = watching 0;
  session_done = false;
}

run-parks : run api parks (start made) ≡ some parked_world
unfolding run continue step check_in look_in start new_reconciler equal
run-parks = refl

reachable-Inv_example : Inv api parked_world
reachable-Inv_example =
    reachable-Inv api api-IsContract client (codes "present") (codes "1.0") parks parked_world
      run-parks

abbrev made_parked : Reconciler
made_parked = new_reconciler client (codes "parked") (codes "1.0")

-- The bot waits at the gate, and is then to be present.
abbrev resumes : List Step
resumes = check ∷ look ∷ follow (codes "present") (codes "8") ∷ []

abbrev resumed_world : World
resumed_world = record {
  reconciler = (set (codes "present") (codes "8") made_parked).0;
  ctx_done = false;
  phase = waiting 0;
  watcher = absent;
  session_done = false;
}

abbrev live_world : World
live_world = record {
  reconciler = made;
  ctx_done = false;
  phase = admitted;
  watcher = watching 0;
  session_done = false;
}

-- The poller hears of the same state under another tag.
abbrev retagged_world : World
retagged_world = record live_world { reconciler = (set (codes "present") (codes "9") made).0 }

session_stays_example : retagged_world.session_done ≡ false
unfolding run continue step new_reconciler equal
session_stays_example =
    session_stays api (follow (codes "present") (codes "9") ∷ []) live_world retagged_world
      (refl, tt) (record { live = refl; running = refl; not_parked = refl }) refl

-- A tick on which the agent parks the bot.
tick-Follows_example :
    let r = (tick api (net_of Agent.parks) (net_of accepts) false false live_world.reconciler).0 in
    let w' = record live_world { reconciler = r } in
    (shared_world w' ≡ shared_world live_world)
    ⊎ ((state : Text) × (etag : Text) × Gives api
          (net_of Agent.parks)
          live_world.reconciler
          state
          etag
        × (step api (follow state etag) (shared_world live_world) ≡ some (shared_world w')))
tick-Follows_example = tick-Follows api (net_of Agent.parks) (net_of accepts) false false live_world
