-- ===== src/Bot/Threads/Connection.antt =====
-- What is on the server, what is reported of it and what is logged of its end, however the threads
-- interleave.
use minecraft_afk_bot.Bot.Backoff.{Duration}
use minecraft_afk_bot.Bot.Session.Link.{observe_all, down}
use minecraft_afk_bot.Bot.Session.Result.{is_session_ended}
use minecraft_afk_bot.Bot.Session.Steps.{Progress}
use minecraft_afk_bot.Bot.Session.Steps.Calls.{has_spawned}
use minecraft_afk_bot.Bot.System.{Place, in_session}
use minecraft_afk_bot.Bot.System.Places.{may_report}
use minecraft_afk_bot.Bot.System.Projection.{reachable-At}
use minecraft_afk_bot.Bot.Threads.{Threads, Move, run, started}
use minecraft_afk_bot.Bot.Threads.Held.{Held}
use minecraft_afk_bot.Bot.Threads.Inside.{reachable-Inv}
use minecraft_afk_bot.Bot.System.Fits.{Fits}
use minecraft_afk_bot.Bot.Threads.Refines.{run-refines}
use minecraft_afk_bot.Gophertunnel.{Constants}
use minecraft_afk_bot.Mcproto.{Protocol}
use minecraft_afk_bot.Presence.Api.{Api}
use minecraft_afk_bot.Presence.Client.{Client}
use minecraft_afk_bot.Presence.Gate.{admitted}
use minecraft_afk_bot.Presence.Reconciler.{new_reconciler, status_of}
use minecraft_afk_bot.Prelude.{
  Text, ℕ, ◌≡◌, refl, subst, Bool, true, false, ◌&&◌, List, some, count,
}

-- The loop is in its session.
abbrev pub is_inside : Place → Bool
is_inside in_session = true
is_inside _ = false

module _ {Position Schema : Type 0} (k : Constants) (v : ℕ) (baked : Protocol Schema) where
  Held-inside :
      (q : Place) (p : Progress Position)
      → Held k v baked q p
      → (observe_all down p.actions).is_open ≡ true
      → q ≡ in_session
  Held-inside in_session p h e = refl
  Held-inside _ p h e = cc (h, e)

-- However the threads interleave, while a session has its connection to the server open, the gate
-- has admitted the bot and the connect loop is in that session.
pub open-IsAdmitted :
    {Position Schema : Type 0} (api : Api) (lo hi : Duration) (k : Constants) (v : ℕ)
    (baked : Protocol Schema) (c : Client) (initial version : Text) (moves : List (Move Position))
    (t : Threads Position)
    → run api lo hi k v baked moves (started (new_reconciler c initial version) lo) ≡ some t
    → (observe_all down t.session.actions).is_open ≡ true
    → (t.system.place ≡ in_session) × (t.system.world.phase ≡ admitted)
unfolding new_reconciler
open-IsAdmitted api lo hi k v baked c initial version moves t e live =
    let r = new_reconciler c initial version in
    let (steps, reached) = run-refines api lo hi k v baked r moves t e in
    let inside =
      Held-inside k v baked t.system.place t.session
        (reachable-Inv k v baked api lo hi r moves t refl e).held live in
    (
      inside,
      subst (λ q. Fits q t.system.world) inside
          (reachable-At api r lo hi steps t.system refl reached).fits,
    )

-- However the threads interleave, the status reports the bot as connected exactly while the loop is
-- in a session that has called back, or has returned from one and not yet told the gate.
pub status-has_spawned :
    {Position Schema : Type 0} (api : Api) (lo hi : Duration) (k : Constants) (v : ℕ)
    (baked : Protocol Schema) (c : Client) (initial version : Text) (moves : List (Move Position))
    (t : Threads Position)
    → run api lo hi k v baked moves (started (new_reconciler c initial version) lo) ≡ some t
    → (status_of api t.system.world.reconciler).connected
      ≡ (may_report t.system.place && has_spawned t.session.actions)
unfolding new_reconciler
status-has_spawned api lo hi k v baked c initial version moves t e =
    (reachable-Inv k v baked api lo hi (new_reconciler c initial version) moves t refl e).told

-- However the threads interleave, the connect loop never logs `session_ended`: a session that
-- returns no error has found its context ended, which the loop then finds too.
pub session_ended-never :
    {Position Schema : Type 0} (api : Api) (lo hi : Duration) (k : Constants) (v : ℕ)
    (baked : Protocol Schema) (c : Client) (initial version : Text) (moves : List (Move Position))
    (t : Threads Position)
    → run api lo hi k v baked moves (started (new_reconciler c initial version) lo) ≡ some t
    → count is_session_ended t.system.done ≡ 0
unfolding new_reconciler
session_ended-never api lo hi k v baked c initial version moves t e =
    (reachable-Inv k v baked api lo hi (new_reconciler c initial version) moves t refl e).quiet
