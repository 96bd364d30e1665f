-- ===== src/Bot/Threads.antt =====
-- The whole program between its start and its end, of cmd/bot/main.go: `runConnectLoop` with `session`
-- as its `connect`, the gate, the poller and the watcher. The session takes its steps while the loop
-- is in it, among those of the other threads; its context is the one that the watcher cancels.
pub mod Runs
pub mod Refines
pub mod Held
pub mod Entries
pub mod Places
pub mod Inside
pub mod Connection
pub mod Exits
pub mod Leaves
pub mod Stops
pub mod Enters
pub mod Bounds
use minecraft_afk_bot.Bot.Backoff.{Duration}
use minecraft_afk_bot.Bot.Session.Steps
use minecraft_afk_bot.Bot.Session.Steps.{Stage, over, Progress, Event, entered, begun}
use minecraft_afk_bot.Bot.System
use minecraft_afk_bot.Bot.System.{
  Place, in_session, System, Step, admit_returns, spawn, connect_returns, start_on,
}
use minecraft_afk_bot.Gophertunnel.{Constants}
use minecraft_afk_bot.Mcproto.{Protocol}
use minecraft_afk_bot.Presence.Api.{Api}
use minecraft_afk_bot.Presence.Reconciler.{Reconciler}
use minecraft_afk_bot.Prelude.{ℕ, List, [], ◌∷◌, Option, none, some}

pub record Threads (Position : Type 0) : Type 0 where
  pub system : System
  -- the session that the loop is in, or that it was in last
  pub session : Progress Position

pub data Move (Position : Type 0) : Type 0 where
  -- a step of the loop outside its session, of the gate, of the poller or of the watcher
  beside : Step → Move Position
  -- a step of the session
  inside : Event Position → Move Position
  -- `connect` returns to the loop, after so long
  returns : Duration → Move Position

module _ {Position : Type 0} where
  abbrev pub with_session : Progress Position → Option System → Option (Threads Position)
  with_session p none = none
  with_session p (some s) = some (record { system = s; session = p })

  -- What the session stands for in the loop is not a step beside it.
  unfoldable pub beside_in :
      Api → Duration → Duration → Step → Threads Position → Option (Threads Position)
  beside_in api lo hi spawn t = none
  beside_in api lo hi (connect_returns err lasted) t = none
  beside_in api lo hi admit_returns t =
      with_session begun (System.step api lo hi admit_returns t.system)
  beside_in api lo hi x t = with_session t.session (System.step api lo hi x t.system)

  -- The callback of the loop, where a session's step makes it.
  unfoldable pub call_back : Api → Duration → Duration → Event Position → System → Option System
  call_back api lo hi (entered none xuid) s = System.step api lo hi spawn s
  call_back api lo hi event s = some s

  unfoldable pub stepped :
      Api
      → Duration
      → Duration
      → Event Position
      → System
      → Option (Progress Position)
      → Option (Threads Position)
  unfolding call_back
  stepped api lo hi event s none = none
  stepped api lo hi event s (some p) = with_session p (call_back api lo hi event s)

  unfoldable pub inside_in :
      {Schema : Type 0}
      → Api
      → Duration
      → Duration
      → Constants
      → ℕ
      → Protocol Schema
      → Event Position
      → Place
      → Threads Position
      → Option (Threads Position)
  unfolding stepped
  inside_in api lo hi k v baked event in_session t =
      stepped api lo hi event t.system
        (Steps.step k v baked t.system.world.session_done event t.session)
  inside_in api lo hi k v baked event _ t = none

  unfoldable pub returns_in :
      Api → Duration → Duration → Duration → Stage → Threads Position → Option (Threads Position)
  returns_in api lo hi lasted (over err) t =
      with_session t.session (System.step api lo hi (connect_returns err lasted) t.system)
  returns_in api lo hi lasted _ t = none

module _ {Position Schema : Type 0} (api : Api) (lo hi : Duration) (k : Constants) (v : ℕ)
    (baked : Protocol Schema) where
  -- One step, or `none` where it cannot be taken.
  unfoldable pub step : Move Position → Threads Position → Option (Threads Position)
  unfolding beside_in inside_in returns_in
  step (beside x) t = beside_in api lo hi x t
  step (inside event) t = inside_in api lo hi k v baked event t.system.place t
  step (returns lasted) t = returns_in api lo hi lasted t.session.stage t

  unfoldable pub continue :
      Option (Threads Position)
      → (Threads Position → Option (Threads Position))
      → Option (Threads Position)
  continue none rest = none
  continue (some t) rest = rest t

  unfoldable pub run : List (Move Position) → Threads Position → Option (Threads Position)
  unfolding continue
  run [] t = some t
  run (m ∷ moves) t = continue (step m t) (run moves)

-- The program behind the start of its gate.
unfoldable pub started : {Position : Type 0} → Reconciler → Duration → Threads Position
unfolding start_on
started r min_delay = record { system = start_on r min_delay; session = begun }
