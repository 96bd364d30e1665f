-- ===== src/Bot/Loop.antt =====
-- `runConnectLoop` of cmd/bot/main.go. What happens around the loop in one pass (the context, the
-- gate, the session, the clock, the random number) is a `Round`; what the loop does is a list of
-- actions. A pass returns the loop's variables, or `none` where the function returns.
pub mod Waits
pub mod Status
pub mod Failures
use minecraft_afk_bot.Bot.Backoff.{Duration, millisecond, backoff, Int63n, jitter}
use minecraft_afk_bot.Logging.{Severity, severity_info, severity_error, Fields, text, int}
use minecraft_afk_bot.Prelude.Int.{ℤ, pos, negsuc, scale64}
use minecraft_afk_bot.Prelude.Strings.{codes}
use minecraft_afk_bot.Prelude.{
  Text, ℕ, zero, suc, ◌/◌, ◌+◌, Bool, true, false, List, [], ◌∷◌, ◌++◌, Option, none, some,
  if◌then◌else◌,
}

pub data Action : Type 0 where
  log : Severity → Text → Fields → Action
  -- `time.After(wait)` in the `select`
  sleep : Duration → Action
  -- `gate.Admit`, and whether a session came back
  admit : Bool → Action
  connect release : Action
  connected : Bool → Action

-- One pass of the loop, as its surroundings choose it.
pub record Round : Type 0 where
  -- `ctx.Err() != nil` at the head of the pass
  pub done_before : Bool
  pub int63n : Int63n
  -- the `select` took `ctx.Done()`
  pub done_waiting : Bool
  -- `gate.Admit` returned an error
  pub refused : Bool
  -- how often `connect` called `spawned`
  pub spawns : ℕ
  -- the error of `connect`, as a text
  pub err : Option Text
  pub lasted : Duration
  -- `sess.Err() != nil` once `connect` has returned
  pub session_done : Bool
  -- `ctx.Err() != nil` after the release
  pub done_after : Bool

pub record Loop : Type 0 where
  pub delay : Duration
  pub first : Bool

abbrev negated : ℕ → ℤ
negated zero = pos 0
negated (suc n) = negsuc n

-- `Duration.Milliseconds`; Go's division rounds towards zero.
unfoldable pub milliseconds : Duration → ℤ
milliseconds (pos n) = pos (n / millisecond)
milliseconds (negsuc n) = negated (suc n / millisecond)

abbrev pub lasted_field : Duration → Fields
lasted_field lasted = (codes "session_lasted_ms", int (milliseconds lasted)) ∷ []

-- The calls that `connect` makes of its callback.
unfoldable pub announce : ℕ → List Action
announce zero = []
announce (suc n) = connected true ∷ announce n

-- How an ended session is logged, unless it was parked.
unfoldable pub log_end : Option Text → Duration → Action
log_end none lasted = log severity_info (codes "session_ended") (lasted_field lasted)
log_end (some e) lasted =
    log severity_error (codes "session_error") ((codes "error", text e) ∷ lasted_field lasted)

module _ (min_delay max_delay : Duration) where
  -- From the release to the end of the pass.
  unfoldable pub settle : Loop → Round → List Action × Option Loop
  unfolding log_end
  settle s r =
      if r.done_after
      then ([], none)
      else if r.session_done
      then (
        log severity_info (codes "session_parked") (lasted_field r.lasted) ∷ [],
        some (record { delay = min_delay; first = true }),
      )
      else (
        log_end r.err r.lasted ∷ [],
        some (record { delay = backoff s.delay r.lasted min_delay max_delay; first = false }),
      )

  -- From `gate.Admit`.
  unfoldable pub attempt : Loop → Round → List Action × Option Loop
  unfolding settle announce
  attempt s r =
      if r.refused
      then (admit false ∷ [], none)
      else let (ended, next) = settle s r in
        (admit true ∷ connect ∷ (announce r.spawns ++ (connected false ∷ release ∷ ended)), next)

  unfoldable pub round : Loop → Round → List Action × Option Loop
  unfolding attempt jitter
  round s r =
      let wait = jitter r.int63n s.delay in
      let waiting =
        log severity_info (codes "reconnecting") ((codes "in_ms", int (milliseconds wait)) ∷ [])
        ∷ sleep wait
        ∷ [] in
      let (rest, next) = attempt s r in
      if r.done_before
      then ([], none)
      else if s.first
      then (rest, next)
      else if r.done_waiting
      then (waiting, none)
      else (waiting ++ rest, next)

  -- The `for`: the actions of the passes, and the variables after the last; `none` on either side is
  -- a function that has returned.
  unfoldable pub run : Option Loop → List Round → List Action × Option Loop
  run none rs = ([], none)
  run (some s) [] = ([], some s)
  run (some s) (r ∷ rs) =
      let (actions, next) = round s r in let (more, last) = run next rs in (actions ++ more, last)

-- The variables before the first pass.
unfoldable pub start : Duration → Loop
start min_delay = record { delay = min_delay; first = true }

-- `time.Duration(ms) * time.Millisecond`.
unfoldable pub of_milliseconds : ℕ → Duration
of_milliseconds ms = scale64 (pos ms) millisecond

-- `runConnectLoop` with the delays of a configuration, over the passes that happen.
unfoldable pub run_connect_loop : ℕ → ℕ → List Round → List Action × Option Loop
unfolding run start of_milliseconds
run_connect_loop reconnect_min_ms reconnect_max_ms =
    let min_delay = of_milliseconds reconnect_min_ms in
    let max_delay = of_milliseconds reconnect_max_ms in
    run min_delay max_delay (some (start min_delay))
