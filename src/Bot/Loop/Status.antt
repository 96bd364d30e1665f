-- ===== src/Bot/Loop/Status.antt =====
-- What the gate is told, what is released, and what ends the loop.
use minecraft_afk_bot.Bot.Backoff.{Duration}
use minecraft_afk_bot.Bot.Loop.{
  Action, log, sleep, admit, connect, release, connected, Round, Loop, announce, log_end, settle,
  attempt, round, run, start, of_milliseconds, run_connect_loop,
}
use minecraft_afk_bot.Prelude.{
  ℕ, ap, zero, suc, ◌≡◌, refl, Bool, true, false, not, ◌&&◌, ◌||◌, List, [], ◌∷◌, ◌++◌, Option,
  none, some, ◌∙◌, arith,
}

abbrev pub is_none : Option Loop → Bool
is_none none = true
is_none (some s) = false

-- The waits among some actions.
abbrev pub sleeps : List Action → List Duration
sleeps [] = []
sleeps (sleep d ∷ actions) = d ∷ sleeps actions
sleeps (_ ∷ actions) = sleeps actions

sleeps-announce : (n : ℕ) (rest : List Action) → sleeps (announce n ++ rest) ≡ sleeps rest
unfolding announce
sleeps-announce zero rest = refl
sleeps-announce (suc n) rest = sleeps-announce n rest

-- What the gate and the sessions have been told after some actions.
pub record Ledger : Type 0 where
  -- the last argument of `gate.Connected`
  pub reported : Bool
  -- a session is admitted and not yet released
  pub held : Bool
  -- every call came in its place: `admit` and `sleep` with nothing held and nothing reported,
  -- `connect` and `release` of a held session, `connected true` only while one is held
  pub in_order : Bool

abbrev pub observe : Ledger → Action → Ledger
observe l (log s e f) = l
observe l (sleep d) = record l { in_order = l.in_order && not l.held && not l.reported }
observe l (admit b) = record l { held = b; in_order = l.in_order && not l.held && not l.reported }
observe l connect = record l { in_order = l.in_order && l.held }
observe l release = record l { held = false; in_order = l.in_order && l.held && not l.reported }
observe l (connected b) = record l { reported = b; in_order = l.in_order && l.held }

abbrev pub observe_all : Ledger → List Action → Ledger
observe_all l [] = l
observe_all l (a ∷ actions) = observe_all (observe l a) actions

abbrev pub idle : Ledger
idle = record { reported = false; held = false; in_order = true }

pub observe_all-append :
    (l : Ledger) (xs ys : List Action)
    → observe_all l (xs ++ ys) ≡ observe_all (observe_all l xs) ys
observe_all-append l [] ys = refl
observe_all-append l (x ∷ xs) ys = observe_all-append (observe l x) xs ys

-- Whatever the callback reported, the loop takes it back.
observe_all-announce :
    (n : ℕ) (b : Bool) (rest : List Action)
    → observe_all
        (record { reported = b; held = true; in_order = true })
        (announce n ++ connected false ∷ rest)
      ≡ observe_all (record { reported = false; held = true; in_order = true }) rest
unfolding announce
observe_all-announce zero b rest = refl
observe_all-announce (suc n) b rest = observe_all-announce n true rest

module _ (min_delay max_delay : Duration) where
  pub settle-idle :
      (s : Loop) (r : Round) → observe_all idle (settle min_delay max_delay s r).0 ≡ idle
  unfolding settle log_end
  settle-idle s r = ground arith

  attempt-idle :
      (s : Loop) (r : Round) → observe_all idle (attempt min_delay max_delay s r).0 ≡ idle
  unfolding attempt
  attempt-idle s r = ground (
    arith,
    settle-idle s r,
    observe_all-announce r.spawns false (release ∷ (settle min_delay max_delay s r).0),
  )

  round-idle : (s : Loop) (r : Round) → observe_all idle (round min_delay max_delay s r).0 ≡ idle
  unfolding round
  round-idle s r = ground (arith, attempt-idle s r)

  run-idle :
      (s : Option Loop) (rs : List Round) → observe_all idle (run min_delay max_delay s rs).0 ≡ idle
  unfolding run
  run-idle none rs = refl
  run-idle (some s) [] = refl
  run-idle (some s) (r ∷ rs) =
      let (actions, next) = round min_delay max_delay s r in
      observe_all-append idle actions (run min_delay max_delay next rs).0
      ∙ rw (round-idle s r) (run-idle next rs)

  -- When a pass makes the function return: the context has ended before the pass, during its wait
  -- or after its session, or the gate has refused. Otherwise the loop goes on.
  pub round-returns :
      (s : Loop) (r : Round)
      → is_none (round min_delay max_delay s r).1
        ≡ (r.done_before || (not s.first && r.done_waiting) || r.refused || r.done_after)
  unfolding round attempt settle
  round-returns s r = ground arith

  sleeps-settle : (s : Loop) (r : Round) → sleeps (settle min_delay max_delay s r).0 ≡ []
  unfolding settle log_end
  sleeps-settle s r = ground arith

  sleeps-first :
      (s : Loop) (r : Round) → s.first ≡ true → sleeps (round min_delay max_delay s r).0 ≡ []
  unfolding round attempt
  sleeps-first s r h = ground (
    arith,
    sleeps-settle s r,
    sleeps-announce r.spawns (connected false ∷ release ∷ (settle min_delay max_delay s r).0),
  )

  parked-start :
      (s : Loop) (r : Round)
      → r.session_done ≡ true
      → is_none (round min_delay max_delay s r).1 ≡ false
      → (round min_delay max_delay s r).1 ≡ some (start min_delay)
  unfolding round attempt settle start
  parked-start s r parked on = ground arith

  -- After a session that was parked, whatever came before it, the loop goes on as it would from its
  -- start: with the delay at its floor, and with no wait before the next pass.
  pub parked_restarts :
      (s : Loop) (r next : Round) (rs : List Round)
      → r.session_done ≡ true
      → is_none (round min_delay max_delay s r).1 ≡ false
      → ((run min_delay max_delay (some s) (r ∷ rs)).1
          ≡ (run min_delay max_delay (some (start min_delay)) rs).1)
        × ((run min_delay max_delay (some s) (r ∷ rs)).0
            ≡ (round min_delay max_delay s r).0
              ++ (run min_delay max_delay (some (start min_delay)) rs).0)
        × (sleeps (round min_delay max_delay (start min_delay) next).0 ≡ [])
  unfolding run
  parked_restarts s r next rs parked on =
      let again = parked-start s r parked on in
      (
        ap (λ o. (run min_delay max_delay o rs).1) again,
        ap (λ o. (round min_delay max_delay s r).0 ++ (run min_delay max_delay o rs).0) again,
        sleeps-first (start min_delay) next (unfold start in refl),
      )

-- The gate and the sessions after any run of the loop, returned or not: nothing is reported as
-- connected, no session is held, and every call came in its place.
pub run_connect_loop-idle :
    (min_ms max_ms : ℕ) (rs : List Round)
    → observe_all idle (run_connect_loop min_ms max_ms rs).0 ≡ idle
unfolding run_connect_loop
run_connect_loop-idle min_ms max_ms rs =
    run-idle (of_milliseconds min_ms) (of_milliseconds max_ms)
      (some (start (of_milliseconds min_ms))) rs
