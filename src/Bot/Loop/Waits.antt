-- ===== src/Bot/Loop/Waits.antt =====
-- How long the loop waits.
use minecraft_afk_bot.Bot.Backoff.{Duration, backoff, Int63n, jitter}
use minecraft_afk_bot.Bot.Backoff.Sequence.{IsInt63n, backoff_bounds, jitter_bounds}
use minecraft_afk_bot.Bot.Loop.{
  Action, sleep, release, connected, Round, Loop, announce, settle, attempt, round, run, start,
  of_milliseconds, run_connect_loop,
}
use minecraft_afk_bot.Prelude.Int.{pos, negsuc, scale64-pos, ◌≤ℤ◌}
use minecraft_afk_bot.Prelude.{
  ℕ, ◌*◌, zero, suc, ◌/◌, ◌^◌, ◌≤◌, ◌<◌, ◌≡◌, false, List, [], ◌∷◌, Option, none, some, All,
  All-append, arith,
}

-- A wait lies between half the floor and the ceiling.
abbrev pub WaitsWithin : ℕ → ℕ → Action → Type 0
WaitsWithin lo hi (sleep d) = (pos (lo / 2) ≤ℤ d) × (d ≤ℤ pos hi)
WaitsWithin lo hi _ = Unit

-- A duration between the floor and the ceiling.
abbrev pub Within : ℕ → ℕ → Duration → Type 0
Within lo hi d = (pos lo ≤ℤ d) × (d ≤ℤ pos hi)

abbrev pub Next : ℕ → ℕ → Option Loop → Type 0
Next lo hi none = Unit
Next lo hi (some s) = Within lo hi s.delay

module _ (lo hi : ℕ) where
  announce-WaitsWithin : (n : ℕ) → All (WaitsWithin lo hi) (announce n)
  unfolding announce
  announce-WaitsWithin zero = tt
  announce-WaitsWithin (suc n) = (tt, announce-WaitsWithin n)

module _ (lo hi : ℕ) (order : lo ≤ hi) (top : hi < 2 ^ 62) where
  backoff-Within :
      (d lasted : Duration) → Within lo hi d → Within lo hi (backoff d lasted (pos lo) (pos hi))
  backoff-Within (pos c) lasted (l, h) =
      backoff_bounds c lo hi lasted (omega arith) (omega arith) top
  backoff-Within (negsuc n) lasted (l, h) = absurd (omega arith)

  pub jitter-Within :
      (int63n : Int63n) (d : Duration)
      → IsInt63n int63n
      → Within lo hi d
      → WaitsWithin lo hi (sleep (jitter int63n d))
  jitter-Within int63n (pos c) legal (l, h) =
      let b = jitter_bounds int63n c legal (omega arith) in wider (jitter int63n (pos c)) b.0 b.1
    where
      wider : (w : Duration) → pos (c / 2) ≤ℤ w → w ≤ℤ pos c → WaitsWithin lo hi (sleep w)
      wider w p q = (omega arith, omega arith)
  jitter-Within int63n (negsuc n) legal (l, h) = absurd (omega arith)

  pub settle-Within :
      (s : Loop) (r : Round)
      → Within lo hi s.delay
      → let (actions, next) = settle (pos lo) (pos hi) s r in
        All (WaitsWithin lo hi) actions × Next lo hi next
  unfolding settle
  settle-Within s r h = ground (arith, backoff-Within s.delay r.lasted h)

  attempt-Within :
      (s : Loop) (r : Round)
      → Within lo hi s.delay
      → let (actions, next) = attempt (pos lo) (pos hi) s r in
        All (WaitsWithin lo hi) actions × Next lo hi next
  unfolding attempt
  attempt-Within s r h =
      let (ended, next) = settle-Within s r h in
      ground (
        arith,
        ended,
        next,
        All-append (WaitsWithin lo hi) (announce r.spawns)
            (connected false ∷ release ∷ (settle (pos lo) (pos hi) s r).0)
            (announce-WaitsWithin lo hi r.spawns) (tt, (tt, ended)),
      )

  round-Within :
      (s : Loop) (r : Round)
      → IsInt63n r.int63n
      → Within lo hi s.delay
      → let (actions, next) = round (pos lo) (pos hi) s r in
        All (WaitsWithin lo hi) actions × Next lo hi next
  unfolding round
  round-Within s r legal h =
      ground (arith, attempt-Within s r h, jitter-Within r.int63n s.delay legal h)

  run-Within :
      (s : Option Loop) (rs : List Round)
      → All (λ r. IsInt63n r.int63n) rs
      → Next lo hi s
      → All (WaitsWithin lo hi) (run (pos lo) (pos hi) s rs).0
  unfolding run
  run-Within none rs legal h = tt
  run-Within (some s) [] legal h = tt
  run-Within (some s) (r ∷ rs) (legal, more) h =
      let (waits, next) = round-Within s r legal h in
      All-append (WaitsWithin lo hi) (round (pos lo) (pos hi) s r).0
        (run (pos lo) (pos hi) (round (pos lo) (pos hi) s r).1 rs).0 waits
        (run-Within (round (pos lo) (pos hi) s r).1 rs more next)

pub of_milliseconds-pos : (ms : ℕ) → ms ≤ 3_600_000 → of_milliseconds ms ≡ pos (ms * 1_000_000)
unfolding of_milliseconds
of_milliseconds-pos ms h = scale64-pos ms 1_000_000 (omega arith) (omega arith)

-- With delays that the configuration admits, every wait of the loop is at least half the floor and
-- at most the ceiling, whatever happens around it.
pub run_connect_loop-WaitsWithin :
    (min_ms max_ms : ℕ) (rs : List Round)
    → min_ms ≤ max_ms
    → max_ms ≤ 3_600_000
    → All (λ r. IsInt63n r.int63n) rs
    → All
        (WaitsWithin (min_ms * 1_000_000) (max_ms * 1_000_000))
        (run_connect_loop min_ms max_ms rs).0
unfolding run_connect_loop start
run_connect_loop-WaitsWithin min_ms max_ms rs order top legal =
    rw (of_milliseconds-pos min_ms (omega arith), of_milliseconds-pos max_ms top)
      (run-Within (min_ms * 1_000_000) (max_ms * 1_000_000) (omega arith) (omega arith)
        (some (start (pos (min_ms * 1_000_000)))) rs legal (omega arith, omega arith))
