-- ===== src/Bot/Backoff/Sequence.antt =====
-- How far `backoff` and `jitter` go, and the sequence of delays that failures make.
use minecraft_afk_bot.Bot.Backoff.{Duration, stable_session, backoff, Int63n, jitter}
use minecraft_afk_bot.Prelude.Int.{pos, ◌≤ℤ◌, leb_ℤ, scale64-pos, add64-pos}
use native.Mathlib.Decide.{dec_le}
use native.Mathlib.Nat.{pow-suc}
use minecraft_afk_bot.Prelude.{
  ℕ, zero, suc, ◌+◌, ◌*◌, ◌/◌, ◌^◌, ◌≤◌, ◌<◌, min, ◌≡◌, false, List, [], ◌∷◌, ap, ◌∙◌, length, All,
  arith, if◌then◌else◌,
}

-- While a delay is below 2 ^ 62 ns its double does not wrap around: a stable session resets the
-- delay to the floor, and any other doubles it up to the ceiling.
pub backoff_lem :
    (c lo hi : ℕ) (lasted : Duration)
    → c < 2 ^ 62
    → backoff (pos c) lasted (pos lo) (pos hi)
      ≡ (if leb_ℤ stable_session lasted then pos lo else pos (min (2 * c) hi))
unfolding backoff
backoff_lem c lo hi lasted h = ground (arith, scale64-pos c 2 (omega arith) (omega arith))

-- The delay after sessions that lasted so long, one after the other.
abbrev pub delay_after : ℕ → ℕ → Duration → List Duration → Duration
delay_after lo hi d [] = d
delay_after lo hi d (lasted ∷ more) = delay_after lo hi (backoff d lasted (pos lo) (pos hi)) more

abbrev pub IsShort : Duration → Type 0
IsShort lasted = leb_ℤ stable_session lasted ≡ false

one-le-pow : (k : ℕ) → 1 ≤ 2 ^ k
one-le-pow zero = omega arith
one-le-pow (suc k) = rw (pow-suc 2 k) (omega (arith, one-le-pow k))

min-eq-left : (a b : ℕ) → a ≤ b → min a b ≡ a
min-eq-left a b h = omega arith

min-eq-right : (a b : ℕ) → b ≤ a → min a b ≡ b
min-eq-right a b h = omega arith

cap_twice : (c p hi : ℕ) → 1 ≤ p → min (min (2 * c) hi * p) hi ≡ min (c * (p * 2)) hi
cap_twice c p hi h = elim (dec_le (2 * c) hi) [
  | yes fits ↦ rw (min-eq-left (2 * c) hi fits) (omega arith)
  | no over ↦
      let big : hi ≤ hi * p = grind arith in
      let bigger : 2 * c ≤ 2 * c * p = grind arith in
      rw (min-eq-right (2 * c) hi (omega arith)) (omega arith)
]

-- From a delay within the ceiling, each session that is not stable doubles it, up to the ceiling:
-- after k of them it is the least of c * 2 ^ k and the ceiling. Nothing wraps around.
pub delay_after-short :
    (lo hi c : ℕ) (sessions : List Duration)
    → hi < 2 ^ 62
    → c ≤ hi
    → All IsShort sessions
    → delay_after lo hi (pos c) sessions ≡ pos (min (c * 2 ^ length sessions) hi)
delay_after-short lo hi c [] h le all = ap pos (omega arith)
delay_after-short lo hi c (lasted ∷ more) h le (short, all) =
    let doubled = backoff_lem c lo hi lasted (omega arith) in
    let rest = delay_after-short lo hi (min (2 * c) hi) more h (omega arith) all in
    let exact = cap_twice c (2 ^ length more) hi (one-le-pow (length more)) in
    rw (doubled, short) (rest ∙ ap pos (rw (pow-suc 2 (length more)) exact))

-- A delay in the range stays in it, however long the session lasted.
pub backoff_bounds :
    (c lo hi : ℕ) (lasted : Duration)
    → lo ≤ c
    → c ≤ hi
    → hi < 2 ^ 62
    → (pos lo ≤ℤ backoff (pos c) lasted (pos lo) (pos hi))
      × (backoff (pos c) lasted (pos lo) (pos hi) ≤ℤ pos hi)
backoff_bounds c lo hi lasted l h top = rw (backoff_lem c lo hi lasted (omega arith)) (ground arith)

-- The documented contract of `rand.Int63n`.
abbrev pub IsInt63n : Int63n → Type 0
IsInt63n int63n = (n : ℕ) → int63n (n + 1) ≤ n

-- The wait is between half the delay, rounded down, and the whole of it.
pub jitter_bounds :
    (int63n : Int63n) (d : ℕ)
    → IsInt63n int63n
    → d < 2 ^ 63
    → (pos (d / 2) ≤ℤ jitter int63n (pos d)) × (jitter int63n (pos d) ≤ℤ pos d)
unfolding jitter
jitter_bounds int63n d legal h =
    ground
      (arith, legal (d / 2), add64-pos (d / 2) (int63n (d / 2 + 1)) (omega (arith, legal (d / 2))))
