-- ===== src/Prelude/Int.antt =====
-- Go's signed integers over the native numbers: ℤ, its order, and the wrap-around of an `int64`.
use Prim.Native.Nat.{ℕ, suc, ◌+◌, ◌-◌, ◌*◌, ◌%◌, ◌^◌, ◌≤◌, ◌<◌}
use mathlib.Core.Path.{◌≡◌}
use mathlib.Core.Bool.{Bool, false}
use native.Mathlib.Omega.{arith}
use minecraft_afk_bot.Prelude.Tests.{ltb, leb, ◌==◌, if◌then◌else◌}

-- `negsuc n` is -(n + 1).
pub data ℤ : Type 0 where
  pos : ℕ → ℤ
  negsuc : ℕ → ℤ

abbrev pub pos_part : ℤ → ℕ
pos_part (pos n) = n
pos_part (negsuc n) = 0

abbrev pub neg_part : ℤ → ℕ
neg_part (pos n) = 0
neg_part (negsuc n) = suc n

infix 50 ◌≤ℤ◌
abbrev pub ◌≤ℤ◌ : ℤ → ℤ → Type 0
a ≤ℤ b = pos_part a + neg_part b ≤ pos_part b + neg_part a

abbrev pub leb_ℤ : ℤ → ℤ → Bool
leb_ℤ a b = leb (pos_part a + neg_part b) (pos_part b + neg_part a)

abbrev pub ltb_ℤ : ℤ → ℤ → Bool
ltb_ℤ a b = ltb (pos_part a + neg_part b) (pos_part b + neg_part a)

-- The int64 that a 64-bit pattern stands for.
unfoldable pub of_bits : ℕ → ℤ
of_bits w = if ltb w (2 ^ 63) then pos w else negsuc (2 ^ 64 - 1 - w)

-- The 64-bit pattern of an integer.
unfoldable pub to_bits : ℤ → ℕ
to_bits (pos n) = n % 2 ^ 64
to_bits (negsuc n) = 2 ^ 64 - 1 - n % 2 ^ 64

-- `a * k` on int64, for a constant `k` that is not negative: the product wraps around.
unfoldable pub scale64 : ℤ → ℕ → ℤ
unfolding of_bits to_bits
scale64 a k = of_bits (to_bits a * k % 2 ^ 64)

-- `a + b` on int64.
unfoldable pub add64 : ℤ → ℤ → ℤ
unfolding of_bits to_bits
add64 a b = of_bits ((to_bits a + to_bits b) % 2 ^ 64)

-- A product that fits is exact.
pub scale64-pos : (n k : ℕ) → n < 2 ^ 63 → n * k < 2 ^ 63 → scale64 (pos n) k ≡ pos (n * k)
unfolding scale64
scale64-pos n k hn h = ground arith

-- A sum that fits is exact.
pub add64-pos : (a b : ℕ) → a + b < 2 ^ 63 → add64 (pos a) (pos b) ≡ pos (a + b)
unfolding add64
add64-pos a b h = ground arith

-- Go's `==` on integers.
abbrev pub int_eq : ℤ → ℤ → Bool
int_eq (pos a) (pos b) = a == b
int_eq (negsuc a) (negsuc b) = a == b
int_eq _ _ = false
