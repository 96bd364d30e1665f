-- ===== src/Config/Numbers.antt =====
-- How the numeric settings are read.
use minecraft_afk_bot.Config.{
  Name, Environment, Error, not_an_integer, not_in_range, not_positive, too_large, Result, ok, err,
  check_uint8, positive_uint8, check_int, positive_int,
}
use minecraft_afk_bot.Prelude.Int.{ℤ, pos, negsuc}
use minecraft_afk_bot.Prelude.Strings.{trim_space, atoi, parse_uint}
use minecraft_afk_bot.Prelude.Strings.Numerals.{IsNumeral, parse_uint-IsNumeral, atoi-IsNumeral}
use minecraft_afk_bot.Prelude.{
  Text, ℕ, ◌^◌, ◌≤◌, ◌<◌, ◌≡◌, refl, Bool, true, false, Option, none, some, leb, ltb, is_empty,
  arith, ◌==◌, if◌then◌else◌,
}

-- What a caller relies on: a value, if there is one, meets the condition.
pub data Ensures {A : Type 0} (P : A → Type 0) : Result A → Type 0 where
  holds : {a : A} → P a → Ensures P (ok a)
  fails : {e : Error} → Ensures P (err e)

abbrev pub Between : ℕ → ℕ → Type 0
Between max n = (1 ≤ n) × (n ≤ max)

pub Ensures-if :
    {A : Type 0} {P : A → Type 0} (b : Bool) (x y : Result A)
    → (b ≡ true → Ensures P x)
    → (b ≡ false → Ensures P y)
    → Ensures P (if b then x else y)
Ensures-if true x y hx hy = hx refl
Ensures-if false x y hx hy = hy refl

check_uint8-Between :
    (env : Environment) (name : Name) (max : ℕ) (raw : Text) (o : Option ℕ)
    → Ensures (Between max) (check_uint8 env name max raw o)
unfolding check_uint8
check_uint8-Between env name max raw none = fails
check_uint8-Between env name max raw (some v) =
    Ensures-if (v == 0) _ _ (λ z. fails)
      (λ p. Ensures-if (ltb max v) _ _ (λ l. fails) (λ g. holds (ground arith)))

-- Whatever the text, a value that `positiveUint8` accepts is positive and within its maximum; so is
-- the default, if it was.
pub positive_uint8-Between :
    (env : Environment) (name : Name) (def max : ℕ)
    → Between max def
    → Ensures (Between max) (positive_uint8 env name def max)
unfolding positive_uint8
positive_uint8-Between env name def max d =
    Ensures-if (is_empty (trim_space (env name))) _ _ (λ e. holds d)
      (λ e.
        check_uint8-Between env name max (trim_space (env name))
          (parse_uint 255 (trim_space (env name))))

check_int-Between :
    (env : Environment) (name : Name) (max : ℕ) (raw : Text) (o : Option ℤ)
    → Ensures (Between max) (check_int env name max raw o)
unfolding check_int
check_int-Between env name max raw none = fails
check_int-Between env name max raw (some (negsuc n)) = fails
check_int-Between env name max raw (some (pos n)) =
    Ensures-if (leb n 0) _ _ (λ z. fails)
      (λ p. Ensures-if (ltb max n) _ _ (λ l. fails) (λ g. holds (ground arith)))

-- The same of `positiveInt`.
pub positive_int-Between :
    (env : Environment) (name : Name) (def max : ℕ)
    → Between max def
    → Ensures (Between max) (positive_int env name def max)
unfolding positive_int
positive_int-Between env name def max d =
    Ensures-if (is_empty (trim_space (env name))) _ _ (λ e. holds d)
      (λ e. check_int-Between env name max (trim_space (env name)) (atoi (trim_space (env name))))

-- Every numeral that the view distance may be set to, and its outcome: 0 is refused, a number up
-- to the maximum is read exactly, one above it that fits a byte is refused as too large, and one
-- that does not fit a byte is refused unread. None wraps around to another value.
pub positive_uint8-numeral :
    (env : Environment) (name : Name) (def max n : ℕ)
    → IsNumeral (trim_space (env name)) n
    → max ≤ 255
    → positive_uint8 env name def max ≡ (
        if leb n max
        then (if n == 0 then err (not_positive name (pos 0)) else ok n)
        else if leb n 255
        then err (too_large name max (pos n))
        else err (not_in_range name max (trim_space (env name))))
unfolding positive_uint8
positive_uint8-numeral env name def max n h top =
    rw (h.some_digit, parse_uint-IsNumeral 255 n (trim_space (env name)) h) (ground arith)

-- The same of an `int` setting, which is read at 64 bits.
pub positive_int-numeral :
    (env : Environment) (name : Name) (def max n : ℕ)
    → IsNumeral (trim_space (env name)) n
    → max < 2 ^ 63
    → positive_int env name def max ≡ (
        if leb n max
        then (if n == 0 then err (not_positive name (pos 0)) else ok n)
        else if ltb n (2 ^ 63)
        then err (too_large name max (pos n))
        else err (not_an_integer name (trim_space (env name))))
unfolding positive_int
positive_int-numeral env name def max n h top =
    rw (h.some_digit, atoi-IsNumeral n (trim_space (env name)) h) (ground arith)
