-- ===== src/Prelude/Strings/Numerals.antt =====
-- What the parsers accept: a text of digits has a value, and is read as that value or refused as
-- too large. White space around a text is trimmed and none is lost inside.
use minecraft_afk_bot.Prelude.Int.{pos}
use minecraft_afk_bot.Prelude.Lists.{All, is_empty}
use minecraft_afk_bot.Prelude.Strings.Decimal.{
  scan_digits, parse_uint, parse_int, atoi, print_from, itoa,
}
use minecraft_afk_bot.Prelude.Strings.{is_space, drop_while, trim_space}
use minecraft_afk_bot.Prelude.Tests.{leb, ltb, Bool-cases, if◌then◌else◌}
use Prim.Native.Nat.{ℕ, ◌+◌, ◌-◌, ◌*◌, ◌^◌, ◌/◌, ◌%◌, ◌≤◌, ◌<◌, suc, zero}
use mathlib.Core.Bool.{false}
use mathlib.Core.List.{List, [], ◌∷◌, reverse, reverse_aux, reverse-reverse}
use mathlib.Core.Logic.{inl, inr}
use mathlib.Core.Option.{none, some}
use mathlib.Core.Path.{◌≡◌, refl, ◌∙◌, ap}
use native.Mathlib.Omega.{arith}

-- The number that digits spell behind `n`.
abbrev pub value : ℕ → List ℕ → ℕ
value n [] = n
value n (c ∷ s) = value (n * 10 + (c - b'0')) s

abbrev pub IsDigit : ℕ → Type 0
IsDigit c = (b'0' ≤ c) × (c ≤ b'9')

-- A numeral for `n`: one digit or more, leading zeros allowed.
pub record IsNumeral (s : List ℕ) (n : ℕ) : Type 0 where
  pub digits : All IsDigit s
  pub some_digit : is_empty s ≡ false
  pub spells : value 0 s ≡ n

scan_digits-value : (n : ℕ) (s : List ℕ) → All IsDigit s → scan_digits n s ≡ some (value n s)
unfolding scan_digits
scan_digits-value n [] h = refl
scan_digits-value n (c ∷ s) (d, h) = ground (arith, scan_digits-value (n * 10 + (c - b'0')) s h)

-- A numeral is read as its number up to the limit, and refused beyond it.
pub parse_uint-IsNumeral :
    (limit n : ℕ) (s : List ℕ)
    → IsNumeral s n
    → parse_uint limit s ≡ (if leb n limit then some n else none)
unfolding parse_uint
parse_uint-IsNumeral limit n [] h = absurd (cc (h.some_digit))
parse_uint-IsNumeral limit n (c ∷ s) h = rw (scan_digits-value 0 (c ∷ s) h.digits) (rw h.spells)

pub parse_int-IsNumeral :
    (cutoff n : ℕ) (s : List ℕ)
    → IsNumeral s n
    → parse_int cutoff s ≡ (if leb n (cutoff - 1) then some (pos n) else none)
unfolding parse_int
parse_int-IsNumeral cutoff n [] h = absurd (cc (h.some_digit))
parse_int-IsNumeral cutoff n (c ∷ s) h =
    ground (arith, parse_uint-IsNumeral (cutoff - 1) n (c ∷ s) h, h.digits)

-- A number that was read is within the limits of its width.
pub parse_uint-le : (limit n : ℕ) (s : List ℕ) → parse_uint limit s ≡ some n → n ≤ limit
unfolding parse_uint
parse_uint-le limit n [] h = cc
parse_uint-le limit n (c ∷ s) h = ground arith

pub parse_int-le : (cutoff n : ℕ) (s : List ℕ) → parse_int cutoff s ≡ some (pos n) → n ≤ cutoff - 1
unfolding parse_int
parse_int-le cutoff n [] h = cc
parse_int-le cutoff n (c ∷ s) h =
    ground (arith, parse_uint-le (cutoff - 1) n (c ∷ s), parse_uint-le (cutoff - 1) n s)

abbrev pub IsInk : ℕ → Type 0
IsInk c = is_space c ≡ false

drop_while-IsInk : (s : List ℕ) → All IsInk s → drop_while is_space s ≡ s
unfolding drop_while
drop_while-IsInk [] h = refl
drop_while-IsInk (c ∷ s) (i, h) = rw i

All-reverse_aux {ℓ} : (P : ℕ → Type ℓ) (s t : List ℕ) → All P s → All P t → All P (reverse_aux s t)
All-reverse_aux P [] t hs ht = ht
All-reverse_aux P (c ∷ s) t (h, hs) ht = All-reverse_aux P s (c ∷ t) hs (h, ht)

-- A text with no white space in it is not changed by trimming.
pub trim_space-IsInk : (s : List ℕ) → All IsInk s → trim_space s ≡ s
unfolding trim_space
trim_space-IsInk s h =
    ap (λ t. reverse (drop_while is_space (reverse t))) (drop_while-IsInk s h)
    ∙ ap reverse (drop_while-IsInk (reverse s) (All-reverse_aux IsInk s [] h tt))
    ∙ reverse-reverse s

IsDigit-IsInk : (s : List ℕ) → All IsDigit s → All IsInk s
IsDigit-IsInk [] h = tt
IsDigit-IsInk (c ∷ s) (d, h) = (unfold is_space in ground arith, IsDigit-IsInk s h)

pub trim_space-IsDigit : (s : List ℕ) → All IsDigit s → trim_space s ≡ s
trim_space-IsDigit s h = trim_space-IsInk s (IsDigit-IsInk s h)

unit_digit : (n : ℕ) → n < 10 → 0 * 10 + (b'0' + n % 10 - b'0') ≡ n
unit_digit n h = omega arith

last_digit : (n : ℕ) → n / 10 * 10 + (b'0' + n % 10 - b'0') ≡ n
last_digit n = omega arith

value-print_from :
    (fuel n : ℕ) (behind : List ℕ)
    → n < fuel
    → All IsDigit behind
    → (value 0 (print_from fuel n behind) ≡ value n behind)
      × All IsDigit (print_from fuel n behind)
      × (is_empty (print_from fuel n behind) ≡ false)
unfolding print_from
value-print_from zero n behind h d = absurd (omega arith)
value-print_from (suc fuel) n behind h d = elim (Bool-cases (ltb n 10)) [
  | inl one ↦ rw one (
    ap (λ m. value m behind) (unit_digit n (ground arith)),
    ((omega arith, omega arith), d),
    refl,
  )
  | inr more ↦
      let last : List ℕ = (b'0' + n % 10) ∷ behind in
      let rest =
        value-print_from fuel (n / 10) last (ground arith) ((omega arith, omega arith), d) in
      rw more (rest.0 ∙ ap (λ m. value m behind) (last_digit n), rest.1, rest.2)
]

-- The print of a number is a numeral for it.
pub itoa-IsNumeral : (n : ℕ) → IsNumeral (itoa n) n
unfolding itoa
itoa-IsNumeral n =
    let (spells, digits, some_digit) = value-print_from (suc n) n [] (omega arith) tt in
    record { digits = digits; some_digit = some_digit; spells = spells }

-- The same of `Atoi`.
pub atoi-IsNumeral :
    (n : ℕ) (s : List ℕ) → IsNumeral s n → atoi s ≡ (if ltb n (2 ^ 63) then some (pos n) else none)
unfolding atoi
atoi-IsNumeral n s h = parse_int-IsNumeral (2 ^ 63) n s h ∙ ground arith
