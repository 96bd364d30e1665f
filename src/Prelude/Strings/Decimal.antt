-- ===== src/Prelude/Strings/Decimal.antt =====
-- `strconv.ParseUint`, `ParseInt` and `Atoi` in base ten. The callers only test whether an error
-- came back, so an error is `none`.
use Prim.Native.Nat.{ℕ, zero, suc, ◌+◌, ◌-◌, ◌*◌, ◌^◌, ◌/◌, ◌%◌}
use mathlib.Core.Bool.{Bool, ◌&&◌}
use mathlib.Core.List.{List, [], ◌∷◌}
use mathlib.Core.Option.{Option, none, some}
use minecraft_afk_bot.Prelude.Int.{ℤ, pos, negsuc}
use minecraft_afk_bot.Prelude.Tests.{leb, ltb, ◌==◌, if◌then◌else◌}

unfoldable pub is_digit : ℕ → Bool
is_digit c = leb b'0' c && leb c b'9'

-- The number that a run of digits spells behind `n`; `none` at another byte.
unfoldable pub scan_digits : ℕ → List ℕ → Option ℕ
unfolding is_digit
scan_digits n [] = some n
scan_digits n (c ∷ s) =
    let rest = scan_digits (n * 10 + (c - b'0')) s in if is_digit c then rest else none

abbrev bounded : ℕ → Option ℕ → Option ℕ
bounded limit none = none
bounded limit (some n) = if leb n limit then some n else none

-- `ParseUint(s, 10, w)`, for a largest value of `limit`: an empty text is a syntax error.
unfoldable pub parse_uint : ℕ → List ℕ → Option ℕ
unfolding scan_digits
parse_uint limit [] = none
parse_uint limit (c ∷ s) = bounded limit (scan_digits 0 (c ∷ s))

abbrev positive : Option ℕ → Option ℤ
positive none = none
positive (some n) = some (pos n)

abbrev negative : Option ℕ → Option ℤ
negative none = none
negative (some zero) = some (pos 0)
negative (some (suc n)) = some (negsuc n)

-- `ParseInt(s, 10, w)` with 2 ^ (w - 1) given as `cutoff`: one sign is allowed.
unfoldable pub parse_int : ℕ → List ℕ → Option ℤ
unfolding parse_uint
parse_int cutoff [] = none
parse_int cutoff (c ∷ s) =
    if c == b'+'
    then positive (parse_uint (cutoff - 1) s)
    else if c == b'-'
    then negative (parse_uint cutoff s)
    else positive (parse_uint (cutoff - 1) (c ∷ s))

-- `Atoi` on a 64-bit platform.
unfoldable pub atoi : List ℕ → Option ℤ
unfolding parse_int
atoi = parse_int (2 ^ 63)

-- The digits of `n` in front of `behind`, one for each unit of fuel at most.
unfoldable pub print_from : ℕ → ℕ → List ℕ → List ℕ
print_from zero n behind = behind
print_from (suc fuel) n behind =
    let last = (b'0' + n % 10) ∷ behind in
    let longer = print_from fuel (n / 10) last in if ltb n 10 then last else longer

-- `%d` of a number that is not negative. The fuel exceeds the number of digits.
unfoldable pub itoa : ℕ → List ℕ
unfolding print_from
itoa n = print_from (suc n) n []
