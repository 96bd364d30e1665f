-- ===== src/Prelude/Strings.antt =====
-- Go text as the code points of a valid UTF-8 string, and the functions of `strings` and `strconv`
-- that the program calls.
pub mod Decimal
pub mod Numerals
pub use Decimal.*
use Prim.Native.Char.{code}
use Prim.Native.Nat.{ℕ, zero, suc, ◌+◌, ◌-◌, ◌*◌, ◌^◌}
use Prim.Native.String.{String}
use mathlib.Core.Bool.{Bool, true, false, ◌&&◌, ◌||◌}
use mathlib.Core.Path.{◌≡◌, refl}
use mathlib.Core.List.{List, [], ◌∷◌, reverse}
use mathlib.Core.Option.{Option, none, some}
use minecraft_afk_bot.Prelude.Tests.{leb, ltb, ◌==◌, if◌then◌else◌}

abbrev pub codes : String → List ℕ
codes String.[] = []
codes (String.◌∷◌ c s) = code c ∷ codes s

-- `unicode.IsSpace`.
unfoldable pub is_space : ℕ → Bool
is_space c =
    (leb 9 c && leb c 13)
    || c == 0x20
    || c == 0x85
    || c == 0xa0
    || c == 0x1680
    || (leb 0x2000 c && leb c 0x200a)
    || c == 0x2028
    || c == 0x2029
    || c == 0x202f
    || c == 0x205f
    || c == 0x3000

unfoldable pub drop_while : (ℕ → Bool) → List ℕ → List ℕ
drop_while p [] = []
drop_while p (c ∷ s) = let rest = drop_while p s in if p c then rest else c ∷ s

-- `strings.TrimRight`, with its cutset as a test.
unfoldable pub trim_right : (ℕ → Bool) → List ℕ → List ℕ
unfolding drop_while
trim_right p s = reverse (drop_while p (reverse s))

-- `strings.TrimSpace`.
unfoldable pub trim_space : List ℕ → List ℕ
unfolding trim_right drop_while is_space
trim_space s = trim_right is_space (drop_while is_space s)

trims : trim_space (codes " \t a b\n") ≡ codes "a b"
unfolding trim_space
trims = refl

-- `unicode.ToLower` on ASCII; other code points are left alone.
unfoldable pub to_lower : List ℕ → List ℕ
to_lower [] = []
to_lower (c ∷ s) = (if leb b'A' c && leb c b'Z' then c + 32 else c) ∷ to_lower s
