-- ===== src/Config/Pattern.antt =====
-- The pattern of an actor id, as a regular expression.
use minecraft_afk_bot.Config.{matches_actor_id, is_id_start, is_id_part}
use minecraft_afk_bot.Prelude.{
  Text, ℕ, zero, suc, ◌≡◌, ◌↔◌, ◌⊎◌, inl, inr, refl, sym, ◌∙◌, Bool, true, false, ◌&&◌, ◌||◌, List,
  [], ◌∷◌, ◌++◌, leb, length, all, arith,
}

-- The constructs that the pattern uses: a class of ranges, one behind another, and `{0,n}`.
pub data Regex : Type 0 where
  class : List (ℕ × ℕ) → Regex
  sequence : Regex → Regex → Regex
  up_to : ℕ → Regex → Regex

-- A character in one of the ranges.
abbrev pub in_ranges : List (ℕ × ℕ) → ℕ → Bool
in_ranges [] c = false
in_ranges ((low, high) ∷ ranges) c = (leb low c && leb c high) || in_ranges ranges c

-- At most n texts one behind another, each of which is in `P`.
abbrev pub Repeats : (Text → Type 0) → ℕ → Text → Type 0
Repeats P zero u = u ≡ []
Repeats P (suc n) u = (u ≡ []) ⊎ ((s : Text) × (t : Text) × (u ≡ s ++ t) × P s × Repeats P n t)

-- The texts that an expression matches as a whole, which is what `^` and `$` ask for.
abbrev pub Matches : Regex → Text → Type 0
Matches (class ranges) u = (c : ℕ) × (u ≡ c ∷ []) × (in_ranges ranges c ≡ true)
Matches (sequence r q) u = (s : Text) × (t : Text) × (u ≡ s ++ t) × Matches r s × Matches q t
Matches (up_to n r) u = Repeats (Matches r) n u

-- `^[a-z0-9][a-z0-9-]{0,62}$`.
abbrev pub actor_id_pattern : Regex
actor_id_pattern =
    sequence (class ((b'a', b'z') ∷ (b'0', b'9') ∷ []))
      (up_to 62 (class ((b'a', b'z') ∷ (b'0', b'9') ∷ (b'-', b'-') ∷ [])))

abbrev parts : Regex
parts = class ((b'a', b'z') ∷ (b'0', b'9') ∷ (b'-', b'-') ∷ [])

start-in_ranges : (c : ℕ) → in_ranges ((b'a', b'z') ∷ (b'0', b'9') ∷ []) c ≡ is_id_start c
start-in_ranges c = ground arith

part-in_ranges :
    (c : ℕ) → in_ranges ((b'a', b'z') ∷ (b'0', b'9') ∷ (b'-', b'-') ∷ []) c ≡ is_id_part c
part-in_ranges c = ground arith

Repeats-parts :
    (n : ℕ) (u : Text) → Repeats (Matches parts) n u → (all is_id_part u && leb (length u) n) ≡ true
Repeats-parts zero u h = rw h refl
Repeats-parts (suc n) u (inl e) = rw e (ground arith)
Repeats-parts (suc n) u (inr (s, t, e, (c, one, ok), h)) =
    rw (e, one) (ground (arith, Repeats-parts n t h, sym (part-in_ranges c) ∙ ok))

parts-Repeats :
    (n : ℕ) (u : Text) → (all is_id_part u && leb (length u) n) ≡ true → Repeats (Matches parts) n u
parts-Repeats zero [] h = refl
parts-Repeats zero (c ∷ u) h = absurd (ground arith)
parts-Repeats (suc n) [] h = inl refl
parts-Repeats (suc n) (c ∷ u) h =
    inr (
      c ∷ [],
      u,
      refl,
      (c, refl, part-in_ranges c ∙ ground arith),
      parts-Repeats n u (ground arith),
    )

pattern_of : (s : Text) → matches_actor_id s ≡ true → Matches actor_id_pattern s
unfolding matches_actor_id
pattern_of [] h = cc
pattern_of (c ∷ s) h = (
  c ∷ [],
  s,
  refl,
  (c, refl, start-in_ranges c ∙ ground arith),
  parts-Repeats 62 s (ground arith),
)

of_pattern : (s : Text) → Matches actor_id_pattern s → matches_actor_id s ≡ true
unfolding matches_actor_id
of_pattern u (s, t, e, (c, one, ok), h) =
    rw (e, one) (ground (arith, Repeats-parts 62 t h, sym (start-in_ranges c) ∙ ok))

-- The test of an actor id accepts exactly the texts that the pattern in the source matches.
pub matches_actor_id-Matches : (s : Text) → (matches_actor_id s ≡ true) ↔ Matches actor_id_pattern s
matches_actor_id-Matches s = (pattern_of s, of_pattern s)
