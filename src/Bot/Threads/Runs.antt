-- ===== src/Bot/Threads/Runs.antt =====
-- What every step of the threads keeps holds behind every run.
use minecraft_afk_bot.Bot.Backoff.{Duration}
use minecraft_afk_bot.Bot.Session.Steps.{Progress}
use minecraft_afk_bot.Bot.System.{System}
use minecraft_afk_bot.Bot.Threads.{Threads, Move, step, continue, run}
use minecraft_afk_bot.Gophertunnel.{Constants}
use minecraft_afk_bot.Mcproto.{Protocol}
use minecraft_afk_bot.Presence.Api.{Api}
use minecraft_afk_bot.Prelude.{
  ℕ, ◌≡◌, refl, subst, List, [], ◌∷◌, ◌++◌, ap, ◌∙◌, Option, none, some, some-injective,
}

-- If there are threads behind a step, `P` holds of them.
abbrev pub Ensured :
    {Position : Type 0} → (Threads Position → Type 0) → Option (Threads Position) → Type 0
Ensured P none = Unit
Ensured P (some t) = P t

abbrev pub with_progress : {Position : Type 0} → System → Progress Position → Threads Position
with_progress s p = record { system = s; session = p }

module _ {Position Schema : Type 0} (api : Api) (lo hi : Duration) (k : Constants) (v : ℕ)
    (baked : Protocol Schema) where
  pub continue-some :
      (o : Option (Threads Position)) (rest : Threads Position → Option (Threads Position))
      (u : Threads Position)
      → continue api lo hi k v baked o rest ≡ some u
      → (t : Threads Position) × (o ≡ some t) × (rest t ≡ some u)
  unfolding continue
  continue-some none rest u e = cc
  continue-some (some t) rest u e = (t, refl, e)

  pub run-keeps :
      (P : Threads Position → Type 0)
      → ((m : Move Position) (t : Threads Position)
          → P t
          → Ensured P (step api lo hi k v baked m t))
      → (moves : List (Move Position)) (t u : Threads Position)
      → run api lo hi k v baked moves t ≡ some u
      → P t
      → P u
  unfolding run
  run-keeps P keeps [] t u e h = subst P (some-injective t u e) h
  run-keeps P keeps (m ∷ moves) t u e h =
      let (w, moved, rest) =
        continue-some (step api lo hi k v baked m t) (run api lo hi k v baked moves) u e in
      run-keeps P keeps moves w u rest (subst (Ensured P) moved (keeps m t h))

  -- Some run comes from `t` to `u`.
  abbrev pub Reaches : Threads Position → Threads Position → Type 0
  Reaches t u = (moves : List (Move Position)) × (run api lo hi k v baked moves t ≡ some u)

  pub Reaches-step :
      (m : Move Position) (t u w : Threads Position)
      → step api lo hi k v baked m t ≡ some u
      → Reaches u w
      → Reaches t w
  unfolding run continue
  Reaches-step m t u w moved (moves, rest) = (m ∷ moves, rw moved rest)

  pub run-cons :
      (m : Move Position) (moves : List (Move Position)) (t u : Threads Position)
      → step api lo hi k v baked m t ≡ some u
      → run api lo hi k v baked (m ∷ moves) t ≡ run api lo hi k v baked moves u
  unfolding run continue
  run-cons m moves t u moved = rw moved refl

  pub run-append :
      (xs ys : List (Move Position)) (t u : Threads Position)
      → run api lo hi k v baked xs t ≡ some u
      → run api lo hi k v baked (xs ++ ys) t ≡ run api lo hi k v baked ys u
  unfolding run
  run-append [] ys t u e = ap (run api lo hi k v baked ys) (some-injective t u e)
  run-append (x ∷ xs) ys t u e =
      let (w, moved, rest) =
        continue-some (step api lo hi k v baked x t) (run api lo hi k v baked xs) u e in
      rw moved (unfold continue in run-append xs ys w u rest)

  pub Reaches-trans : (t u w : Threads Position) → Reaches t u → Reaches u w → Reaches t w
  Reaches-trans t u w (xs, e) (ys, f) = (xs ++ ys, run-append xs ys t u e ∙ f)
