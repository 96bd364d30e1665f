-- ===== src/Bot/System/Runs.antt =====
-- What every step of the system keeps holds behind every run.
use minecraft_afk_bot.Bot.Backoff.{Duration}
use minecraft_afk_bot.Bot.System.{System, Step, step, continue, run}
use minecraft_afk_bot.Presence.Api.{Api}
use minecraft_afk_bot.Prelude.{
  ◌≡◌, refl, ap, ◌∙◌, subst, List, [], ◌∷◌, ◌++◌, Option, none, some, some-injective, All,
}

-- If there is a system behind a step, `P` holds of it.
abbrev pub Ensured : (System → Type 0) → Option System → Type 0
Ensured P none = Unit
Ensured P (some s) = P s

-- Every step.
abbrev IsAny : Step → Type 0
IsAny x = Unit

module _ (api : Api) (min_delay max_delay : Duration) where
  -- A step that can be taken is taken, and the rest of the run behind it.
  pub continue-some :
      (o : Option System) (rest : System → Option System) (t : System)
      → continue api min_delay max_delay o rest ≡ some t
      → (s : System) × (o ≡ some s) × (rest s ≡ some t)
  unfolding continue
  continue-some none rest t e = cc
  continue-some (some s) rest t e = (s, refl, e)

  -- What every step of a kind keeps holds behind every run of such steps.
  pub run-keeps_if :
      (P : System → Type 0) (Q : Step → Type 0)
      → ((x : Step) (s : System) → Q x → P s → Ensured P (step api min_delay max_delay x s))
      → (steps : List Step) (s t : System) → All Q steps
      → run api min_delay max_delay steps s ≡ some t
      → P s
      → P t
  unfolding run
  run-keeps_if P Q keeps [] s t legal e h = subst P (some-injective s t e) h
  run-keeps_if P Q keeps (x ∷ steps) s t (q, legal) e h =
      let (u, moved, rest) =
        continue-some (step api min_delay max_delay x s) (run api min_delay max_delay steps) t e in
      run-keeps_if P Q keeps steps u t legal rest (subst (Ensured P) moved (keeps x s q h))

  all-IsAny : (steps : List Step) → All IsAny steps
  all-IsAny [] = tt
  all-IsAny (x ∷ steps) = (tt, all-IsAny steps)

  pub run-keeps :
      (P : System → Type 0)
      → ((x : Step) (s : System) → P s → Ensured P (step api min_delay max_delay x s))
      → (steps : List Step) (s t : System) → run api min_delay max_delay steps s ≡ some t
      → P s
      → P t
  run-keeps P keeps steps s t e h =
      run-keeps_if P IsAny (λ x u q. keeps x u) steps s t (all-IsAny steps) e h

  -- A run of two parts, and where the first one ends.
  pub run-split :
      (xs ys : List Step) (s t : System)
      → run api min_delay max_delay (xs ++ ys) s ≡ some t
      → (u : System) × (run api min_delay max_delay xs s ≡ some u)
        × (run api min_delay max_delay ys u ≡ some t)
  unfolding run continue
  run-split [] ys s t e = (s, refl, e)
  run-split (x ∷ xs) ys s t e =
      let (w, moved, rest) =
        continue-some (step api min_delay max_delay x s) (run api min_delay max_delay (xs ++ ys)) t
          e in
      let (u, first, second) = run-split xs ys w t rest in
      (
        u,
        ap (λ o. continue api min_delay max_delay o (run api min_delay max_delay xs)) moved ∙ first,
        second,
      )
