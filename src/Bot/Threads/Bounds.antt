-- ===== src/Bot/Threads/Bounds.antt =====
-- How long a session of the program can go on once its context has ended.
use minecraft_afk_bot.Bot.Backoff.{Duration}
use minecraft_afk_bot.Bot.Session.Steps
use minecraft_afk_bot.Bot.Session.Steps.{Stage, Progress, Event, entered}
use minecraft_afk_bot.Bot.Session.Steps.Bounds.{height_le, to_cut_le, rank, Lowers, step_at-Lowers}
use minecraft_afk_bot.Bot.System
use minecraft_afk_bot.Bot.System.{Place, in_session, System, spawn, spawn_in}
use minecraft_afk_bot.Bot.Threads.{
  Threads, with_session, inside, call_back, stepped, inside_in, step, run,
}
use minecraft_afk_bot.Bot.Threads.Runs.{Ensured, continue-some}
use minecraft_afk_bot.Gophertunnel.{Constants}
use minecraft_afk_bot.Mcproto.{Protocol}
use minecraft_afk_bot.Presence.Api.{Api}
use minecraft_afk_bot.Prelude.{
  length, ℕ, ◌≡◌, ◌≤◌, ◌<◌, ◌+◌, sym, subst, true, List, [], ◌∷◌, map, Option, none, some, arith,
  some-injective,
}

module _ {Position Schema : Type 0} (api : Api) (lo hi : Duration) (k : Constants) (v : ℕ)
    (baked : Protocol Schema) where
  -- A session whose context has ended, with fewer than `n` steps before it.
  abbrev IsEnding : ℕ → Threads Position → Type 0
  IsEnding n t = (t.system.world.session_done ≡ true) × (rank t.session < n)

  spawn_in-IsEnding :
      (n : ℕ) (q : Place) (s : System) (p : Progress Position)
      → s.world.session_done ≡ true
      → rank p < n
      → Ensured (IsEnding n) (with_session p (spawn_in q s))
  unfolding spawn_in
  spawn_in-IsEnding n in_session s p done low = (done, low)
  spawn_in-IsEnding n _ s p done low = tt

  stepped-IsEnding :
      (n : ℕ) (event : Event Position) (s : System) (o : Option (Progress Position))
      → s.world.session_done ≡ true
      → Lowers n o
      → Ensured (IsEnding n) (stepped api lo hi event s o)
  unfolding stepped call_back System.step
  stepped-IsEnding n event s none done low = tt
  stepped-IsEnding n (entered none xuid) s (some p) done low =
      spawn_in-IsEnding n s.place s p done low
  stepped-IsEnding n event s (some p) done low = (done, low)

  inside_in-IsEnding :
      (event : Event Position) (q : Place) (t : Threads Position)
      → t.system.world.session_done ≡ true
      → Ensured (IsEnding (rank t.session)) (inside_in api lo hi k v baked event q t)
  unfolding inside_in Steps.step
  inside_in-IsEnding event in_session t done =
      let p = t.session in
      stepped-IsEnding (rank p) event t.system
        (Steps.step_at k v baked t.system.world.session_done p.stage event p) done
        (subst (λ b. Lowers (rank p) (Steps.step_at k v baked b p.stage event p)) (sym done)
          (step_at-Lowers k v baked p.stage event p))
  inside_in-IsEnding event _ t done = tt

  run-rank :
      (events : List (Event Position)) (t u : Threads Position)
      → t.system.world.session_done ≡ true
      → run api lo hi k v baked (map inside events) t ≡ some u
      → length events + rank u.session ≤ rank t.session
  unfolding run step
  run-rank [] t u done e =
      subst (λ x. 0 + rank x.session ≤ rank t.session) (some-injective t u e) (omega arith)
  run-rank (event ∷ events) t u done e =
      let (w, moved, rest) =
        continue-some api lo hi k v baked (inside_in api lo hi k v baked event t.system.place t)
          (run api lo hi k v baked (map inside events)) u e in
      let ending =
        subst (Ensured (IsEnding (rank t.session))) moved
          (inside_in-IsEnding event t.system.place t done) in
      omega (arith, ending.1, run-rank events w u ending.0 rest)

  -- Once the context of a session has ended, by a park or by the end of the process, the session
  -- takes at most six more steps in a row, the close by `AfterFunc` among them, however far it is,
  -- whatever the server sends and whatever its calls return.
  pub ended-steps :
      (events : List (Event Position)) (t u : Threads Position)
      → t.system.world.session_done ≡ true
      → run api lo hi k v baked (map inside events) t ≡ some u
      → length events ≤ 6
  ended-steps events t u done e =
      omega
        (arith, run-rank events t u done e, height_le t.session.stage, to_cut_le t.session.is_cut)
