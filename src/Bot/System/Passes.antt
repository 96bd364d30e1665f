-- ===== src/Bot/System/Passes.antt =====
-- What the loop has done by the passes before and the beginning of one.
use minecraft_afk_bot.Bot.Backoff.{Duration, Int63n}
use minecraft_afk_bot.Bot.Loop
use minecraft_afk_bot.Bot.Loop.{
  Action, admit, connect, connected, Round, Loop, announce, settle, attempt, round, start,
}
use minecraft_afk_bot.Bot.System.{
  Place, at_head, sleeping, admitting, in_session, returned, ended, reported, observed, released,
  waiting_for,
}
use minecraft_afk_bot.Prelude.{
  ℕ, zero, suc, ◌≡◌, refl, ap, ◌∙◌, true, false, List, [], ◌∷◌, ◌++◌, Option, none, some,
  append-nil, append_assoc, some-injective, if◌then◌else◌,
}

module _ (lo hi : Duration) where
  run-nil : (o : Option Loop) → Loop.run lo hi o [] ≡ ([], o)
  unfolding Loop.run
  run-nil none = refl
  run-nil (some l) = refl

  -- One more pass.
  pub run-snoc :
      (o : Option Loop) (rs : List Round) (r : Round) (l : Loop)
      → (Loop.run lo hi o rs).1 ≡ some l
      → Loop.run lo hi o (rs ++ r ∷ [])
        ≡ ((Loop.run lo hi o rs).0 ++ (round lo hi l r).0, (round lo hi l r).1)
  unfolding Loop.run
  run-snoc none rs r l e = cc
  run-snoc (some k) [] r l e =
      rw (some-injective k l e, run-nil (round lo hi l r).1, append-nil (round lo hi l r).0) refl
  run-snoc (some k) (q ∷ rs) r l e =
      let (actions, next) = round lo hi k q in
      rw
        (
          run-snoc next rs r l e,
          append_assoc actions (Loop.run lo hi next rs).0 (round lo hi l r).0,
        )
        refl

-- What the pass does from the admission on.
abbrev pub opened : List Action → ℕ → List Action
opened rest n = admit true ∷ connect ∷ (announce n ++ rest)

-- What a pass has done when it calls the gate.
abbrev pub entry : Int63n → Loop → List Action
entry int63n l = if l.first then [] else waiting_for int63n l.delay

module _ (lo hi : Duration) where
  -- The passes before this one, and what this one has done, up to the calls of its callback.
  pub record Passing (tail : ℕ → List Action) (l : Loop) (done : List Action) : Type 0 where
    pub rounds : List Round
    pub int63n : Int63n
    pub spawns : ℕ
    pub past : (Loop.run lo hi (some (start lo)) rounds).1 ≡ some l
    pub so_far :
        done ≡ (Loop.run lo hi (some (start lo)) rounds).0 ++ (entry int63n l ++ tail spawns)

  -- What `runConnectLoop` over some passes has done, and its variables then.
  pub record Passed (done : List Action) (last : Option Loop) : Type 0 where
    pub rounds : List Round
    pub runs : Loop.run lo hi (some (start lo)) rounds ≡ (done, last)

  -- At its head, and once it has returned, the loop has done what its passes do; in between, it has
  -- also done the beginning of one.
  abbrev pub Stands : Place → Loop → List Action → Type 0
  Stands at_head l done = Passed done (some l)
  Stands returned l done = Passed done none
  Stands sleeping l done = (l.first ≡ false) × Passing (λ n. []) l done
  Stands admitting l done = Passing (λ n. []) l done
  Stands in_session l done = Passing (opened []) l done
  Stands (ended err lasted) l done = Passing (opened []) l done
  Stands (reported err lasted) l done = Passing (opened (connected false ∷ [])) l done
  Stands (observed err lasted parked) l done = Passing (opened (connected false ∷ [])) l done
  Stands (released err lasted parked) l done =
      Passing (opened (connected false ∷ Loop.release ∷ [])) l done

  pub Passing-grow :
      (t t' : ℕ → List Action) (f : ℕ → ℕ) (more : List Action) (l : Loop) (done : List Action)
      → ((n : ℕ) → t n ++ more ≡ t' (f n))
      → Passing t l done
      → Passing t' l (done ++ more)
  Passing-grow t t' f more l done grow p =
      let before = (Loop.run lo hi (some (start lo)) p.rounds).0 in
      record {
        rounds = p.rounds;
        int63n = p.int63n;
        spawns = f p.spawns;
        past = p.past;
        so_far =
            rw
              (
                p.so_far,
                append_assoc before (entry p.int63n l ++ t p.spawns) more,
                append_assoc (entry p.int63n l) (t p.spawns) more,
                grow p.spawns,
              )
              refl;
      }

  pub announce-snoc : (n : ℕ) → announce n ++ connected true ∷ [] ≡ announce (suc n)
  unfolding announce
  announce-snoc zero = refl
  announce-snoc (suc n) = rw (announce-snoc n) refl

  -- A pass that ends here.
  pub Passing-end :
      (t : ℕ → List Action) (more : List Action) (l : Loop) (done : List Action)
      (last : Option Loop) (r : Int63n → ℕ → Round)
      → ((int63n : Int63n) (n : ℕ)
          → round lo hi l (r int63n n) ≡ (entry int63n l ++ (t n ++ more), last))
      → Passing t l done
      → Passed (done ++ more) last
  Passing-end t more l done last r e p =
      let before = (Loop.run lo hi (some (start lo)) p.rounds).0 in
      let q = r p.int63n p.spawns in
      record {
        rounds = p.rounds ++ q ∷ [];
        runs =
            run-snoc lo hi (some (start lo)) p.rounds q l p.past
            ∙ rw
                (
                  e p.int63n p.spawns,
                  p.so_far,
                  append_assoc before (entry p.int63n l ++ t p.spawns) more,
                  append_assoc (entry p.int63n l) (t p.spawns) more,
                )
                refl;
      }

  -- A pass that begins here.
  pub Passing-start :
      (int63n : Int63n) (l : Loop) (done now : List Action)
      → now ≡ done ++ entry int63n l
      → Passed done (some l)
      → Passing (λ n. []) l now
  Passing-start int63n l done now e p = record {
    rounds = p.rounds;
    int63n = int63n;
    spawns = 0;
    past = ap (λ x. x.1) p.runs;
    so_far = rw (e, p.runs, append-nil (entry int63n l)) refl;
  }
