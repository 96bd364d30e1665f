-- ===== src/Bot/System/Rounds.antt =====
-- The rounds of the connect loop that the steps of a pass come to.
use minecraft_afk_bot.Bot.Backoff.{Duration, Int63n}
use minecraft_afk_bot.Bot.Loop
use minecraft_afk_bot.Bot.Loop.{
  Action, admit, connect, connected, Round, Loop, announce, settle, attempt, round, start,
}
use minecraft_afk_bot.Bot.System.{round_of}
use minecraft_afk_bot.Bot.System.Passes.{entry, opened, Passed, run-snoc}
use minecraft_afk_bot.Prelude.Int.{pos}
use minecraft_afk_bot.Prelude.{
  Text, ℕ, ◌≡◌, refl, ap, ◌∙◌, Bool, true, false, List, [], ◌∷◌, ◌++◌, Option, none, some,
  append-nil, append_assoc, Bool-cases, inl, inr,
}

module _ (lo hi : Duration) where
  pub round-session :
      (l : Loop) (int63n : Int63n) (n : ℕ) (err : Option Text) (lasted : Duration)
      (parked done : Bool)
      → round lo hi l (round_of int63n n err lasted parked done) ≡ (
        entry int63n l
            ++ (opened (connected false ∷ Loop.release ∷ []) n
                ++ (settle lo hi l (round_of (λ m. 0) 0 err lasted parked done)).0),
        (settle lo hi l (round_of (λ m. 0) 0 err lasted parked done)).1,
      )
  unfolding round attempt settle
  round-session l int63n n err lasted parked done =
      let more = (settle lo hi l (round_of (λ m. 0) 0 err lasted parked done)).0 in
      rw (append_assoc (announce n) (connected false ∷ Loop.release ∷ []) more)
        (elim (Bool-cases l.first) [ inl e ↦ rw e refl | inr e ↦ rw e refl ])

  -- A round that ends before its session.
  abbrev pub cut_round : Int63n → Bool → Bool → Bool → Round
  cut_round int63n before stopping refusal = record (round_of int63n 0 none (pos 0) false false) {
    done_before = before;
    done_waiting = stopping;
    refused = refusal;
  }

  pub round-refused :
      (l : Loop) (int63n : Int63n)
      → round lo hi l (cut_round int63n false false true)
        ≡ (entry int63n l ++ admit false ∷ [], none)
  unfolding round attempt
  round-refused l int63n = elim (Bool-cases l.first) [ inl e ↦ rw e refl | inr e ↦ rw e refl ]

  pub round-stopped :
      (l : Loop) (int63n : Int63n)
      → l.first ≡ false
      → round lo hi l (cut_round int63n false true false) ≡ (entry int63n l ++ [], none)
  unfolding round
  round-stopped l int63n slow = rw slow refl

  pub Passed-stop :
      (l : Loop) (done : List Action) → Passed lo hi done (some l) → Passed lo hi done none
  unfolding round
  Passed-stop l done p = record {
    rounds = p.rounds ++ cut_round (λ m. 0) true false false ∷ [];
    runs =
        run-snoc lo hi (some (start lo)) p.rounds (cut_round (λ m. 0) true false false) l
          (ap (λ x. x.1) p.runs)
        ∙ rw (p.runs, append-nil done) refl;
  }
