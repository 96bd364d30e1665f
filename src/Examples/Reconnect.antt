-- ===== src/Examples/Reconnect.antt =====
-- Tests of the connect loop of cmd/bot/main.go and of its delays.
use minecraft_afk_bot.Bot.Backoff.{Int63n}
use minecraft_afk_bot.Bot.Loop.{Round, Loop, attempt, settle, round, run, start, run_connect_loop}
use minecraft_afk_bot.Bot.Loop.Failures.{is_nil, run_connect_loop-Fails}
use minecraft_afk_bot.Bot.Loop.Status.{sleeps, parked_restarts}
use minecraft_afk_bot.Prelude.Int.{pos}
use minecraft_afk_bot.Prelude.Strings.{codes}
use minecraft_afk_bot.Prelude.{
  ◌*◌, ◌^◌, min, ◌≡◌, refl, true, false, List, [], ◌∷◌, ◌++◌, none, some, length, arith,
}

-- A random number at the low end.
abbrev lowest : Int63n
lowest n = 0

abbrev failing : Round
failing = record {
  done_before = false;
  int63n = lowest;
  done_waiting = false;
  refused = false;
  spawns = 1;
  err = some (codes "read: EOF");
  lasted = pos 5_000_000_000;
  session_done = false;
  done_after = false;
}

abbrev parked : Round
parked = record failing { err = none; session_done = true }

abbrev stopped : Round
stopped = record failing { done_before = true }

abbrev pub history : List Round
history = failing ∷ parked ∷ failing ∷ stopped ∷ []

parked_restarts_example :
    let s : Loop = record { delay = pos 40; first = false } in
    ((run (pos 5) (pos 300) (some s) (parked ∷ failing ∷ [])).1
      ≡ (run (pos 5) (pos 300) (some (start (pos 5))) (failing ∷ [])).1)
    × ((run (pos 5) (pos 300) (some s) (parked ∷ failing ∷ [])).0
        ≡ (round (pos 5) (pos 300) s parked).0
          ++ (run (pos 5) (pos 300) (some (start (pos 5))) (failing ∷ [])).0)
    × (sleeps (round (pos 5) (pos 300) (start (pos 5)) failing).0 ≡ [])
unfolding round attempt settle
parked_restarts_example =
    parked_restarts (pos 5) (pos 300) (record { delay = pos 40; first = false }) parked failing
      (failing ∷ []) refl refl

run_connect_loop-Fails_example :
    (run_connect_loop 5_000 300_000 (failing ∷ failing ∷ [])).1
    ≡ some (record {
      delay =
          pos (min (5_000 * 1_000_000 * 2 ^ length (failing ∷ failing ∷ [])) (300_000 * 1_000_000));
      first = is_nil (failing ∷ failing ∷ []);
    })
run_connect_loop-Fails_example =
    run_connect_loop-Fails 5_000 300_000 (failing ∷ failing ∷ []) (omega arith) (omega arith)
      ((refl, refl, refl, refl, refl, refl), ((refl, refl, refl, refl, refl, refl), tt))
