-- ===== src/Bot/Loop/Failures.antt =====
-- What failed sessions in a row do to the delay.
use minecraft_afk_bot.Bot.Backoff.{Duration, backoff}
use minecraft_afk_bot.Bot.Backoff.Sequence.{IsShort, delay_after, delay_after-short}
use minecraft_afk_bot.Prelude.Int.{pos}
use minecraft_afk_bot.Bot.Loop.Waits.{of_milliseconds-pos}
use minecraft_afk_bot.Bot.Loop.{Round, Loop, settle, attempt, round, run, start, run_connect_loop}
use minecraft_afk_bot.Prelude.{
  ℕ, ◌*◌, ◌^◌, ◌≤◌, min, ap, suc, ◌≡◌, refl, Bool, true, false, ◌&&◌, List, [], ◌∷◌, some, ◌∙◌, map,
  length, All, arith,
}

abbrev pub is_nil : List Round → Bool
is_nil [] = true
is_nil (r ∷ rs) = false

-- A pass that ends with an unstable session: not parked, and nothing ends the loop.
abbrev pub Fails : Round → Type 0
Fails r =
    (r.done_before ≡ false)
    × (r.done_waiting ≡ false)
    × (r.refused ≡ false)
    × (r.session_done ≡ false)
    × (r.done_after ≡ false)
    × IsShort r.lasted

round-Fails :
    (lo hi : Duration) (s : Loop) (r : Round)
    → Fails r
    → (round lo hi s r).1 ≡ some (record { delay = backoff s.delay r.lasted lo hi; first = false })
unfolding round attempt settle
round-Fails lo hi s r h = ground arith

run-Fails :
    (lo hi : ℕ) (s : Loop) (rs : List Round)
    → All Fails rs
    → (run (pos lo) (pos hi) (some s) rs).1
      ≡ some (record {
        delay = delay_after lo hi s.delay (map (λ r. r.lasted) rs);
        first = s.first && is_nil rs;
      })
unfolding run
run-Fails lo hi s [] h = ground arith
run-Fails lo hi s (r ∷ rs) (h, more) =
    let s' : Loop = record { delay = backoff s.delay r.lasted (pos lo) (pos hi); first = false } in
    ap (λ o. (run (pos lo) (pos hi) o rs).1) (round-Fails (pos lo) (pos hi) s r h)
    ∙ run-Fails lo hi s' rs more
    ∙ ground arith

shorts : (rs : List Round) → All Fails rs → All IsShort (map (λ r. r.lasted) rs)
shorts [] h = tt
shorts (r ∷ rs) (h, more) = (h.5, shorts rs more)

length-map : (rs : List Round) → length (map (λ r. r.lasted) rs) ≡ length rs
length-map [] = refl
length-map (r ∷ rs) = ap suc (length-map rs)

-- With delays that the configuration admits, after k sessions in a row that each ended within a
-- minute, with an error or none, and that nothing parked and nothing stopped, the loop is still
-- running, and its delay is min_ms * 2 ^ k milliseconds, or max_ms if that is less; only a loop with
-- no session behind it skips the wait.
pub run_connect_loop-Fails :
    (min_ms max_ms : ℕ) (rs : List Round)
    → min_ms ≤ max_ms
    → max_ms ≤ 3_600_000
    → All Fails rs
    → (run_connect_loop min_ms max_ms rs).1
      ≡ some (record {
        delay = pos (min (min_ms * 1_000_000 * 2 ^ length rs) (max_ms * 1_000_000));
        first = is_nil rs;
      })
unfolding run_connect_loop start
run_connect_loop-Fails min_ms max_ms rs order top h =
    let lo = min_ms * 1_000_000 in
    let hi = max_ms * 1_000_000 in
    let s : Loop = record { delay = pos lo; first = true } in
    let closed =
      delay_after-short lo hi lo (map (λ r. r.lasted) rs) (omega arith) (omega arith)
        (shorts rs h) in
    rw (of_milliseconds-pos min_ms (omega arith), of_milliseconds-pos max_ms top)
      (run-Fails lo hi s rs h ∙ rw (closed, length-map rs))
