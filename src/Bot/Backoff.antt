-- ===== src/Bot/Backoff.antt =====
-- `backoff` and `jitter` of cmd/bot/main.go. A `time.Duration` is an int64 of nanoseconds.
pub mod Sequence
use minecraft_afk_bot.Prelude.Int.{ℤ, pos, negsuc, pos_part, leb_ℤ, ltb_ℤ, scale64, add64}
use minecraft_afk_bot.Prelude.{ℕ, ◌+◌, ◌/◌, if◌then◌else◌}

abbrev pub Duration : Type 0
Duration = ℤ

abbrev pub second : ℕ
second = 1_000_000_000

abbrev pub millisecond : ℕ
millisecond = 1_000_000

abbrev pub stable_session : Duration
stable_session = pos 60_000_000_000

unfoldable pub backoff : Duration → Duration → Duration → Duration → Duration
unfolding scale64
backoff current lasted min max =
    if leb_ℤ stable_session lasted
    then min
    else let next = scale64 current 2 in if ltb_ℤ next max then next else max

-- `rand.Int63n`, which returns a number below its argument.
abbrev pub Int63n : Type 0
Int63n = ℕ → ℕ

-- Halving comes after the test, so it is of a duration that is not negative.
unfoldable pub jitter : Int63n → Duration → Duration
unfolding add64
jitter int63n d =
    let half = pos_part d / 2 in
    if leb_ℤ d (pos 0) then pos 0 else add64 (pos half) (pos (int63n (half + 1)))
