-- ===== src/Bot/Open/Counts.antt =====
-- The sessions, the waits and the parks that a loop with no agent has logged.
use minecraft_afk_bot.Bot.Backoff.{Duration, Int63n}
use minecraft_afk_bot.Bot.Loop
use minecraft_afk_bot.Bot.Loop.{Action, Loop, settle, log_end, start}
use minecraft_afk_bot.Bot.Open.{stopped}
use minecraft_afk_bot.Bot.System.{
  Place, at_head, sleeping, admitting, in_session, ended, reported, observed, released, System,
  waiting_for,
}
use minecraft_afk_bot.Presence.Gate.{World}
use minecraft_afk_bot.Prelude.Strings.{codes}
use minecraft_afk_bot.Prelude.{
  ℕ, ◌+◌, ◌≤◌, ◌≡◌, refl, ◌∙◌, Bool, true, false, List, ◌++◌, arith, equal, count, count-append,
  if◌then◌else◌,
}

-- The line that a parked session gets.
abbrev pub is_parked_line : Action → Bool
is_parked_line (Loop.log severity event fields) = equal event (codes "session_parked")
is_parked_line _ = false

abbrev pub is_connect : Action → Bool
is_connect Loop.connect = true
is_connect _ = false

abbrev pub is_sleep : Action → Bool
is_sleep (Loop.sleep d) = true
is_sleep _ = false

-- A session's context ends with the process alone.
abbrev pub Sound : Place → World → Type 0
Sound in_session w = w.session_done ≡ true → w.ctx_done ≡ true
Sound (ended err lasted) w = w.session_done ≡ true → w.ctx_done ≡ true
Sound (reported err lasted) w = w.session_done ≡ true → w.ctx_done ≡ true
Sound (observed err lasted parked) w = parked ≡ true → w.ctx_done ≡ true
Sound (released err lasted parked) w = parked ≡ true → w.ctx_done ≡ true
Sound _ w = Unit

-- The sessions and the waits so far.
abbrev pub Paced : Place → Bool → ℕ → ℕ → Type 0
Paced at_head first connects sleeps = (first ≡ true → connects ≤ sleeps) × (connects ≤ sleeps + 1)
Paced sleeping first connects sleeps = connects ≤ sleeps
Paced admitting first connects sleeps = connects ≤ sleeps
Paced _ first connects sleeps = connects ≤ sleeps + 1

pub Paced-bound :
    (p : Place) (first : Bool) (connects sleeps : ℕ)
    → Paced p first connects sleeps
    → connects ≤ sleeps + 1
Paced-bound at_head first connects sleeps h = h.1
Paced-bound sleeping first connects sleeps h = omega (arith, h)
Paced-bound admitting first connects sleeps h = omega (arith, h)
Paced-bound _ first connects sleeps h = h

pub record At (p : Place) (s : System) : Type 0 where
  pub sound : Sound p s.world
  pub quiet : count is_parked_line s.done ≡ 0
  pub paced : Paced p s.loop.first (count is_connect s.done) (count is_sleep s.done)

abbrev pub Inv : System → Type 0
Inv s = At s.place s

pub Sound-stopped : (p : Place) (w : World) → Sound p (stopped w)
Sound-stopped in_session w = λ e. refl
Sound-stopped (ended err lasted) w = λ e. refl
Sound-stopped (reported err lasted) w = λ e. refl
Sound-stopped (observed err lasted parked) w = λ e. refl
Sound-stopped (released err lasted parked) w = λ e. refl
Sound-stopped _ w = tt

pub waiting-counts :
    (i : Int63n) (d : Duration)
    → (count is_parked_line (waiting_for i d) ≡ 0)
      × (count is_connect (waiting_for i d) ≡ 0)
      × (count is_sleep (waiting_for i d) ≡ 1)
unfolding equal
waiting-counts i d = (refl, refl, refl)

-- What an append of such actions makes of the counts.
counts-append :
    (xs ys : List Action)
    → (count is_parked_line (xs ++ ys) ≡ count is_parked_line xs + count is_parked_line ys)
      × (count is_connect (xs ++ ys) ≡ count is_connect xs + count is_connect ys)
      × (count is_sleep (xs ++ ys) ≡ count is_sleep xs + count is_sleep ys)
counts-append xs ys =
    (count-append is_parked_line xs ys, count-append is_connect xs ys, count-append is_sleep xs ys)

pub Inv-if : (b : Bool) (x y : System) → (b ≡ true → Inv x) → Inv y → Inv (if b then x else y)
Inv-if true x y hx hy = hx refl
Inv-if false x y hx hy = hy

-- More actions, at the next place.
pub At-append :
    (p q : Place) (s t : System) (xs : List Action)
    → t.done ≡ s.done ++ xs
    → Sound q t.world
    → count is_parked_line xs ≡ 0
    → (count is_connect t.done ≡ count is_connect s.done + count is_connect xs
        → count is_sleep t.done ≡ count is_sleep s.done + count is_sleep xs
        → Paced q t.loop.first (count is_connect t.done) (count is_sleep t.done))
    → At p s
    → At q t
At-append p q s t xs e sound quiet paced h =
    let (a, b, c) = counts-append s.done xs in
    record {
      sound = sound;
      quiet = rw e (a ∙ rw (h.quiet, quiet) refl);
      paced = paced (rw e b) (rw e c);
    }
