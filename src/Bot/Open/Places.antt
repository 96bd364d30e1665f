-- ===== src/Bot/Open/Places.antt =====
-- What a step of the loop with no agent does to those counts.
use minecraft_afk_bot.Bot.Open.Counts.{
  is_parked_line, is_connect, is_sleep, At, Inv, waiting-counts, At-append, Inv-if,
}
use minecraft_afk_bot.Bot.Backoff.{Duration, Int63n}
use minecraft_afk_bot.Bot.Loop
use minecraft_afk_bot.Bot.Loop.{Action, Loop, settle, log_end, start}
use minecraft_afk_bot.Bot.Open.{admit_in, spawn_in, report_in}
use minecraft_afk_bot.Bot.System.{
  Place, at_head, sleeping, admitting, in_session, returned, ended, reported, observed, released,
  System, head_in, timer_in, stop_waiting_in, admit_of, connect_in, observe_in, let_go_in,
  finish_in, waiting_for, round_of, settled, enter,
}
use minecraft_afk_bot.Bot.System.Runs.{Ensured}
use minecraft_afk_bot.Presence.Gate.{refused, admitted, always_present_admit}
use minecraft_afk_bot.Prelude.{
  Text, ◌≡◌, refl, sym, subst, Bool, true, false, [], ◌∷◌, ◌++◌, Option, none, some, arith, equal,
  count, if◌then◌else◌,
}

pub head_in-Inv : (i : Int63n) (p : Place) (s : System) → At p s → Ensured Inv (head_in i p s)
unfolding head_in
head_in-Inv i at_head s h =
    let wait = waiting_for i s.loop.delay in
    let slow : System = record s { place = sleeping; done = s.done ++ wait } in
    let counts = waiting-counts i s.loop.delay in
    let gone : Inv (record s { place = returned }) = record {
      sound = tt;
      quiet = h.quiet;
      paced = h.paced.1;
    } in
    let waited : Inv slow =
      At-append at_head sleeping s slow wait refl tt counts.0
        (λ a b. omega (arith, a, b, counts.1, counts.2, h.paced.1)) h in
    Inv-if s.world.ctx_done (record s { place = returned }) (if s.loop.first then enter s else slow)
      (λ e. gone)
      (Inv-if s.loop.first (enter s) slow
        (λ e. record { sound = tt; quiet = h.quiet; paced = h.paced.0 e }) waited)
head_in-Inv i _ s h = tt

pub timer_in-Inv : (p : Place) (s : System) → At p s → Ensured Inv (timer_in p s)
unfolding timer_in
timer_in-Inv sleeping s h = record { sound = tt; quiet = h.quiet; paced = h.paced }
timer_in-Inv _ s h = tt

Ensured-guard : (b : Bool) (s : System) → Inv s → Ensured Inv (if b then some s else none)
Ensured-guard true s h = h
Ensured-guard false s h = tt

pub stop_waiting_in-Inv : (p : Place) (s : System) → At p s → Ensured Inv (stop_waiting_in p s)
unfolding stop_waiting_in
stop_waiting_in-Inv sleeping s h =
    Ensured-guard s.world.ctx_done (record s { place = returned })
      (record { sound = tt; quiet = h.quiet; paced = omega (arith, h.paced) })
stop_waiting_in-Inv _ s h = tt

admit_of-Inv :
    (b : Bool) (s : System)
    → At admitting s
    → Ensured Inv (
        admit_of
          (if b
            then record s.world { phase = refused }
            else record s.world { phase = admitted; session_done = b }).phase
          (record s {
            world =
                if b
                then record s.world { phase = refused }
                else record s.world { phase = admitted; session_done = b };
          }))
unfolding admit_of
admit_of-Inv true s h =
    At-append admitting returned s
      (record s {
        world = record s.world { phase = refused };
        place = returned;
        done = s.done ++ Loop.admit false ∷ [];
      })
      (Loop.admit false ∷ []) refl tt refl (λ a b. omega (arith, a, b, h.paced)) h
admit_of-Inv false s h =
    At-append admitting in_session s
      (record s {
        world = record s.world { phase = admitted; session_done = false };
        place = in_session;
        done = s.done ++ Loop.admit true ∷ Loop.connect ∷ [];
      })
      (Loop.admit true ∷ Loop.connect ∷ []) refl (λ e. cc) refl
      (λ a b. omega (arith, a, b, h.paced)) h

pub admit_in-Inv : (p : Place) (s : System) → At p s → Ensured Inv (admit_in p s)
unfolding admit_in always_present_admit
admit_in-Inv admitting s h = admit_of-Inv s.world.ctx_done s h
admit_in-Inv _ s h = tt

pub spawn_in-Inv : (p : Place) (s : System) → s.place ≡ p → At p s → Ensured Inv (spawn_in p s)
unfolding spawn_in
spawn_in-Inv in_session s e h =
    let t : System = record s { done = s.done ++ Loop.connected true ∷ [] } in
    subst (λ q. At q t) (sym e)
      (At-append in_session in_session s t (Loop.connected true ∷ []) refl h.sound refl
        (λ a b. omega (arith, a, b, h.paced)) h)
spawn_in-Inv _ s e h = tt

pub connect_in-Inv :
    (err : Option Text) (lasted : Duration) (p : Place) (s : System)
    → At p s
    → Ensured Inv (connect_in err lasted p s)
unfolding connect_in
connect_in-Inv err lasted in_session s h = record {
  sound = h.sound;
  quiet = h.quiet;
  paced = h.paced;
}
connect_in-Inv err lasted _ s h = tt

pub report_in-Inv : (p : Place) (s : System) → At p s → Ensured Inv (report_in p s)
unfolding report_in
report_in-Inv (ended err lasted) s h =
    At-append (ended err lasted) (reported err lasted) s
      (record s { place = reported err lasted; done = s.done ++ Loop.connected false ∷ [] })
      (Loop.connected false ∷ []) refl h.sound refl (λ a b. omega (arith, a, b, h.paced)) h
report_in-Inv _ s h = tt

pub observe_in-Inv : (p : Place) (s : System) → At p s → Ensured Inv (observe_in p s)
unfolding observe_in
observe_in-Inv (reported err lasted) s h = record {
  sound = h.sound;
  quiet = h.quiet;
  paced = h.paced;
}
observe_in-Inv _ s h = tt

pub let_go_in-Inv : (p : Place) (s : System) → At p s → Ensured Inv (let_go_in p s)
unfolding let_go_in
let_go_in-Inv (observed err lasted parked) s h =
    At-append (observed err lasted parked) (released err lasted parked) s
      (record s {
        place = released err lasted parked;
        world = record s.world { session_done = true };
        done = s.done ++ Loop.release ∷ [];
      })
      (Loop.release ∷ []) refl h.sound refl (λ a b. omega (arith, a, b, h.paced)) h
let_go_in-Inv _ s h = tt

log_end-counts :
    (err : Option Text) (lasted : Duration)
    → (count is_parked_line (log_end err lasted ∷ []) ≡ 0)
      × (count is_connect (log_end err lasted ∷ []) ≡ 0)
      × (count is_sleep (log_end err lasted ∷ []) ≡ 0)
unfolding log_end equal
log_end-counts none lasted = (refl, refl, refl)
log_end-counts (some e) lasted = (refl, refl, refl)

finished-Inv :
    (lo hi : Duration) (err : Option Text) (lasted : Duration) (parked done : Bool) (s : System)
    → (parked ≡ true → done ≡ true)
    → At (released err lasted parked) s
    → Inv (settled s (settle lo hi s.loop (round_of (λ n. 0) 0 err lasted parked done)))
unfolding settle
finished-Inv lo hi err lasted parked true s f h =
    At-append (released err lasted parked) returned s
      (record s { place = returned; done = s.done ++ [] }) [] refl tt refl
      (λ a b. omega (arith, a, b, h.paced)) h
finished-Inv lo hi err lasted true false s f h = cc (f refl)
finished-Inv lo hi err lasted false false s f h =
    let counts = log_end-counts err lasted in
    At-append (released err lasted false) at_head s
      (settled s (settle lo hi s.loop (round_of (λ n. 0) 0 err lasted false false)))
      (log_end err lasted ∷ []) refl tt counts.0
      (λ a b. ((λ e. cc), omega (arith, a, b, counts.1, counts.2, h.paced))) h

pub finish_in-Inv :
    (lo hi : Duration) (p : Place) (s : System) → At p s → Ensured Inv (finish_in lo hi p s)
unfolding finish_in
finish_in-Inv lo hi (released err lasted parked) s h =
    finished-Inv lo hi err lasted parked s.world.ctx_done s h.sound h
finish_in-Inv lo hi _ s h = tt
