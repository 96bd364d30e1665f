-- ===== src/Bot/Threads/Entries.antt =====
-- What a step of the loop keeps on its way to a session.
use minecraft_afk_bot.Bot.Backoff.{Duration, Int63n}
use minecraft_afk_bot.Bot.Loop
use minecraft_afk_bot.Bot.Loop.{Loop, settle}
use minecraft_afk_bot.Bot.Session.Result.{is_session_ended}
use minecraft_afk_bot.Bot.Session.Steps.{Progress, begun}
use minecraft_afk_bot.Bot.System.{
  Place, at_head, sleeping, admitting, returned, System, waiting_for, head_in, timer_in,
  stop_waiting_in, admit_in, admit_of, enter,
}
use minecraft_afk_bot.Bot.Threads.{with_session}
use minecraft_afk_bot.Bot.Threads.Held.{At, Inv}
use minecraft_afk_bot.Bot.Threads.Runs.{Ensured}
use minecraft_afk_bot.Gophertunnel.{Constants}
use minecraft_afk_bot.Mcproto.{Protocol}
use minecraft_afk_bot.Presence.Gate.{Phase, admitted, refused}
use minecraft_afk_bot.Prelude.{
  ℕ, ◌≡◌, refl, ◌∙◌, Bool, true, false, List, [], ◌∷◌, ◌++◌, Option, none, some, equal, count,
  count-append, if◌then◌else◌,
}

-- More actions without that line.
pub quiet-append :
    (xs ys : List Loop.Action)
    → count is_session_ended xs ≡ 0
    → count is_session_ended ys ≡ 0
    → count is_session_ended (xs ++ ys) ≡ 0
quiet-append xs ys hx hy = count-append is_session_ended xs ys ∙ rw (hx, hy) refl

waiting-quiet : (i : Int63n) (d : Duration) → count is_session_ended (waiting_for i d) ≡ 0
unfolding equal
waiting-quiet i d = refl

module _ {Position Schema : Type 0} (k : Constants) (v : ℕ) (baked : Protocol Schema) where
  abbrev pub Keeps : Progress Position → Option System → Type 0
  Keeps p o = Ensured (Inv k v baked) (with_session p o)

  abbrev pub Here : Place → System → Progress Position → Type 0
  Here q s p = At k v baked q s.world s.done p

  Here-if :
      (b : Bool) (p : Progress Position) (x y : System)
      → Here x.place x p
      → Here y.place y p
      → Keeps p (some (if b then x else y))
  Here-if true p x y hx hy = hx
  Here-if false p x y hx hy = hy

  enter-Here : (s : System) (p : Progress Position) → Here sleeping s p → Here admitting (enter s) p
  enter-Here s p h = record { told = h.told; held = h.held; explained = tt; quiet = h.quiet }

  pub head_in-Keeps :
      (i : Int63n) (q : Place) (s : System) (p : Progress Position)
      → Here q s p
      → Keeps p (head_in i q s)
  unfolding head_in
  head_in-Keeps i at_head s p h =
      let wait = waiting_for i s.loop.delay in
      let slow : System = record s { place = sleeping; done = s.done ++ wait } in
      let idle : Here sleeping s p = record {
        told = h.told;
        held = h.held;
        explained = tt;
        quiet = h.quiet;
      } in
      Here-if s.world.ctx_done p (record s { place = returned })
        (if s.loop.first then enter s else slow)
        (record { told = h.told; held = h.held; explained = tt; quiet = h.quiet })
        (Here-if s.loop.first p (enter s) slow (enter-Here s p idle) (record {
          told = h.told;
          held = h.held;
          explained = tt;
          quiet = quiet-append s.done wait h.quiet (waiting-quiet i s.loop.delay);
        }))
  head_in-Keeps i _ s p h = tt

  pub timer_in-Keeps :
      (q : Place) (s : System) (p : Progress Position) → Here q s p → Keeps p (timer_in q s)
  unfolding timer_in
  timer_in-Keeps sleeping s p h = enter-Here s p h
  timer_in-Keeps _ s p h = tt

  Keeps-guard :
      (b : Bool) (p : Progress Position) (x : System)
      → Here x.place x p
      → Keeps p (if b then some x else none)
  Keeps-guard true p x h = h
  Keeps-guard false p x h = tt

  pub stop_waiting_in-Keeps :
      (q : Place) (s : System) (p : Progress Position) → Here q s p → Keeps p (stop_waiting_in q s)
  unfolding stop_waiting_in
  stop_waiting_in-Keeps sleeping s p h =
      Keeps-guard s.world.ctx_done p (record s { place = returned })
        (record { told = h.told; held = h.held; explained = tt; quiet = h.quiet })
  stop_waiting_in-Keeps _ s p h = tt

  -- The session that the loop enters has just begun.
  admit_of-Keeps :
      (phase : Phase) (s : System) (p : Progress Position)
      → Here admitting s p
      → Keeps begun (admit_of phase s)
  unfolding admit_of
  admit_of-Keeps admitted s p h = record {
    told = h.told;
    held = refl;
    explained = λ e. cc;
    quiet = quiet-append s.done (Loop.admit true ∷ Loop.connect ∷ []) h.quiet refl;
  }
  admit_of-Keeps refused s p h = record {
    told = h.told;
    held = refl;
    explained = tt;
    quiet = quiet-append s.done (Loop.admit false ∷ []) h.quiet refl;
  }
  admit_of-Keeps _ s p h = tt

  pub admit_in-Keeps :
      (q : Place) (s : System) (p : Progress Position) → Here q s p → Keeps begun (admit_in q s)
  unfolding admit_in
  admit_in-Keeps admitting s p h = admit_of-Keeps s.world.phase s p h
  admit_in-Keeps _ s p h = tt
