-- ===== src/Bot/System/Fits.antt =====
-- Where a call of `Admit` has come to, by the place of the loop, under the steps of the gate.
use minecraft_afk_bot.Bot.System.{
  Place, at_head, sleeping, admitting, in_session, returned, ended, reported, observed, released,
  allowed,
}
use minecraft_afk_bot.Bot.System.Apart.{apart, apart_option, step-apart}
use minecraft_afk_bot.Presence.Api.{Api}
use minecraft_afk_bot.Presence.Gate
use minecraft_afk_bot.Presence.Gate.{
  World, Phase, admitted, refused, at_top, checked, waiting, Watcher, absent, woken, watching,
  follow, shutdown, check, look, wake, give_up, watcher_stop, watcher_wake, watcher_look, release,
  again, check_in, look_in, wake_in, give_up_in, again_in, watcher_stop_in, watcher_wake_in,
  watcher_look_in, start_session, is_closed,
}
use minecraft_afk_bot.Presence.Gate.Invariant.{continue-some}
use minecraft_afk_bot.Presence.Reconciler.{Reconciler, set}
use minecraft_afk_bot.Prelude.{
  ◌≡◌, ◌⊎◌, refl, ap, ◌∙◌, Bool, true, false, List, [], ◌∷◌, ◌++◌, Option, none, some, inl, inr,
  arith, some-injective,
}

module _ (api : Api) where
  continue-end : (o : Option World) → Gate.continue o (Gate.run api []) ≡ o
  unfolding Gate.continue Gate.run
  continue-end none = refl
  continue-end (some w) = refl

  -- One more step of the gate.
  run-snoc :
      (steps : List Gate.Step) (g : Gate.Step) (w v : World)
      → Gate.run api steps w ≡ some v
      → Gate.run api (steps ++ g ∷ []) w ≡ Gate.step api g v
  unfolding Gate.run
  run-snoc [] g w v e = rw (some-injective w v e) (continue-end (Gate.step api g v))
  run-snoc (s ∷ steps) g w v e =
      let (u, moved, rest) = continue-some api (Gate.step api s w) (Gate.run api steps) e in
      rw moved (unfold Gate.continue in run-snoc steps g u v rest)

  -- Reached by the gate alone, but for what is reported.
  abbrev pub IsReached : Reconciler → World → Type 0
  IsReached r w = (steps : List Gate.Step) × (Gate.run api steps (Gate.start r) ≡ some (apart w))

  pub IsReached-step :
      (r : Reconciler) (g : Gate.Step) (w v : World)
      → Gate.step api g w ≡ some v
      → IsReached r w
      → IsReached r v
  IsReached-step r g w v e (steps, reached) = (
    steps ++ g ∷ [],
    run-snoc steps g (Gate.start r) (apart w) reached ∙ (step-apart api g w ∙ ap apart_option e),
  )

  -- What the gate keeps of a world.
  abbrev pub Kept : World → World → Type 0
  Kept w v = v.reconciler.connected ≡ w.reconciler.connected

  abbrev pub EnsuredWorld : (World → Type 0) → Option World → Type 0
  EnsuredWorld P none = Unit
  EnsuredWorld P (some w) = P w

  pub step-Kept : (g : Gate.Step) (w : World) → EnsuredWorld (Kept w) (Gate.step api g w)
  unfolding Gate.step set
  step-Kept (follow state etag) w = ground arith
  step-Kept shutdown w = ground arith
  step-Kept check w = ground arith
  step-Kept look w = ground arith
  step-Kept wake w = ground arith
  step-Kept give_up w = ground arith
  step-Kept watcher_stop w = ground arith
  step-Kept watcher_wake w = ground arith
  step-Kept watcher_look w = ground arith
  step-Kept release w = refl
  step-Kept again w = ground arith

-- The steps of the poller, of the watcher and of the system.
abbrev pub is_outside : Gate.Step → Bool
is_outside (follow state etag) = true
is_outside shutdown = true
is_outside watcher_stop = true
is_outside watcher_wake = true
is_outside watcher_look = true
is_outside _ = false

-- Those keep where `Admit` stands, and an ended session.
abbrev pub Outside : World → World → Type 0
Outside w v = (v.phase ≡ w.phase) × (w.session_done ≡ true → v.session_done ≡ true)

module _ (api : Api) where
  pub step-Outside :
      (g : Gate.Step) (w : World)
      → is_outside g ≡ true
      → EnsuredWorld api (Outside w) (Gate.step api g w)
  unfolding Gate.step set
  step-Outside (follow state etag) w o = ground arith
  step-Outside shutdown w o = ground arith
  step-Outside check w o = cc
  step-Outside look w o = cc
  step-Outside wake w o = cc
  step-Outside give_up w o = cc
  step-Outside watcher_stop w o = ground arith
  step-Outside watcher_wake w o = ground arith
  step-Outside watcher_look w o = ground arith
  step-Outside release w o = cc
  step-Outside again w o = cc

-- Where a call of `Admit` has come to, by the place of the loop.
abbrev pub Fits : Place → World → Type 0
Fits at_head w = (w.phase ≡ at_top) ⊎ ((w.phase ≡ admitted) × (w.session_done ≡ true))
Fits sleeping w = (w.phase ≡ at_top) ⊎ ((w.phase ≡ admitted) × (w.session_done ≡ true))
Fits admitting w = Unit
Fits returned w = Unit
Fits in_session w = w.phase ≡ admitted
Fits (ended err lasted) w = w.phase ≡ admitted
Fits (reported err lasted) w = w.phase ≡ admitted
Fits (observed err lasted parked) w = w.phase ≡ admitted
Fits (released err lasted parked) w = (w.phase ≡ admitted) × (w.session_done ≡ true)

-- The places at which the bot may be reported as connected.
abbrev pub may_report : Place → Bool
may_report in_session = true
may_report (ended err lasted) = true
may_report _ = false

module _ (api : Api) where
  Fits-Outside : (p : Place) (w v : World) → Outside w v → Fits p w → Fits p v
  Fits-Outside at_head w v (same, over) h = ground arith
  Fits-Outside sleeping w v (same, over) h = ground arith
  Fits-Outside admitting w v (same, over) h = tt
  Fits-Outside returned w v (same, over) h = tt
  Fits-Outside in_session w v (same, over) h = same ∙ h
  Fits-Outside (ended err lasted) w v (same, over) h = same ∙ h
  Fits-Outside (reported err lasted) w v (same, over) h = same ∙ h
  Fits-Outside (observed err lasted parked) w v (same, over) h = same ∙ h
  Fits-Outside (released err lasted parked) w v (same, over) h = (same ∙ h.0, over h.1)

  pub allowed-outside :
      (p : Place) (g : Gate.Step) → allowed p g ≡ true → (p ≡ admitting) ⊎ (is_outside g ≡ true)
  allowed-outside p g a = ground arith

  pub EnsuredWorld-map :
      (P Q : World → Type 0) (o : Option World)
      → ((w : World) → P w → Q w)
      → EnsuredWorld api P o
      → EnsuredWorld api Q o
  EnsuredWorld-map P Q none f h = tt
  EnsuredWorld-map P Q (some w) f h = f w h

  EnsuredWorld-admitting : (o : Option World) → EnsuredWorld api (Fits admitting) o
  EnsuredWorld-admitting none = tt
  EnsuredWorld-admitting (some w) = tt

  -- The gate's steps keep the place of a loop that is elsewhere.
  pub gate-Fits :
      (p : Place) (g : Gate.Step) (w : World)
      → allowed p g ≡ true
      → Fits p w
      → EnsuredWorld api (Fits p) (Gate.step api g w)
  gate-Fits p g w a h = elim (allowed-outside p g a) [
    | inl e ↦ rw e (EnsuredWorld-admitting (Gate.step api g w))
    | inr o ↦
        EnsuredWorld-map (Outside w) (Fits p) (Gate.step api g w)
          (λ v out. Fits-Outside p w v out h) (step-Outside api g w o)
  ]
