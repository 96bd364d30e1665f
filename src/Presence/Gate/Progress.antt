-- ===== src/Presence/Gate/Progress.antt =====
-- What the steps of the gate and of the watchers achieve, and what ends a session.
use minecraft_afk_bot.Presence.Api.{Api, IsContract}
use minecraft_afk_bot.Presence.Client.{Client}
use minecraft_afk_bot.Presence.Gate.{
  Phase, at_top, checked, admitted, refused, waiting, Watcher, absent, woken, ended, watching,
  World, Step, follow, shutdown, check, look, wake, give_up, watcher_stop, watcher_wake,
  watcher_look, release, again, is_closed, start_session, check_in, look_in, wake_in,
  watcher_wake_in, watcher_look_in, step, run, start,
}
use minecraft_afk_bot.Presence.Gate.Invariant.{continue-some, reachable-Inv}
use minecraft_afk_bot.Presence.Gate.Waiters.{Informed, PhaseInv, WatcherInv}
use minecraft_afk_bot.Presence.Reconciler.{Reconciler, new_reconciler}
use minecraft_afk_bot.Prelude.{
  Text, ℕ, ◌≡◌, inl, inr, refl, Bool, true, false, List, [], ◌∷◌, Option, none, some, equal,
  equal_iff, arith, All, ap, ◌∙◌, subst, some-injective,
}

module _ (api : Api) where
  equal_self : (s : Text) → equal s s ≡ true
  equal_self s = (equal_iff s s).1 refl

  -- A waiter whose state has come finds its channel closed.
  Informed-closed :
      (r : Reconciler) (c : ℕ) (state : Text)
      → Informed api r c state
      → r.desired ≡ state
      → r.channels.closed c ≡ true
  Informed-closed r c state (inl closed) e = closed
  Informed-closed r c state (inr (current, other)) e = cc (other, (equal_iff r.desired state).1 e)

  run_two :
      (s t : Step) (w v u : World)
      → step api s w ≡ some v
      → step api t v ≡ some u
      → run api (s ∷ t ∷ []) w ≡ some u
  unfolding run
  run_two s t w v u first second = rw first (rw second)

  run_three :
      (s t u : Step) (w v x y : World)
      → step api s w ≡ some v
      → step api t v ≡ some x
      → step api u x ≡ some y
      → run api (s ∷ t ∷ u ∷ []) w ≡ some y
  unfolding run
  run_three s t u w v x y first second third = rw first (rw second (rw third))

  check_in-live :
      (w : World) → w.ctx_done ≡ false → check_in at_top w ≡ some (record w { phase = checked })
  unfolding check_in
  check_in-live w live = ground arith

  watcher_wake_in-closed :
      (v : Watcher) (w : World) (c : ℕ)
      → v ≡ watching c
      → is_closed w c ≡ true
      → watcher_wake_in v w ≡ some (record w { watcher = woken })
  unfolding watcher_wake_in
  watcher_wake_in-closed (watching d) w c e closed = ground arith
  watcher_wake_in-closed absent w c e closed = cc
  watcher_wake_in-closed woken w c e closed = cc
  watcher_wake_in-closed ended w c e closed = cc

  watcher_look_in-parked :
      (w : World)
      → w.reconciler.desired ≡ api.state_parked
      → watcher_look_in api woken w ≡ some (record w { watcher = ended; session_done = true })
  unfolding watcher_look_in
  watcher_look_in-parked w parked =
      let same = (equal_iff w.reconciler.desired api.state_parked).1 parked in ground arith

  -- In every world that is reached with the bot parked, a session whose watcher is in its `select`
  -- is cancelled by the watcher's next two steps: no park is lost, however it fell between the
  -- admission, the start of the watcher and its waits.
  pub park_cancels :
      IsContract api
      → (c : Client) (initial version : Text) (steps : List Step) (w : World) (chan : ℕ)
      → run api steps (start (new_reconciler c initial version)) ≡ some w
      → w.watcher ≡ watching chan
      → w.reconciler.desired ≡ api.state_parked
      → run api (watcher_wake ∷ watcher_look ∷ []) w
        ≡ some (record w { watcher = ended; session_done = true })
  unfolding step
  park_cancels k c initial version steps w chan e waits parked =
      let inv = reachable-Inv api k c initial version steps w e in
      let watched : Informed api w.reconciler chan api.state_parked =
        subst (λ v. WatcherInv api w.reconciler v) waits inv.watched in
      let closed = Informed-closed w.reconciler chan api.state_parked watched parked in
      let woke : World = record w { watcher = woken } in
      run_two watcher_wake watcher_look w woke (record w { watcher = ended; session_done = true })
        (watcher_wake_in-closed w.watcher w chan waits closed) (watcher_look_in-parked woke parked)

  wake_in-closed :
      (p : Phase) (w : World) (c : ℕ)
      → p ≡ waiting c
      → is_closed w c ≡ true
      → wake_in p w ≡ some (record w { phase = at_top })
  unfolding wake_in
  wake_in-closed (waiting d) w c e closed = ground arith
  wake_in-closed at_top w c e closed = cc
  wake_in-closed checked w c e closed = cc
  wake_in-closed admitted w c e closed = cc
  wake_in-closed refused w c e closed = cc

  look_in-present :
      (w : World)
      → w.reconciler.desired ≡ api.state_present
      → look_in api checked w ≡ some (start_session w)
  unfolding look_in
  look_in-present w present =
      let same = (equal_iff w.reconciler.desired api.state_present).1 present in ground arith

  -- In every world that is reached with the bot present and the program running, an `Admit` that is
  -- in its `select` returns a session after its next three steps, and that session is live and
  -- watched on the current channel.
  pub resume_admits :
      IsContract api
      → (c : Client) (initial version : Text) (steps : List Step) (w : World) (chan : ℕ)
      → run api steps (start (new_reconciler c initial version)) ≡ some w
      → w.phase ≡ waiting chan
      → w.reconciler.desired ≡ api.state_present
      → w.ctx_done ≡ false
      → run api (wake ∷ check ∷ look ∷ []) w
        ≡ some (record w {
          phase = admitted;
          watcher = watching w.reconciler.changed;
          session_done = false;
        })
  unfolding step
  resume_admits k c initial version steps w chan e waits present live =
      let inv = reachable-Inv api k c initial version steps w e in
      let waiter : Informed api w.reconciler chan api.state_present =
        subst (λ p. PhaseInv api w.reconciler p) waits inv.waiter in
      let closed = Informed-closed w.reconciler chan api.state_present waiter present in
      let top : World = record w { phase = at_top } in
      let past : World = record w { phase = checked } in
      run_three wake check look w top past (start_session past)
        (wake_in-closed w.phase w chan waits closed) (check_in-live top live)
        (look_in-present past present)
      ∙ ap
          (λ d. some (record w {
            phase = admitted;
            watcher = watching w.reconciler.changed;
            session_done = d;
          }))
          live

  -- What ends a session: a shutdown, its own release, or a parked state.
  abbrev pub ends_session : Step → Bool
  ends_session shutdown = true
  ends_session release = true
  ends_session (follow state etag) = equal state api.state_parked
  ends_session _ = false

  -- A world whose session is live and whose desired state is not parked.
  pub record IsCalm (w : World) : Type 0 where
    pub live : w.session_done ≡ false
    pub running : w.ctx_done ≡ false
    pub not_parked : equal w.reconciler.desired api.state_parked ≡ false

  AfterCalm : Option World → Type 0
  AfterCalm none = Unit
  AfterCalm (some w) = IsCalm w

  step-IsCalm :
      (s : Step) (w : World) → ends_session s ≡ false → IsCalm w → AfterCalm (step api s w)
  unfolding AfterCalm step
  step-IsCalm (follow state etag) w quiet h = ground (arith, equal_iff state w.reconciler.desired)
  step-IsCalm shutdown w quiet h = cc
  step-IsCalm check w quiet h = ground arith
  step-IsCalm look w quiet h = ground arith
  step-IsCalm wake w quiet h = ground arith
  step-IsCalm give_up w quiet h = ground arith
  step-IsCalm watcher_stop w quiet h = ground arith
  step-IsCalm watcher_wake w quiet h = ground arith
  step-IsCalm watcher_look w quiet h = ground arith
  step-IsCalm release w quiet h = cc
  step-IsCalm again w quiet h = ground arith

  run-IsCalm :
      (steps : List Step) (w w' : World)
      → All (λ s. ends_session s ≡ false) steps
      → IsCalm w
      → run api steps w ≡ some w'
      → IsCalm w'
  unfolding run
  run-IsCalm [] w w' quiet h e = subst IsCalm (some-injective w w' e) h
  run-IsCalm (s ∷ steps) w w' (q, quiet) h e =
      let (v, moved, rest) = continue-some api (step api s w) (run api steps) e in
      let next : AfterCalm (some v) = subst AfterCalm moved (step-IsCalm s w q h) in
      run-IsCalm steps v w' quiet (unfold AfterCalm in next) rest

  -- From a world with a live session and no park, whatever the other threads do and in whatever
  -- order, the session stays live unless the process is told to stop, the session is released, or
  -- the poller sets the parked state. In particular an agent that is down ends no session.
  pub session_stays :
      (steps : List Step) (w w' : World)
      → All (λ s. ends_session s ≡ false) steps
      → IsCalm w
      → run api steps w ≡ some w'
      → w'.session_done ≡ false
  session_stays steps w w' quiet h e = (run-IsCalm steps w w' quiet h e).live
