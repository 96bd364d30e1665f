-- ===== src/Bot/System/Apart.antt =====
-- The steps of the gate do not depend on what is reported of the connection.
use minecraft_afk_bot.Bot.System.{tell}
use minecraft_afk_bot.Presence.Api.{Api}
use minecraft_afk_bot.Presence.Gate
use minecraft_afk_bot.Presence.Gate.{
  World, Phase, admitted, refused, at_top, checked, waiting, Watcher, absent, woken, watching,
  follow, shutdown, check, look, wake, give_up, watcher_stop, watcher_wake, watcher_look, release,
  again, check_in, look_in, wake_in, give_up_in, again_in, watcher_stop_in, watcher_wake_in,
  watcher_look_in, start_session, is_closed,
}
use minecraft_afk_bot.Presence.Reconciler.{Reconciler, set, set_connected}
use minecraft_afk_bot.Prelude.{
  Text, ◌≡◌, refl, ap, Bool, true, false, Option, none, some, Bool-cases, inl, inr, equal,
  if◌then◌else◌,
}

-- A world with nothing reported as connected.
abbrev pub apart : World → World
apart = tell false

abbrev pub apart_option : Option World → Option World
apart_option none = none
apart_option (some w) = some (apart w)

apart-if : (b : Bool) (v w : World) → (if b then apart v else apart w) ≡ apart (if b then v else w)
apart-if true v w = refl
apart-if false v w = refl

apart-guard :
    (b : Bool) (v : World)
    → (if b then some (apart v) else none) ≡ apart_option (if b then some v else none)
apart-guard true v = refl
apart-guard false v = refl

module _ (api : Api) where
  check-apart : (p : Phase) (w : World) → check_in p (apart w) ≡ apart_option (check_in p w)
  unfolding check_in set_connected
  check-apart at_top w = refl
  check-apart _ w = refl

  look-apart : (p : Phase) (w : World) → look_in api p (apart w) ≡ apart_option (look_in api p w)
  unfolding look_in set_connected
  look-apart checked w =
      ap some (apart-if _ (start_session w) (record w { phase = waiting w.reconciler.changed }))
  look-apart _ w = refl

  wake-apart : (p : Phase) (w : World) → wake_in p (apart w) ≡ apart_option (wake_in p w)
  unfolding wake_in set_connected
  wake-apart (waiting c) w = apart-guard (is_closed w c) (record w { phase = at_top })
  wake-apart _ w = refl

  give_up-apart : (p : Phase) (w : World) → give_up_in p (apart w) ≡ apart_option (give_up_in p w)
  unfolding give_up_in set_connected
  give_up-apart (waiting c) w = apart-guard w.ctx_done (record w { phase = refused })
  give_up-apart _ w = refl

  again-apart : (p : Phase) (w : World) → again_in p (apart w) ≡ apart_option (again_in p w)
  unfolding again_in set_connected
  again-apart admitted w = apart-guard w.session_done (record w { phase = at_top })
  again-apart _ w = refl

  stop-apart :
      (v : Watcher) (w : World) → watcher_stop_in v (apart w) ≡ apart_option (watcher_stop_in v w)
  unfolding watcher_stop_in set_connected
  stop-apart (watching c) w = apart-guard w.session_done (record w { watcher = Gate.ended })
  stop-apart _ w = refl

  woken-apart :
      (v : Watcher) (w : World) → watcher_wake_in v (apart w) ≡ apart_option (watcher_wake_in v w)
  unfolding watcher_wake_in set_connected
  woken-apart (watching c) w = apart-guard (is_closed w c) (record w { watcher = woken })
  woken-apart _ w = refl

  looked-apart :
      (v : Watcher) (w : World)
      → watcher_look_in api v (apart w) ≡ apart_option (watcher_look_in api v w)
  unfolding watcher_look_in set_connected
  looked-apart woken w = ap some (
      apart-if _ (record w { watcher = Gate.ended; session_done = true })
        (record w { watcher = watching w.reconciler.changed }))
  looked-apart _ w = refl

  set-apart :
      (state etag : Text) (r : Reconciler)
      → (set state etag (set_connected false r)).0 ≡ set_connected false (set state etag r).0
  unfolding set set_connected
  set-apart state etag r = elim (Bool-cases (equal state r.desired)) [
    | inl e ↦ rw e refl
    | inr e ↦ rw e refl
  ]

  pub step-apart :
      (g : Gate.Step) (w : World) → Gate.step api g (apart w) ≡ apart_option (Gate.step api g w)
  unfolding Gate.step
  step-apart (follow state etag) w =
      ap (λ r. some (record w { reconciler = r })) (set-apart state etag w.reconciler)
  step-apart shutdown w = refl
  step-apart check w = check-apart w.phase w
  step-apart look w = look-apart w.phase w
  step-apart wake w = wake-apart w.phase w
  step-apart give_up w = give_up-apart w.phase w
  step-apart watcher_stop w = stop-apart w.watcher w
  step-apart watcher_wake w = woken-apart w.watcher w
  step-apart watcher_look w = looked-apart w.watcher w
  step-apart release w = refl
  step-apart again w = again-apart w.phase w
