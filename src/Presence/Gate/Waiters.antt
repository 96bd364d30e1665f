-- ===== src/Presence/Gate/Waiters.antt =====
-- Who waits on which channel, before and after a change of state.
use minecraft_afk_bot.Presence.Api.{Api, IsContract}
use minecraft_afk_bot.Presence.Gate.{
  Phase, at_top, checked, admitted, refused, waiting, Watcher, absent, woken, ended, watching,
}
use minecraft_afk_bot.Presence.Reconciler.{Reconciler, set}
use minecraft_afk_bot.Prelude.{
  Text, ℕ, ◌≤◌, ◌<◌, ◌≡◌, ◌⊎◌, inl, inr, true, false, equal, equal_iff, arith, Bool-cases, sym, ◌∙◌,
}

-- The current channel is open, and no channel is closed before it is made.
pub record IsWired (r : Reconciler) : Type 0 where
  pub current : r.changed < r.channels.made
  pub is_open : r.channels.closed r.changed ≡ false
  pub unborn : (c : ℕ) → r.channels.made ≤ c → r.channels.closed c ≡ false

pub set-IsWired : (state etag : Text) (r : Reconciler) → IsWired r → IsWired (set state etag r).0
unfolding set
set-IsWired state etag r h = elim (Bool-cases (equal state r.desired)) [
  | inl same ↦ rw same (record { current = h.current; is_open = h.is_open; unborn = h.unborn })
  | inr moved ↦ rw moved (record {
    current = omega (arith, h.current);
    is_open = ground (arith, h.current, h.unborn r.channels.made);
    unborn = λ c le. ground (arith, h.current, h.unborn c);
  })
]

module _ (api : Api) where
  -- The waiter's channel is closed, or it is the current one and the state is not the one awaited.
  abbrev pub Informed : Reconciler → ℕ → Text → Type 0
  Informed r c state =
      (r.channels.closed c ≡ true) ⊎ ((c ≡ r.changed) × (equal r.desired state ≡ false))

  -- `Admit` waits for present.
  abbrev pub PhaseInv : Reconciler → Phase → Type 0
  PhaseInv r (waiting c) = Informed r c api.state_present
  PhaseInv r _ = Unit

  -- The watcher waits for parked.
  abbrev pub WatcherInv : Reconciler → Watcher → Type 0
  WatcherInv r (watching c) = Informed r c api.state_parked
  WatcherInv r _ = Unit

  -- A change closes the channel of everyone who waits on the current one, and opens no closed one.
  set-Informed :
      (state etag awaited : Text) (r : Reconciler) (c : ℕ)
      → Informed r c awaited
      → Informed (set state etag r).0 c awaited
  unfolding set
  set-Informed state etag awaited r c h = ground arith

  pub set-PhaseInv :
      (state etag : Text) (r : Reconciler) (p : Phase)
      → PhaseInv r p
      → PhaseInv (set state etag r).0 p
  set-PhaseInv state etag r (waiting c) h = set-Informed state etag api.state_present r c h
  set-PhaseInv state etag r at_top h = tt
  set-PhaseInv state etag r checked h = tt
  set-PhaseInv state etag r admitted h = tt
  set-PhaseInv state etag r refused h = tt

  pub set-WatcherInv :
      (state etag : Text) (r : Reconciler) (p : Watcher)
      → WatcherInv r p
      → WatcherInv (set state etag r).0 p
  set-WatcherInv state etag r (watching c) h = set-Informed state etag api.state_parked r c h
  set-WatcherInv state etag r absent h = tt
  set-WatcherInv state etag r woken h = tt
  set-WatcherInv state etag r ended h = tt

  pub not_parked :
      IsContract api
      → (s : Text) → equal s api.state_present ≡ true
      → equal s api.state_parked ≡ false
  not_parked k s h = elim (Bool-cases (equal s api.state_parked)) [
    | inl e ↦ absurd (k.distinct (sym ((equal_iff _ _).0 h) ∙ (equal_iff _ _).0 e))
    | inr e ↦ e
  ]
