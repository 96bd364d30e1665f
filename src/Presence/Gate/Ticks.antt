-- ===== src/Presence/Gate/Ticks.antt =====
-- The poller beside the gate: `tick` of internal/presence/reconciler.go does to what the threads share
-- what the gate's step `follow` says, or nothing.
use minecraft_afk_bot.Presence.Api.{Api}
use minecraft_afk_bot.Presence.Client.{
  ok, err, ClientError, Fetched, answered, Response, Net, fetch, fetch_request, report, max_body,
}
use minecraft_afk_bot.Presence.Client.Answers.{NotModified, GaveState, fetch-ok}
use minecraft_afk_bot.Presence.Gate.{World, follow, step}
use minecraft_afk_bot.Presence.Reconciler.{
  Reconciler, set, apply_fetched, apply_reported, poll, report_status, status_of, tick,
}
use minecraft_afk_bot.Presence.Reconciler.Static.{Result-cases}
use minecraft_afk_bot.Presence.Streak.{Streak, quiet, succeeded}
use minecraft_afk_bot.Prelude.{
  Text, take, Bool, true, false, ◌≡◌, ◌⊎◌, inl, inr, refl, sym, ap, ◌∙◌, [], Option, none, some,
  equal, Bool-cases,
}

abbrev no_streak : Streak
no_streak = record { event = []; kind = quiet }

-- A reconciler less what only the poller's own log reads.
abbrev pub shared : Reconciler → Reconciler
shared r = record r { fetch_streak = no_streak; report_streak = no_streak }

abbrev pub shared_world : World → World
shared_world w = record w { reconciler = shared w.reconciler }

-- A fetch that the agent answers with 200 and a valid state.
abbrev pub Gives : Api → Net → Reconciler → Text → Text → Type 0
Gives api net r state etag =
    (resp : Response) × (net.exchange (fetch_request net r.client r.etag) ≡ answered resp)
    × (resp.status_code ≡ 200)
    × (api.decode_effective (take max_body resp.body) ≡ some state)
    × (api.valid state ≡ true)
    × (resp.etag ≡ etag)

-- Nothing that the threads share has changed, or it is as the agent's answer has set it.
abbrev pub Follows : Api → Net → Reconciler → Reconciler → Type 0
Follows api net r r' =
    (shared r' ≡ shared r)
    ⊎ ((state : Text) × (etag : Text) × Gives api net r state etag
        × (shared r' ≡ (set state etag (shared r)).0))

shared-set :
    (state etag : Text) (s : Streak) (r : Reconciler)
    → shared (set state etag (record r { fetch_streak = s })).0 ≡ (set state etag (shared r)).0
unfolding set
shared-set state etag s r = elim (Bool-cases (equal state r.desired)) [
  | inl e ↦ rw e refl
  | inr e ↦ rw e refl
]

shared-err :
    (done : Bool) (e : ClientError) (r : Reconciler)
    → shared (apply_fetched done (err e) r).0 ≡ shared r
unfolding apply_fetched
shared-err true e r = refl
shared-err false e r = refl

shared-kept :
    (done : Bool) (f : Fetched) (r : Reconciler)
    → f.not_modified ≡ true
    → shared (apply_fetched done (ok f) r).0 ≡ shared r
unfolding apply_fetched
shared-kept done f r h = rw h refl

shared-moved :
    (done : Bool) (f : Fetched) (r : Reconciler)
    → f.not_modified ≡ false
    → shared (apply_fetched done (ok f) r).0 ≡ (set f.effective f.etag (shared r)).0
unfolding apply_fetched
shared-moved done f r h = rw h (shared-set f.effective f.etag (succeeded r.fetch_streak).0 r)

shared-reported :
    (done : Bool) (observed : Text) (o : Option ClientError) (r : Reconciler)
    → shared (apply_reported done observed o r).0 ≡ shared r
unfolding apply_reported
shared-reported done observed none r = refl
shared-reported true observed (some e) r = refl
shared-reported false observed (some e) r = refl

module _ (api : Api) (net : Net) where
  poll-Follows : (done : Bool) (r : Reconciler) → Follows api net r (poll api net done r).0
  unfolding poll
  poll-Follows done r = elim (Result-cases (fetch api net r.client r.etag)) [
    | inl (e, h) ↦ rw h (inl (shared-err done e r))
    | inr (f, h) ↦ rw h (from_answer done r f (fetch-ok api net r.client r.etag f h))
  ]
    where
      from_answer :
          (done : Bool) (r : Reconciler) (f : Fetched)
          → ((resp : Response) × (net.exchange (fetch_request net r.client r.etag) ≡ answered resp)
              × (NotModified resp r.etag f ⊎ GaveState api resp f))
          → Follows api net r (apply_fetched done (ok f) r).0
      from_answer done r f (resp, x, inl (code, e)) = inl (shared-kept done f r (rw e refl))
      from_answer done r f (resp, x, inr given) = inr (
        f.effective,
        f.etag,
        (resp, x, given.0, given.1, given.2, sym given.3),
        shared-moved done f r given.4,
      )

-- What one tick of the poller does to the state that the threads share is one step `follow` of the
-- gate, to the valid state and the tag of the agent's answer of 200, or nothing at all.
pub tick-Follows :
    (api : Api) (net net' : Net) (done done' : Bool) (w : World)
    → let r = (tick api net net' done done' w.reconciler).0 in
      let w' = record w { reconciler = r } in
      (shared_world w' ≡ shared_world w)
      ⊎ ((state : Text) × (etag : Text) × Gives api net w.reconciler state etag
          × (step api (follow state etag) (shared_world w) ≡ some (shared_world w')))
unfolding tick step report_status
tick-Follows api net net' done done' w =
    let r = (poll api net done w.reconciler).0 in
    let last =
      shared-reported done' (status_of api r).observed_state
        (report api net' r.client (status_of api r)) r in
    elim (poll-Follows api net done w.reconciler) [
      | inl same ↦ inl (ap (λ x. record w { reconciler = x }) (last ∙ same))
      | inr (state, etag, given, moved) ↦
          inr
            (state, etag, given, ap (λ x. some (record w { reconciler = x })) (sym (last ∙ moved)))
    ]
