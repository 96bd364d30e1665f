-- ===== src/Presence/Reconciler/Static.antt =====
-- What moves the reconciler, and what does not.
use minecraft_afk_bot.Presence.Api.{Api}
use minecraft_afk_bot.Presence.Client.{
  Result, ok, err, ClientError, Fetched, Request, Response, answered, Net, fetch_request, fetch,
  report,
}
use minecraft_afk_bot.Presence.Client.Answers.{NotModified, GaveState, fetch-ok}
use minecraft_afk_bot.Presence.Reconciler.{
  Reconciler, set, apply_fetched, apply_reported, poll, report_status, status_of, tick,
}
use minecraft_afk_bot.Presence.Streak.{succeeded}
use minecraft_afk_bot.Prelude.{
  Text, Bool, true, false, List, ◌≡◌, ◌≢◌, ◌⊎◌, inl, inr, refl, arith, equal_iff, Option-cases, All,
  [], ◌∷◌, ◌∙◌,
}

-- What the bot acts on, and whom it tells, are the same.
pub record SameCourse (r r' : Reconciler) : Type 0 where
  pub desired : r'.desired ≡ r.desired
  pub changed : r'.changed ≡ r.changed
  pub channels : r'.channels ≡ r.channels
  pub connected : r'.connected ≡ r.connected

pub Result-cases :
    (x : Result Fetched) → ((e : ClientError) × (x ≡ err e)) ⊎ ((f : Fetched) × (x ≡ ok f))
Result-cases (err e) = inl (e, refl)
Result-cases (ok f) = inr (f, refl)

apply_fetched-err :
    (done : Bool) (e : ClientError) (r : Reconciler)
    → SameCourse r (apply_fetched done (err e) r).0
      × ((apply_fetched done (err e) r).0.etag ≡ r.etag)
unfolding apply_fetched
apply_fetched-err done e r = ground arith

apply_fetched-kept :
    (done : Bool) (f : Fetched) (r : Reconciler)
    → f.not_modified ≡ true
    → SameCourse r (apply_fetched done (ok f) r).0 × ((apply_fetched done (ok f) r).0.etag ≡ r.etag)
unfolding apply_fetched
apply_fetched-kept done f r h = ground arith

set_lem :
    (state etag : Text) (r : Reconciler)
    → ((set state etag r).0.desired ≡ state)
      × ((set state etag r).0.etag ≡ etag)
      × ((set state etag r).0.connected ≡ r.connected)
unfolding set
set_lem state etag r = ground (arith, equal_iff state r.desired)

apply_fetched-set :
    (done : Bool) (f : Fetched) (r : Reconciler)
    → f.not_modified ≡ false
    → let r' = (apply_fetched done (ok f) r).0 in
      (r'.desired ≡ f.effective) × (r'.etag ≡ f.etag) × (r'.connected ≡ r.connected)
unfolding apply_fetched
apply_fetched-set done f r h =
    rw h (set_lem f.effective f.etag (record r { fetch_streak = (succeeded r.fetch_streak).0 }))

-- The poll got an answer of 200 with a valid state, and now acts on that state under that tag.
abbrev pub Followed : Api → Net → Reconciler → Reconciler → Type 0
Followed api net r r' =
    (resp : Response) × (f : Fetched) × (net.exchange (fetch_request net r.client r.etag)
      ≡ answered resp)
    × GaveState api resp f
    × (r'.desired ≡ f.effective)
    × (r'.etag ≡ resp.etag)
    × (r'.connected ≡ r.connected)

-- A poll either leaves alone what the bot acts on, the tag and everyone who waits, or follows a
-- valid state that the agent gave in an answer of 200. No error of any kind does more than the first.
pub poll_moves :
    (api : Api) (net : Net) (done : Bool) (r : Reconciler)
    → (SameCourse r (poll api net done r).0 × ((poll api net done r).0.etag ≡ r.etag))
      ⊎ Followed api net r (poll api net done r).0
unfolding poll
poll_moves api net done r = elim (Result-cases (fetch api net r.client r.etag)) [
  | inl (e, h) ↦ rw h (inl (apply_fetched-err done e r))
  | inr (f, h) ↦ rw h (from_answer api net done r f (fetch-ok api net r.client r.etag f h))
]
  where
    from_answer :
        (api : Api) (net : Net) (done : Bool) (r : Reconciler) (f : Fetched)
        → ((resp : Response) × (net.exchange (fetch_request net r.client r.etag) ≡ answered resp)
            × (NotModified resp r.etag f ⊎ GaveState api resp f))
        → (SameCourse r (apply_fetched done (ok f) r).0
            × ((apply_fetched done (ok f) r).0.etag ≡ r.etag))
          ⊎ Followed api net r (apply_fetched done (ok f) r).0
    from_answer api net done r f (resp, x, inl (code, e)) =
        inl (apply_fetched-kept done f r (rw e refl))
    from_answer api net done r f (resp, x, inr given) =
        let (desired, etag, connected) = apply_fetched-set done f r given.4 in
        inr (resp, f, x, given, desired, etag ∙ given.3, connected)

report_status-SameCourse :
    (api : Api) (net : Net) (done : Bool) (r : Reconciler)
    → SameCourse r (report_status api net done r).0
unfolding report_status apply_reported
report_status-SameCourse api net done r =
    elim (Option-cases (report api net r.client (status_of api r))) [
      | inl h ↦ rw h (ground arith)
      | inr (e, h) ↦ rw h (ground arith)
    ]

-- The network and the context of one tick of the poller.
pub record Tick : Type 0 where
  pub fetch_net : Net
  pub report_net : Net
  pub fetch_done : Bool
  pub report_done : Bool

-- `Run`, over the ticks that happen.
abbrev pub run : Api → Reconciler → List Tick → Reconciler
run api r [] = r
run api r (t ∷ ticks) =
    run api (tick api t.fetch_net t.report_net t.fetch_done t.report_done r).0 ticks

-- A network with no answer of 200 to any request.
abbrev pub IsDown : Net → Type 0
IsDown net =
    (req : Request) (resp : Response) → net.exchange req ≡ answered resp → resp.status_code ≢ 200

tick-down :
    (api : Api) (t : Tick) (r : Reconciler)
    → IsDown t.fetch_net
    → (tick api t.fetch_net t.report_net t.fetch_done t.report_done r).0.desired ≡ r.desired
unfolding tick
tick-down api t r down =
    let polled = (poll api t.fetch_net t.fetch_done r).0 in
    let told = (report_status-SameCourse api t.report_net t.report_done polled).desired in
    elim (poll_moves api t.fetch_net t.fetch_done r) [
      | inl (same, e) ↦ told ∙ same.desired
      | inr (resp, f, x, given, d, e, c) ↦ absurd (down _ resp x given.0)
    ]

-- While the agent is down, unreachable, refusing or answering anything but 200, the bot acts on
-- what it was last told, for as many ticks as that lasts.
pub outage_holds :
    (api : Api) (r : Reconciler) (ticks : List Tick)
    → All (λ t. IsDown t.fetch_net) ticks
    → (run api r ticks).desired ≡ r.desired
outage_holds api r [] down = refl
outage_holds api r (t ∷ ticks) (d, down) =
    let r' = (tick api t.fetch_net t.report_net t.fetch_done t.report_done r).0 in
    outage_holds api r' ticks down ∙ tick-down api t r d
