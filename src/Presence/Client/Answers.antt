-- ===== src/Presence/Client/Answers.antt =====
-- What the client makes of the agent's answers.
use minecraft_afk_bot.Presence.Api.{Api}
use minecraft_afk_bot.Presence.Client.{
  Result, ok, ClientError, Fetched, Client, Status, Response, Exchange, answered, unanswered, Net,
  max_body, fetch_request, report_request, check_presence, read_fetched, fetch_built, report_built,
  fetch, read_reported, report,
}
use minecraft_afk_bot.Prelude.{
  Text, ◌≤◌, ◌<◌, true, false, [], Option, none, some, take, ◌≡◌, ◌⊎◌, inl, inr, ◌↔◌, refl, arith,
  Bool-cases, ==_iff, ◌==◌,
}

-- The agent said that nothing changed, to a request that carried this tag.
abbrev pub NotModified : Response → Text → Fetched → Type 0
NotModified r etag f =
    (r.status_code ≡ 304) × (f ≡ record { effective = []; etag = etag; not_modified = true })

-- The agent gave a valid state, in at most the first 64 KiB of its answer.
abbrev pub GaveState : Api → Response → Fetched → Type 0
GaveState api r f =
    (r.status_code ≡ 200)
    × (api.decode_effective (take max_body r.body) ≡ some f.effective)
    × (api.valid f.effective ≡ true)
    × (f.etag ≡ r.etag)
    × (f.not_modified ≡ false)

module _ (api : Api) (net : Net) where
  check_presence-ok :
      (r : Response) (o : Option Text) (f : Fetched)
      → check_presence api net r o ≡ ok f
      → (o ≡ some f.effective)
        × (api.valid f.effective ≡ true)
        × (f.etag ≡ r.etag)
        × (f.not_modified ≡ false)
  unfolding check_presence
  check_presence-ok r none f h = cc
  check_presence-ok r (some state) f h = ground arith

  read_fetched-ok :
      (etag : Text) (x : Exchange) (f : Fetched)
      → read_fetched api net etag x ≡ ok f
      → (r : Response) × (x ≡ answered r) × (NotModified r etag f ⊎ GaveState api r f)
  unfolding read_fetched
  read_fetched-ok etag (unanswered e) f h = cc
  read_fetched-ok etag (answered r) f h = (
    r,
    refl,
    elim (Bool-cases (r.status_code == 304)) [
      | inl same ↦ inl ((==_iff _ _).0 same, ground arith)
      | inr other ↦ elim (Bool-cases (r.status_code == 200)) [
        | inl fine ↦
            let given =
              check_presence-ok r (api.decode_effective (take max_body r.body)) f
                (rw (other, fine) at h) in
            inr ((==_iff _ _).0 fine, given.0, given.1, given.2, given.3)
        | inr bad ↦ cc (rw (other, bad) at h)
      ]
    ],
  )

  fetch_built-ok :
      (o : Option Text) (rest : Result Fetched) (f : Fetched)
      → fetch_built o rest ≡ ok f
      → rest ≡ ok f
  fetch_built-ok none rest f h = h
  fetch_built-ok (some e) rest f h = cc

  -- A fetch succeeds only on an answer of 304, which keeps the tag that was sent, or of 200 with a
  -- state that decodes and is valid, which is then returned with the answer's own tag.
  pub fetch-ok :
      (c : Client) (etag : Text) (f : Fetched)
      → fetch api net c etag ≡ ok f
      → (r : Response) × (net.exchange (fetch_request net c etag) ≡ answered r)
        × (NotModified r etag f ⊎ GaveState api r f)
  unfolding fetch
  fetch-ok c etag f h =
      let req = fetch_request net c etag in
      let x = net.exchange req in
      read_fetched-ok etag x f
        (fetch_built-ok (net.refuses_url req.url) (read_fetched api net etag x) f h)

abbrev pub IsAnswered2xx : Exchange → Type 0
IsAnswered2xx (answered r) = (200 ≤ r.status_code) × (r.status_code < 300)
IsAnswered2xx (unanswered e) = ⊥

read_reported-none :
    (api : Api) (net : Net) (x : Exchange) → (read_reported api net x ≡ none) ↔ IsAnswered2xx x
unfolding read_reported
read_reported-none api net (unanswered e) = (λ h. cc, λ h. absurd h)
read_reported-none api net (answered r) = (λ h. ground arith, λ h. ground arith)

report_built-none :
    (o : Option Text) (rest : Option ClientError)
    → (report_built o rest ≡ none) ↔ ((o ≡ none) × (rest ≡ none))
report_built-none none rest = (λ h. (refl, h), λ h. h.1)
report_built-none (some e) rest = (λ h. cc, λ h. cc (h.0))

-- A report succeeds exactly if its URL is accepted and the agent answers with a 2xx.
pub report-none :
    (api : Api) (net : Net) (c : Client) (st : Status)
    → (report api net c st ≡ none) ↔ (
        (net.refuses_url (report_request net c st).url ≡ none)
        × IsAnswered2xx (net.exchange (report_request net c st)))
unfolding report
report-none api net c st =
    let req = report_request net c st in
    let x = net.exchange req in
    let built = report_built-none (net.refuses_url req.url) (read_reported api net x) in
    let read = read_reported-none api net x in
    (λ h. ((built.0 h).0, read.0 (built.0 h).1), λ h. built.1 (h.0, read.1 h.1))
