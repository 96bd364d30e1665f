-- ===== src/Presence/Streak/Lines.antt =====
-- How failures are classified, and how many lines a sequence of them writes.
use minecraft_afk_bot.Presence.Client.{HttpError, ClientError, http_error}
use minecraft_afk_bot.Presence.Streak.{
  Kind, quiet, rejected, same_kind, LogCall, Streak, classify, failed, succeeded,
}
use minecraft_afk_bot.Prelude.{
  Text, ℕ, ◌+◌, ◌≤◌, ◌<◌, ◌≡◌, ◌≢◌, ◌↔◌, refl, true, List, [], ◌∷◌, ◌++◌, length, length-append,
  arith, if◌then◌else◌,
}

-- A status is rejected exactly if it is a 4xx that waiting cannot fix.
pub classify-rejected :
    (h : HttpError)
    → ((classify (http_error h)).0 ≡ rejected) ↔ (
        (400 ≤ h.status_code)
        × (h.status_code < 500)
        × (h.status_code ≢ 408)
        × (h.status_code ≢ 429))
unfolding classify
classify-rejected h = (λ e. ground arith, λ e. ground arith)

-- One call of the agent, as the streak hears of it: an error, and the state acted on, or a success.
pub data Outcome : Type 0 where
  error : ClientError → Text → Outcome
  success : Outcome

abbrev pub kind_of : Outcome → Kind
kind_of (error e acting_on) = (classify e).0
kind_of success = quiet

abbrev pub hear : Streak → Outcome → Streak × List LogCall
hear s (error e acting_on) = failed s e acting_on
hear s success = succeeded s

-- The streak after some calls, and all that it logged.
abbrev pub hear_all : Streak → List Outcome → Streak × List LogCall
hear_all s [] = (s, [])
hear_all s (o ∷ outcomes) =
    let (s', calls) = hear s o in let (last, more) = hear_all s' outcomes in (last, calls ++ more)

-- How often the kind changes along some calls.
abbrev pub changes : Kind → List Outcome → ℕ
changes k [] = 0
changes k (o ∷ outcomes) = (if same_kind (kind_of o) k then 0 else 1) + changes (kind_of o) outcomes

same_kind-eq : (a b : Kind) → same_kind a b ≡ true → a ≡ b
same_kind-eq a b h = ground arith

hear_lem :
    (s : Streak) (o : Outcome)
    → ((hear s o).0.kind ≡ kind_of o)
      × (length (hear s o).1 ≡ (if same_kind (kind_of o) s.kind then 0 else 1))
      × ((hear s o).0.event ≡ s.event)
unfolding failed succeeded
hear_lem s (error e acting_on) = ground (arith, same_kind-eq (classify e).0 s.kind)
hear_lem s success = ground arith

-- The streak logs one line each time that the kind of failure changes, a start and a recovery
-- included, and none while it stays: over any calls, as many lines as changes.
pub hear_all-changes :
    (s : Streak) (outcomes : List Outcome)
    → length (hear_all s outcomes).1 ≡ changes s.kind outcomes
hear_all-changes s [] = refl
hear_all-changes s (o ∷ outcomes) =
    let (s', calls) = hear s o in
    let one = hear_lem s o in
    omega (
      arith,
      one.1,
      rw one.0 at (hear_all-changes s' outcomes),
      length-append calls (hear_all s' outcomes).1,
    )
