-- ===== src/Liveness/Handshake.antt =====
-- What the handshake does over every sequence of packets.
use minecraft_afk_bot.Gophertunnel.{Packet, death_info, respawn, player_action, Constants}
use minecraft_afk_bot.Liveness.{Respawner, Writer, new, dead, is_ready, handle}
use minecraft_afk_bot.Prelude.{
  count, count-append, to_count, ℕ, ◌+◌, ◌≤◌, ◌≡◌, ◌↔◌, refl, Bool, true, false, List, [], ◌∷◌,
  ◌++◌, none, All, All-append, inl, inr, ◌⊎◌, arith, if◌then◌else◌,
}

module _ {Position : Type 0} where
  -- The respawner after the packets, and all that it wrote.
  abbrev pub run_from :
      Constants
      → Writer Position
      → Respawner
      → List (Packet Position)
      → Respawner × List (Packet Position)
  run_from k write_packet r [] = (r, [])
  run_from k write_packet r (pk ∷ pks) =
      let h = handle k r pk write_packet in
      let (r', wrote) = run_from k write_packet h.after pks in (r', h.wrote ++ wrote)

  -- A packet that places the player: `Respawn` in the state that expects an answer.
  abbrev pub places : Constants → Packet Position → Bool
  places k (respawn position state id) = is_ready k state
  places k _ = false

  abbrev pub is_death : Packet Position → Bool
  is_death death_info = true
  is_death _ = false

  -- Some death has had no placing packet behind it.
  abbrev pub Awaiting : Constants → List (Packet Position) → Type 0
  Awaiting k [] = ⊥
  Awaiting k (pk ∷ pks) =
      ((is_death pk ≡ true) × All (λ q. places k q ≡ false) pks) ⊎ Awaiting k pks

  abbrev pub is_request : Packet Position → Bool
  is_request (player_action id action) = true
  is_request _ = false

  abbrev pub is_confirmation : Packet Position → Bool
  is_confirmation (respawn position state id) = true
  is_confirmation _ = false

  -- The packet is one of the two that the handshake sends, for player `id`.
  abbrev pub SentFor : Constants → ℕ → Packet Position → Type 0
  SentFor k id (player_action i action) = (i ≡ id) × (action ≡ k.player_action_respawn)
  SentFor k id (respawn position state i) =
      (i ≡ id) × (state ≡ k.respawn_state_client_ready_to_spawn)
  SentFor k id _ = ⊥

module _ {Position : Type 0} (k : Constants) (w : Writer Position) where
  -- How one packet moves the flag.
  dead-handle :
      (r : Respawner) (pk : Packet Position)
      → (handle k r pk w).after.is_dead
        ≡ (if is_death pk then true else if places k pk then false else r.is_dead)
  unfolding handle
  dead-handle r (respawn position state id) = ground arith
  dead-handle r death_info = refl
  dead-handle r _ = refl

  death-not-places : (pk : Packet Position) → is_death pk ≡ true → places k pk ≡ false
  death-not-places death_info h = refl
  death-not-places (respawn position state id) h = cc
  death-not-places _ h = refl

  run_from-Awaiting :
      (r : Respawner) (pks : List (Packet Position))
      → ((run_from k w r pks).0.is_dead ≡ true)
        ↔ (Awaiting k pks ⊎ ((r.is_dead ≡ true) × All (λ q. places k q ≡ false) pks))
  run_from-Awaiting r [] = (λ h. inr (h, tt), λ h. ground arith)
  run_from-Awaiting r (pk ∷ pks) =
      let ih = run_from-Awaiting (handle k r pk w).after pks in
      (
        λ h. ground (arith, ih.0 h, dead-handle r pk, death-not-places pk),
        λ h. ih.1 (ground (arith, dead-handle r pk, death-not-places pk)),
      )

  handle-request :
      (r : Respawner) (pk : Packet Position)
      → let h = handle k r pk w in
        (count is_request h.wrote ≡ to_count (is_death pk))
        × (count is_confirmation h.wrote + to_count h.after.is_dead
            ≤ to_count r.is_dead + to_count (is_death pk))
        × (h.after.runtime_id ≡ r.runtime_id)
        × All (SentFor k r.runtime_id) h.wrote
  unfolding handle
  handle-request r death_info = ground arith
  handle-request r (respawn position state id) = ground arith
  handle-request r _ = ground arith

  run_from-counts :
      (r : Respawner) (pks : List (Packet Position))
      → let (r', wrote) = run_from k w r pks in
        (count is_request wrote ≡ count is_death pks)
        × (count is_confirmation wrote + to_count r'.is_dead
            ≤ to_count r.is_dead + count is_death pks)
        × All (SentFor k r.runtime_id) wrote
  run_from-counts r [] = (refl, omega arith, tt)
  run_from-counts r (pk ∷ pks) =
      let h = handle k r pk w in
      let one = handle-request r pk in
      let rest = run_from-counts h.after pks in
      let wrote = (run_from k w h.after pks).1 in
      (
        omega (arith, one.0, rest.0, count-append is_request h.wrote wrote),
        omega (arith, one.1, rest.1, count-append is_confirmation h.wrote wrote),
        All-append (SentFor k r.runtime_id) h.wrote wrote one.3 (rw one.2 at rest.2),
      )

  -- The respawner reports dead exactly while some death has had no placing packet behind it,
  -- whatever the packets and however the writes end.
  pub dead_iff :
      (id : ℕ) (pks : List (Packet Position))
      → (dead (run_from k w (new id) pks).0 ≡ true) ↔ Awaiting k pks
  unfolding dead new
  dead_iff id pks =
      let both = run_from-Awaiting (new id) pks in
      (λ h. ground (arith, both.0 h), λ h. both.1 (inl h))

  -- From a fresh respawner: each death is asked about once; a confirmation is sent at most once for
  -- each death, and not yet for one that is pending; and every packet sent is a respawn request or
  -- a ready-to-spawn confirmation that bears the player's own runtime id.
  pub handshake_balance :
      (id : ℕ) (pks : List (Packet Position))
      → let (r, wrote) = run_from k w (new id) pks in
        (count is_request wrote ≡ count is_death pks)
        × (count is_confirmation wrote + to_count (dead r) ≤ count is_death pks)
        × All (SentFor k id) wrote
  unfolding dead new
  handshake_balance id pks =
      let all = run_from-counts (new id) pks in (all.0, omega (arith, all.1), all.2)

  handle-quiet :
      (r : Respawner) (pk : Packet Position)
      → r.is_dead ≡ false
      → is_death pk ≡ false
      → handle k r pk w ≡ record { after = r; handled = false; err = none; wrote = [] }
  unfolding handle
  handle-quiet r death_info h d = cc
  handle-quiet r (respawn position state id) h d = ground arith
  handle-quiet r _ h d = refl

  run_from-quiet :
      (r : Respawner) (pks : List (Packet Position))
      → r.is_dead ≡ false
      → All (λ pk. is_death pk ≡ false) pks
      → run_from k w r pks ≡ (r, [])
  run_from-quiet r [] h all = refl
  run_from-quiet r (pk ∷ pks) h (d, all) =
      rw (handle-quiet r pk h d) (rw (run_from-quiet r pks h all))

  -- With no death among the packets, a fresh respawner stays as it is and writes nothing, however
  -- many placing packets arrive.
  pub no_death_silent :
      (id : ℕ) (pks : List (Packet Position))
      → All (λ pk. is_death pk ≡ false) pks
      → run_from k w (new id) pks ≡ (new id, [])
  unfolding new
  no_death_silent id pks all = run_from-quiet (new id) pks refl all
