-- ===== src/Examples/Respawn.antt =====
-- Tests of internal/liveness/respawn.go.
use minecraft_afk_bot.Gophertunnel.{Packet, death_info, respawn, other, Constants}
use minecraft_afk_bot.Liveness.Handshake.{
  run_from, is_death, is_request, is_confirmation, Awaiting, SentFor, dead_iff, handshake_balance,
}
use minecraft_afk_bot.Liveness.{Writer, new, dead}
use minecraft_afk_bot.Prelude.{
  count, to_count, ℕ, ◌+◌, ◌≤◌, ◌≡◌, ◌↔◌, true, List, [], ◌∷◌, none, All,
}

abbrev pub protocol_constants : Constants
protocol_constants = record {
  player_action_respawn = 7;
  respawn_state_ready_to_spawn = 1;
  respawn_state_client_ready_to_spawn = 2;
}

-- A connection whose writes succeed.
abbrev pub working : Writer ℕ
working pk = none

-- A placing packet before any death, a death that is answered, and one that is not.
abbrev packets : List (Packet ℕ)
packets = other ∷ respawn 5 1 9 ∷ death_info ∷ respawn 6 0 9 ∷ respawn 7 1 9 ∷ death_info ∷ []

dead_iff_example :
    (dead (run_from protocol_constants working (new 42) packets).0 ≡ true)
    ↔ Awaiting protocol_constants packets
dead_iff_example = dead_iff protocol_constants working 42 packets

handshake_balance_example :
    let (r, wrote) = run_from protocol_constants working (new 42) packets in
    (count is_request wrote ≡ count is_death packets)
    × (count is_confirmation wrote + to_count (dead r) ≤ count is_death packets)
    × All (SentFor protocol_constants 42) wrote
handshake_balance_example = handshake_balance protocol_constants working 42 packets
