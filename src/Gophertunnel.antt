-- ===== src/Gophertunnel.antt =====
-- The part of the gophertunnel module that the bot calls, which the repository imports: packet
-- types with the fields that are read or set, and protocol constants, as parameters.
use minecraft_afk_bot.Prelude.{ℕ}

-- The packets that the code distinguishes; `other` is every packet of another type.
pub data Packet (Position : Type 0) : Type 0 where
  death_info : Packet Position
  respawn : Position → ℕ → ℕ → Packet Position
  player_action : ℕ → ℕ → Packet Position
  request_chunk_radius : ℕ → ℕ → Packet Position
  chunk_radius_updated : ℕ → Packet Position
  other : Packet Position

-- Constants of `protocol` and `packet`.
pub record Constants : Type 0 where
  pub player_action_respawn : ℕ
  pub respawn_state_ready_to_spawn : ℕ
  pub respawn_state_client_ready_to_spawn : ℕ
