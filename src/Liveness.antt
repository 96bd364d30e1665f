-- ===== src/Liveness.antt =====
-- internal/liveness/respawn.go: the respawn handshake, one packet at a time.
pub mod Handshake
use minecraft_afk_bot.Gophertunnel.{
  Packet, death_info, respawn, player_action, request_chunk_radius, chunk_radius_updated, other,
  Constants,
}
use minecraft_afk_bot.Prelude.{
  ℕ, Text, Bool, true, false, not, ◌||◌, List, [], ◌∷◌, ◌++◌, Option, none, some, ◌==◌,
  if◌then◌else◌,
}

pub record Respawner : Type 0 where
  pub runtime_id : ℕ
  pub is_dead : Bool

unfoldable pub new : ℕ → Respawner
new runtime_id = record { runtime_id = runtime_id; is_dead = false }

unfoldable pub dead : Respawner → Bool
dead r = r.is_dead

-- What `Handle` leaves and returns: the respawner, its two results, and the packets that it handed
-- to the writer, whether or not the write failed.
pub record Handled (Position : Type 0) : Type 0 where
  pub after : Respawner
  pub handled : Bool
  pub err : Option Text
  pub wrote : List (Packet Position)

-- How the connection's `WritePacket` ends, on one packet.
abbrev pub Writer : Type 0 → Type 0
Writer Position = Packet Position → Option Text

abbrev pub is_ready : Constants → ℕ → Bool
is_ready k state = state == k.respawn_state_ready_to_spawn

module _ {Position : Type 0} where
  abbrev ignored : Respawner → Handled Position
  ignored r = record { after = r; handled = false; err = none; wrote = [] }

  unfoldable pub handle :
      Constants → Respawner → Packet Position → Writer Position → Handled Position
  handle k r death_info write_packet =
      let pk = player_action r.runtime_id k.player_action_respawn in
      record {
        after = record r { is_dead = true };
        handled = true;
        err = write_packet pk;
        wrote = pk ∷ [];
      }
  handle k r (respawn position state id) write_packet =
      let pk = respawn position k.respawn_state_client_ready_to_spawn r.runtime_id in
      if not r.is_dead || not (is_ready k state) then ignored r else record {
        after = record r { is_dead = false };
        handled = true;
        err = write_packet pk;
        wrote = pk ∷ [];
      }
  handle k r (player_action a b) write_packet = ignored r
  handle k r (request_chunk_radius a b) write_packet = ignored r
  handle k r (chunk_radius_updated a) write_packet = ignored r
  handle k r other write_packet = ignored r
