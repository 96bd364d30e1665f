-- ===== src/Presence/Api.antt =====
-- The agent's wire contract, module presenceapi, which the repository imports: its two states and
-- its test, and the decoders of `encoding/json` at its types, as parameters.
use minecraft_afk_bot.Prelude.{Text, Bool, true, Option, ◌≡◌, ◌≢◌, ◌⊎◌}

-- The code and the message of `presenceapi.Error`.
pub record ErrorBody : Type 0 where
  pub code : Text
  pub message : Text

pub record Api : Type 0 where
  pub state_present : Text
  pub state_parked : Text
  -- `State.Valid`
  pub valid : Text → Bool
  -- the `Effective` of a decoded `Presence`, or `none` for a decode error
  pub decode_effective : Text → Option Text
  -- the text of that decode error
  pub decode_failure : Text → Text
  -- what decoding an `Error` leaves, whether or not it fails
  pub decode_error : Text → ErrorBody

-- What the contract documents: the valid states are present and parked, and they differ.
pub record IsContract (api : Api) : Type 0 where
  pub present_valid : api.valid api.state_present ≡ true
  pub parked_valid : api.valid api.state_parked ≡ true
  pub distinct : api.state_present ≢ api.state_parked
  pub valid_only :
      (s : Text) → api.valid s ≡ true → (s ≡ api.state_present) ⊎ (s ≡ api.state_parked)
