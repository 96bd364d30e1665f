-- ===== src/Config/Messages.antt =====
-- The texts of the errors of internal/config/config.go. `quoted` is the format `%q`.
use minecraft_afk_bot.Config.{
  Name, mc_host, mc_username, mc_port, mc_view_distance, reconnect_min_ms, reconnect_max_ms,
  auth_cache_dir, presence_url, presence_token, presence_actor_id, presence_default,
  presence_poll_ms, min_poll_ms, Error, is_required, not_an_integer, not_in_range, not_positive,
  too_large, min_above_max, bad_url, bad_actor_id, bad_default, polls_too_often,
}
use minecraft_afk_bot.Presence.Api.{Api}
use minecraft_afk_bot.Prelude.Int.{ℤ, pos, negsuc}
use minecraft_afk_bot.Prelude.Strings.{codes, itoa}
use minecraft_afk_bot.Prelude.{Text, suc, ◌++◌, ◌∷◌, none, some}

abbrev pub name_text : Name → Text
name_text mc_host = codes "MC_HOST"
name_text mc_username = codes "MC_USERNAME"
name_text mc_port = codes "MC_PORT"
name_text mc_view_distance = codes "MC_VIEW_DISTANCE"
name_text reconnect_min_ms = codes "RECONNECT_MIN_MS"
name_text reconnect_max_ms = codes "RECONNECT_MAX_MS"
name_text auth_cache_dir = codes "AUTH_CACHE_DIR"
name_text presence_url = codes "PRESENCE_URL"
name_text presence_token = codes "PRESENCE_TOKEN"
name_text presence_actor_id = codes "PRESENCE_ACTOR_ID"
name_text presence_default = codes "PRESENCE_DEFAULT"
name_text presence_poll_ms = codes "PRESENCE_POLL_MS"

-- `%d`.
abbrev int_text : ℤ → Text
int_text (pos n) = itoa n
int_text (negsuc n) = b'-' ∷ itoa (suc n)

abbrev variable : Name → Text → Text
variable name rest = codes "environment variable " ++ (name_text name ++ rest)

-- `Error()`.
unfoldable pub error_text : Api → (Text → Text) → Error → Text
error_text api quoted (is_required name) = variable name (codes " is required")
error_text api quoted (not_an_integer name raw) =
    variable name (codes " must be an integer, got " ++ quoted raw)
error_text api quoted (not_in_range name max raw) =
    variable name
      (codes " must be an integer in 1.." ++ (itoa max ++ (codes ", got " ++ quoted raw)))
error_text api quoted (not_positive name n) =
    variable name (codes " must be a positive integer, got " ++ int_text n)
error_text api quoted (too_large name max n) =
    variable name (codes " must be at most " ++ (itoa max ++ (codes ", got " ++ int_text n)))
error_text api quoted (min_above_max high low) =
    name_text reconnect_max_ms
    ++ (codes " ("
        ++ (itoa high
            ++ (codes ") must be >= "
                ++ (name_text reconnect_min_ms ++ (codes " (" ++ (itoa low ++ codes ")"))))))
error_text api quoted (bad_url none) = variable presence_url (codes " must be an http or https URL")
error_text api quoted (bad_url (some redacted)) =
    variable presence_url (codes " must be an http or https URL, got " ++ quoted redacted)
error_text api quoted bad_actor_id =
    variable presence_actor_id (codes " must match ^[a-z0-9][a-z0-9-]{0,62}$")
error_text api quoted bad_default =
    variable presence_default
      (codes " must be " ++ (quoted api.state_present ++ (codes " or " ++ quoted api.state_parked)))
error_text api quoted (polls_too_often n) =
    variable presence_poll_ms
      (codes " must be at least " ++ (itoa min_poll_ms ++ (codes ", got " ++ itoa n)))
