-- ===== src/Mcauth/Messages.antt =====
-- The texts of the errors of internal/mcauth/token.go, with the path of the account's file.
use minecraft_afk_bot.Mcauth.{
  AuthError, empty_username, no_refresh_token, no_cache_dir, unreadable, not_json, login_failed,
  not_saved,
}
use minecraft_afk_bot.Prelude.Strings.{codes}
use minecraft_afk_bot.Prelude.{Text, ◌++◌}

-- `Error()`.
unfoldable pub error_text : Text → AuthError → Text
error_text path empty_username = codes "mcauth: username must not be empty"
error_text path (no_cache_dir e) = codes "mcauth: create cache dir: " ++ e
error_text path (unreadable e) = codes "mcauth: load cached token: " ++ e
error_text path (not_json e) =
    codes "mcauth: load cached token: mcauth: cached token at "
    ++ (path ++ (codes " is not valid JSON: " ++ e))
error_text path no_refresh_token =
    codes "mcauth: load cached token: mcauth: cached token at "
    ++ (path ++ codes " has no refresh token")
error_text path (login_failed e) = codes "mcauth: device-code login: " ++ e
error_text path (not_saved e) = codes "mcauth: save token: " ++ e
