-- ===== src/Presence/Streak.antt =====
-- `streak` and `classify` of internal/presence/reconciler.go: when a failure is logged.
pub mod Lines
use minecraft_afk_bot.Logging.{
  Severity, severity_info, severity_warn, severity_error, Fields, text, int,
}
use minecraft_afk_bot.Presence.Client.{
  HttpError, ClientError, build_failed, no_answer, invalid_response, http_error, error_text,
}
use minecraft_afk_bot.Prelude.Int.{pos}
use minecraft_afk_bot.Prelude.Strings.{codes}
use minecraft_afk_bot.Prelude.{
  Text, ℕ, Bool, true, false, not, ◌&&◌, ◌||◌, List, [], ◌∷◌, ◌++◌, leb, ltb, ◌==◌, if◌then◌else◌,
}

-- The kinds of failure; `quiet` is the empty string, for no failure.
pub data Kind : Type 0 where
  quiet invalid unreachable rejected : Kind

abbrev pub kind_text : Kind → Text
kind_text quiet = []
kind_text invalid = codes "invalid"
kind_text unreachable = codes "unreachable"
kind_text rejected = codes "rejected"

abbrev pub same_kind : Kind → Kind → Bool
same_kind quiet quiet = true
same_kind invalid invalid = true
same_kind unreachable unreachable = true
same_kind rejected rejected = true
same_kind _ _ = false

-- A call of the `Logger` interface.
pub record LogCall : Type 0 where
  pub severity : Severity
  pub event : Text
  pub fields : Fields

pub record Streak : Type 0 where
  pub event : Text
  pub kind : Kind

classify_status : ℕ → Kind × ℕ
classify_status code =
    if code == 408 || code == 429
    then (unreachable, code)
    else if leb 400 code && ltb code 500
    then (rejected, code)
    else (unreachable, code)

unfoldable pub classify : ClientError → Kind × ℕ
unfolding classify_status
classify (invalid_response e) = (invalid, 0)
classify (http_error e) = classify_status e.status_code
classify (build_failed e) = (unreachable, 0)
classify (no_answer call e) = (unreachable, 0)

-- The fields of a failure; the status is there unless it is 0.
unfoldable pub failure_fields : ClientError → ℕ → Text → Fields
failure_fields e status acting_on =
    let fields = (codes "error", text (error_text e)) ∷ (codes "acting_on", text acting_on) ∷ [] in
    if not (status == 0) then (codes "status", int (pos status)) ∷ fields else fields

unfoldable pub failed : Streak → ClientError → Text → Streak × List LogCall
unfolding classify failure_fields
failed s e acting_on =
    let (kind, status) = classify e in
    let call : LogCall = record {
      severity = if same_kind kind unreachable then severity_warn else severity_error;
      event = s.event ++ (codes "_" ++ kind_text kind);
      fields = failure_fields e status acting_on;
    } in
    if same_kind kind s.kind then (s, []) else (record s { kind = kind }, call ∷ [])

unfoldable pub succeeded : Streak → Streak × List LogCall
succeeded s = if same_kind s.kind quiet then (s, []) else (
  record s { kind = quiet },
  record { severity = severity_info; event = s.event ++ codes "_recovered"; fields = [] } ∷ [],
)
