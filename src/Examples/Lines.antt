-- ===== src/Examples/Lines.antt =====
-- Tests of internal/logging/log.go.
use minecraft_afk_bot.Logging.Lines.{name_of, added, lookup-line_of, call-routes}
use minecraft_afk_bot.Logging.{
  text, int, Fields, lookup, severity_error, Logger, level_info, Encoding, line_of, marshal_failed,
  call,
}
use minecraft_afk_bot.Prelude.Int.{pos}
use minecraft_afk_bot.Prelude.Strings.{codes}
use minecraft_afk_bot.Prelude.{◌≡◌, [], ◌∷◌, ◌++◌, some, equal, if◌then◌else◌}

-- A caller that brings its own event.
abbrev fields : Fields
fields = (codes "event", text (codes "other")) ∷ (codes "in_ms", int (pos 5)) ∷ []

abbrev encoding : Encoding
encoding = record {
  marshal = λ line. some (codes "{}");
  marshal_error = λ line. [];
  quoted = λ s. s;
}

abbrev logger : Logger
logger = record { level = level_info; stdout = []; stderr = [] }

lookup-line_of_example :
    lookup (codes "event") (line_of (codes "now") (codes "info") (codes "died") fields) ≡ (
      if equal (codes "event") (codes "event")
      then some (text (codes "died"))
      else if equal (codes "level") (codes "event")
      then some (text (codes "info"))
      else if equal (codes "timestamp") (codes "event")
      then some (text (codes "now"))
      else lookup (codes "event") fields)
lookup-line_of_example =
    lookup-line_of (codes "now") (codes "info") (codes "died") (codes "event") fields

call-routes_example :
    let line = line_of (codes "now") (name_of severity_error) (codes "died") fields in
    let (out, err) =
      added logger.level severity_error (encoding.marshal line) (marshal_failed encoding line) in
    let l' = call encoding (codes "now") severity_error (codes "died") fields logger in
    (l'.level ≡ logger.level)
    × (l'.stdout ≡ logger.stdout ++ out)
    × (l'.stderr ≡ logger.stderr ++ err)
call-routes_example = call-routes encoding (codes "now") (codes "died") fields severity_error logger
