-- ===== src/Logging/Lines.antt =====
-- What a log line holds and where it goes.
use minecraft_afk_bot.Logging.{
  level_info, Level, Severity, severity_info, severity_debug, severity_warn, severity_error, call,
  marshal_failed, Value, text, Fields, lookup, assign, copy, Logger, Encoding, line_of, info, debug,
  warn, error,
}
use minecraft_afk_bot.Prelude.Strings.{codes}
use minecraft_afk_bot.Prelude.{
  Text, List, [], ◌∷◌, append-nil, ◌++◌, ◌≡◌, refl, Option, none, some, equal, equal_iff,
  if◌then◌else◌, arith,
}

lookup-assign :
    (key k : Text) (v : Value) (fields : Fields)
    → lookup key (assign k v fields) ≡ (if equal k key then some v else lookup key fields)
unfolding lookup assign
lookup-assign key k v [] = refl
lookup-assign key k v ((j, w) ∷ fields) =
    ground (arith, lookup-assign key k v fields, equal_iff j k, equal_iff j key, equal_iff k key)

lookup-copy : (key : Text) (fields : Fields) → lookup key (copy fields []) ≡ lookup key fields
unfolding lookup copy
lookup-copy key [] = refl
lookup-copy key ((k, v) ∷ fields) =
    rw (lookup-assign key k v (copy fields [])) (rw (lookup-copy key fields))

-- What a line holds under each key: its own event, level and time, which no field of the caller can
-- replace, and the caller's fields under every other key.
pub lookup-line_of :
    (now level event key : Text) (fields : Fields)
    → lookup key (line_of now level event fields) ≡ (
        if equal (codes "event") key
        then some (text event)
        else if equal (codes "level") key
        then some (text level)
        else if equal (codes "timestamp") key
        then some (text now)
        else lookup key fields)
unfolding line_of
lookup-line_of now level event key fields = rw (lookup-assign key (codes "event") (text event) _) (
    rw (lookup-assign key (codes "level") (text level) _)
      (rw (lookup-assign key (codes "timestamp") (text now) _) (rw (lookup-copy key fields))))

-- The name of a level in a line.
abbrev pub name_of : Severity → Text
name_of severity_info = codes "info"
name_of severity_debug = codes "debug"
name_of severity_warn = codes "warn"
name_of severity_error = codes "error"

-- What a call adds to standard output and to standard error: the line, with its newline, on the
-- stream of its severity; a fallback line on standard error if it cannot be marshalled; nothing for
-- a debug call at level info.
abbrev pub added : Level → Severity → Option Text → Text → List Text × List Text
added level_info severity_debug enc fallback = ([], [])
added level severity none fallback = ([], (fallback ++ codes "\n") ∷ [])
added level severity_error (some line) fallback = ([], (line ++ codes "\n") ∷ [])
added level severity (some line) fallback = ((line ++ codes "\n") ∷ [], [])

-- Each method adds at most one line, to one of the two streams, and keeps all that was written:
-- info, warn and debug go to standard output and error to standard error, a line that cannot be
-- marshalled is reported on standard error, and debug is silent unless the level is debug.
pub call-routes :
    (e : Encoding) (now event : Text) (fields : Fields) (s : Severity) (l : Logger)
    → let line = line_of now (name_of s) event fields in
      let (out, err) = added l.level s (e.marshal line) (marshal_failed e line) in
      let l' = call e now s event fields l in
      (l'.level ≡ l.level) × (l'.stdout ≡ l.stdout ++ out) × (l'.stderr ≡ l.stderr ++ err)
unfolding info warn error debug
call-routes e now event fields severity_info l =
    ground (arith, append-nil l.stdout, append-nil l.stderr)
call-routes e now event fields severity_debug l =
    ground (arith, append-nil l.stdout, append-nil l.stderr)
call-routes e now event fields severity_warn l =
    ground (arith, append-nil l.stdout, append-nil l.stderr)
call-routes e now event fields severity_error l =
    ground (arith, append-nil l.stdout, append-nil l.stderr)
