-- ===== src/Logging.antt =====
-- internal/logging/log.go: one line per event, as a map of fields, on one of two streams.
pub mod Lines
use minecraft_afk_bot.Prelude.Int.{ℤ}
use minecraft_afk_bot.Prelude.Strings.{codes, trim_space, to_lower}
use minecraft_afk_bot.Prelude.{
  Text, ℕ, String, Bool, true, false, List, [], ◌∷◌, ◌++◌, Option, none, some, equal, if◌then◌else◌,
}

pub data Level : Type 0 where
  level_info level_debug : Level

-- What a field holds: the types of value that the program logs.
pub data Value : Type 0 where
  text : Text → Value
  int : ℤ → Value
  flag : Bool → Value

-- `map[string]any`, as pairs of a key and a value.
abbrev pub Fields : Type 0
Fields = List (Text × Value)

-- The lookup that a Go map makes, where the first pair of a key counts.
unfoldable pub lookup : Text → Fields → Option Value
lookup key [] = none
lookup key ((k, v) ∷ fields) = if equal k key then some v else lookup key fields

-- `line[key] = value`.
unfoldable pub assign : Text → Value → Fields → Fields
assign key v [] = (key, v) ∷ []
assign key v ((k, w) ∷ fields) =
    if equal k key then (k, v) ∷ fields else (k, w) ∷ assign key v fields

-- `for k, v := range fields { line[k] = v }`; the order of a range is not specified.
unfoldable pub copy : Fields → Fields → Fields
copy [] line = line
copy ((k, v) ∷ fields) line = assign k v (copy fields line)

-- The four methods, by name.
pub data Severity : Type 0 where
  severity_info severity_debug severity_warn severity_error : Severity

-- The writers hold what was written to them.
pub record Logger : Type 0 where
  pub level : Level
  pub stdout : List Text
  pub stderr : List Text

pub data Stream : Type 0 where
  to_stdout to_stderr : Stream

-- `json.Marshal` of a line, which gives a text or an error, and the format of a text by `%q`.
pub record Encoding : Type 0 where
  pub marshal : Fields → Option Text
  pub marshal_error : Fields → Text
  pub quoted : Text → Text

abbrev pub append_line : Stream → Text → Logger → Logger
append_line to_stdout line l = record l { stdout = l.stdout ++ (line ++ codes "\n") ∷ [] }
append_line to_stderr line l = record l { stderr = l.stderr ++ (line ++ codes "\n") ∷ [] }

-- `newWithWriters` on empty writers. `EqualFold` with "debug" is the test after lower-casing, since
-- no letter of it folds with a code point beyond ASCII.
unfoldable pub new_with_writers : Text → Logger
unfolding trim_space to_lower
new_with_writers level_name = record {
  level =
      if equal (to_lower (trim_space level_name)) (codes "debug") then level_debug else level_info;
  stdout = [];
  stderr = [];
}

-- `New`, whose writers are the process's own streams.
unfoldable pub new : Text → Logger
unfolding new_with_writers
new level_name = new_with_writers level_name

-- The map that is marshalled; `now` is the formatted time.
unfoldable pub line_of : Text → Text → Text → Fields → Fields
unfolding copy assign
line_of now level event fields =
    assign (codes "event") (text event)
      (assign (codes "level") (text level) (assign (codes "timestamp") (text now) (copy fields [])))

-- The line for a failed marshal.
abbrev pub marshal_failed : Encoding → Fields → Text
marshal_failed e line =
    codes "{\"level\":\"error\",\"event\":\"log_marshal_failed\",\"error\":"
    ++ (e.quoted (e.marshal_error line) ++ codes "}")

module _ (e : Encoding) (now : Text) where
  emit_line : Stream → Fields → Option Text → Logger → Logger
  emit_line s line none l = append_line to_stderr (marshal_failed e line) l
  emit_line s line (some enc) l = append_line s enc l

  unfoldable pub write : Stream → Text → Text → Fields → Logger → Logger
  unfolding emit_line
  write s level event fields l =
      let line = line_of now level event fields in emit_line s line (e.marshal line) l

  unfoldable pub info : Text → Fields → Logger → Logger
  unfolding write
  info event fields l = write to_stdout (codes "info") event fields l

  abbrev debug_at : Level → Text → Fields → Logger → Logger
  unfolding write
  debug_at level_info event fields l = l
  debug_at level_debug event fields l = write to_stdout (codes "debug") event fields l

  unfoldable pub debug : Text → Fields → Logger → Logger
  unfolding write
  debug event fields l = debug_at l.level event fields l

  unfoldable pub warn : Text → Fields → Logger → Logger
  unfolding write
  warn event fields l = write to_stdout (codes "warn") event fields l

  unfoldable pub error : Text → Fields → Logger → Logger
  unfolding write
  error event fields l = write to_stderr (codes "error") event fields l

  -- The method of a severity.
  abbrev pub call : Severity → Text → Fields → Logger → Logger
  call severity_info = info
  call severity_debug = debug
  call severity_warn = warn
  call severity_error = error
