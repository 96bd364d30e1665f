-- ===== src/Protocolcheck.antt =====
-- cmd/protocolcheck/main.go: whether the module speaks the version of the production server.
pub mod Exits
use minecraft_afk_bot.Prelude.Strings.{codes, itoa}
use minecraft_afk_bot.Prelude.{
  Text, ℕ, Bool, true, false, not, ◌&&◌, List, [], ◌∷◌, ◌++◌, Option, none, some, is_empty, equal,
  if◌then◌else◌,
}

-- What the code reads of a `debug.Module`.
pub record Dependency : Type 0 where
  pub path : Text
  pub version : Text
  pub replacement : Option Text

-- The version that a dependency stands for.
abbrev version_of : Option Text → Text → Text
version_of (some v) version = v
version_of none version = version

-- The loop of `vendoredVersion`.
unfoldable pub find_version : Text → List Dependency → Text
find_version module_path [] = []
find_version module_path (d ∷ deps) =
    let rest = find_version module_path deps in
    if not (equal d.path module_path) then rest else version_of d.replacement d.version

-- `vendoredVersion`; `none` is a binary with no build information.
unfoldable pub vendored_version : Option (List Dependency) → Text
vendored_version none = []
vendored_version (some deps) = find_version (codes "github.com/sandertv/gophertunnel") deps

pub data Status : Type 0 where
  status_match status_behind status_blocked_on_upstream : Status

abbrev pub status_text : Status → Text
status_text status_match = codes "match"
status_text status_behind = codes "behind"
status_text status_blocked_on_upstream = codes "blocked-on-upstream"

unfoldable pub decide : Text → Text → Text → Text → Status
decide library_version production_version vendored upstream =
    if equal library_version production_version
    then status_match
    else if not (is_empty upstream) && not (is_empty vendored) && equal upstream vendored
    then status_blocked_on_upstream
    else status_behind

-- The step output file: the variable that names it, and how the calls on it end.
pub record Output : Type 0 where
  pub path : Text
  pub open_error : Option Text
  pub write_error : Text → Option Text
  pub close_error : Option Text
  -- the order in which a range over a map finds these pairs
  pub order : List (Text × Text) → List (Text × Text)

abbrev pub Pairs : Type 0
Pairs = List (Text × Text)

-- One line of the file.
abbrev pub render : Text × Text → Text
render (k, v) = k ++ (codes "=" ++ (v ++ codes "\n"))

-- Behind one write, which ended so, of the pair; then the rest.
abbrev pub after_write :
    Text → Text × Text → Option Text → List Text × Option Text → List Text × Option Text
after_write path (k, v) (some e) rest =
    ([], some (codes "write " ++ (k ++ (codes " to " ++ (path ++ (codes ": " ++ e))))))
after_write path (k, v) none rest = (render (k, v) ∷ rest.0, rest.1)

-- The loop of `emit`, over the pairs in the order in which it finds them: the lines it writes, and the
-- error that ends it.
unfoldable pub write_pairs : Output → Pairs → List Text × Option Text
write_pairs out [] = ([], none)
write_pairs out ((k, v) ∷ pairs) =
    after_write out.path (k, v) (out.write_error k) (write_pairs out pairs)

-- The deferred close, whose error counts if there is no other.
abbrev pub after_close : Text → Option Text → Option Text → Option Text
after_close path (some e) closed = some e
after_close path none none = none
after_close path none (some e) = some (codes "close " ++ (path ++ (codes ": " ++ e)))

-- Behind `os.OpenFile`.
abbrev pub after_open : Output → Pairs → Option Text → List Text × Option Text
after_open out pairs (some e) = ([], some (codes "open " ++ (out.path ++ (codes ": " ++ e))))
after_open out pairs none =
    let (lines, failure) = write_pairs out (out.order pairs) in
    (lines, after_close out.path failure out.close_error)

unfoldable pub emit : Output → Pairs → List Text × Option Text
emit out pairs = if is_empty out.path then ([], none) else after_open out pairs out.open_error

-- How the process ends: its exit code, the lines in the output file, and what it printed.
pub record Exit : Type 0 where
  pub code : ℕ
  pub lines : List Text
  pub stdout : List Text
  pub stderr : List Text

-- What the process compares, and the format of a text by `%q`.
pub record Versions : Type 0 where
  -- the two constants of the module
  pub library_version : Text
  pub library_protocol : ℕ
  -- the two flags
  pub production : Text
  pub upstream : Text
  pub vendored : Text
  pub quoted : Text → Text

-- `emitOrDie`, behind what has been printed, and before the rest of the run: its exit code, and what
-- it prints.
abbrev pub emit_or_die : List Text → List Text × Option Text → ℕ → List Text → List Text → Exit
emit_or_die before (lines, some e) code out err = record {
  code = 2;
  lines = lines;
  stdout = before;
  stderr = (codes "protocolcheck: cannot report the result: " ++ (e ++ codes "\n")) ∷ [];
}
emit_or_die before (lines, none) code out err = record {
  code = code;
  lines = lines;
  stdout = before ++ out;
  stderr = err;
}

module _ (v : Versions) where
  abbrev pub matched_pairs : Pairs
  matched_pairs =
      (codes "status", status_text status_match)
      ∷ (codes "changed", codes "false")
      ∷ (codes "library_version", v.library_version)
      ∷ (codes "production_version", v.production)
      ∷ []

  abbrev pub changed_pairs : Status → Pairs
  changed_pairs result =
      (codes "status", status_text result)
      ∷ (codes "changed", codes "true")
      ∷ (codes "library_version", v.library_version)
      ∷ (codes "production_version", v.production)
      ∷ (codes "vendored_version", v.vendored)
      ∷ (codes "upstream_version", v.upstream)
      ∷ []

  -- The line that every check prints.
  abbrev pub check_line : Text
  check_line =
      codes "{\"event\":\"protocol_check\",\"library_version\":"
      ++ (v.quoted v.library_version
          ++ (codes ",\"library_protocol\":"
              ++ (itoa v.library_protocol
                  ++ (codes ",\"production_version\":"
                      ++ (v.quoted v.production
                          ++ (codes ",\"gophertunnel_vendored\":"
                              ++ (v.quoted v.vendored
                                  ++ (codes ",\"gophertunnel_upstream\":"
                                      ++ (v.quoted v.upstream ++ codes "}\n")))))))))

  abbrev pub match_line : Text
  match_line = codes "protocolcheck: gophertunnel matches production\n"

  -- `gophertunnel speaks %s (protocol %d) but production reports %s; `, and what follows it.
  abbrev pub gap : Text → Text
  gap rest =
      codes "gophertunnel speaks "
      ++ (v.library_version
          ++ (codes " (protocol "
              ++ (itoa v.library_protocol
                  ++ (codes ") but production reports "
                      ++ (v.production ++ (codes "; " ++ rest))))))

  abbrev pub blocked_warning : Text
  blocked_warning =
      codes "::warning title=Protocol gap blocked on upstream::"
      ++ gap (
          v.vendored
          ++ codes " is already the newest gophertunnel release, so there is no bump to take yet\n")

  abbrev pub blocked_line : Text
  blocked_line =
      codes "protocolcheck: "
      ++ gap (
          codes "vendored "
          ++ (v.vendored ++ codes " is already upstream's newest, nothing to bump\n"))

  abbrev pub behind_line : Text
  behind_line = codes "protocolcheck: " ++ gap (codes "bots may fail to connect\n")

  -- `main` once the versions have been compared.
  abbrev pub report : Output → Status → Exit
  report out status_match =
      emit_or_die (check_line ∷ match_line ∷ []) (emit out matched_pairs) 0 [] []
  report out status_blocked_on_upstream =
      emit_or_die (check_line ∷ []) (emit out (changed_pairs status_blocked_on_upstream)) 0
        (blocked_warning ∷ []) (blocked_line ∷ [])
  report out status_behind =
      emit_or_die (check_line ∷ []) (emit out (changed_pairs status_behind)) 1 [] (behind_line ∷ [])

-- The versions of a run: the module's, those of the flags, and the one that it was built with.
abbrev pub versions_of :
    Text → ℕ → (Text → Text) → Text → Text → Option (List Dependency) → Versions
versions_of library_version library_protocol quoted production upstream build = record {
  library_version = library_version;
  library_protocol = library_protocol;
  production = production;
  upstream = upstream;
  vendored = vendored_version build;
  quoted = quoted;
}

-- `main` behind `flag.Parse`, from the module's constants, the flags and the build information.
unfoldable pub main :
    Text → ℕ → (Text → Text) → Text → Text → Option (List Dependency) → Output → Exit
main library_version library_protocol quoted production upstream build out =
    let v = versions_of library_version library_protocol quoted production upstream build in
    if is_empty production
    then record {
      code = 2;
      lines = [];
      stdout = [];
      stderr = codes "protocolcheck: -production-version is required\n" ∷ [];
    }
    else report v out (decide library_version production v.vendored upstream)
