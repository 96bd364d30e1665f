-- ===== src/Examples/Checks.antt =====
-- Tests of cmd/protocolcheck/main.go.
use mathlib.Core.List.{reverse, reverse_perm}
use minecraft_afk_bot.Prelude.Strings.{codes}
use minecraft_afk_bot.Prelude.{
  Text, ℕ, List, [], ◌∷◌, ◌++◌, Option, none, some, ◌≡◌, ◌≢◌, refl, equal, arith,
}
use minecraft_afk_bot.Protocolcheck.Exits.{IsOrder, SameExit, expected, main-SameExit}
use minecraft_afk_bot.Protocolcheck.{
  Dependency, find_version, vendored_version, decide, Output, write_pairs, emit, versions_of, main,
}

abbrev output : Output
output = record {
  path = codes "/tmp/output";
  open_error = none;
  write_error = λ k. none;
  close_error = none;
  order = reverse;
}

output-IsOrder : IsOrder output
output-IsOrder pairs = reverse_perm pairs

-- A build with a replaced module.
abbrev build : Option (List Dependency)
build = some (
    record { path = codes "golang.org/x/oauth2"; version = codes "v0.1.0"; replacement = none }
    ∷ record {
      path = codes "github.com/sandertv/gophertunnel";
      version = codes "v1.60.0";
      replacement = some (codes "v1.61.0");
    }
    ∷ [])

replaced : vendored_version build ≡ codes "v1.61.0"
unfolding vendored_version find_version equal
replaced = refl

abbrev code_behind : ℕ
code_behind = 1

one_not_two : code_behind ≢ 2
one_not_two e = omega arith

abbrev quoted : Text → Text
quoted s = codes "\"" ++ (s ++ codes "\"")

-- The module is behind: a newer one is published.
main-SameExit_example :
    SameExit (main (codes "1.26.40") 800 quoted (codes "1.26.45") (codes "v1.62.0") build output) (
      expected (versions_of (codes "1.26.40") 800 quoted (codes "1.26.45") (codes "v1.62.0") build))
unfolding main decide vendored_version find_version equal emit write_pairs
main-SameExit_example =
    main-SameExit (codes "1.26.40") 800 quoted (codes "1.26.45") (codes "v1.62.0") build output
      output-IsOrder refl one_not_two
