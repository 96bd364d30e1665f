-- ===== src/Protocolcheck/Exits.antt =====
-- What the exit code and the output file say.
use minecraft_afk_bot.Protocolcheck.{
  Dependency, Status, status_match, status_behind, status_blocked_on_upstream, decide, Output,
  Pairs, render, after_write, write_pairs, after_close, after_open, emit, Exit, Versions,
  emit_or_die, check_line, match_line, blocked_warning, blocked_line, behind_line, versions_of,
  matched_pairs, changed_pairs, report, main,
}
use mathlib.Core.List.{Perm}
use mathlib.Core.List.Perm
use minecraft_afk_bot.Prelude.{
  subst, Text, ℕ, Bool, true, false, not, ◌&&◌, List, [], ◌∷◌, ◌++◌, map, Option, none, some,
  is_empty, equal, ◌≡◌, ◌≢◌, refl, ap, Bool-cases, inl, inr, if◌then◌else◌,
}

after_write-none :
    (path : Text) (pair : Text × Text) (failure : Option Text) (rest : List Text × Option Text)
    (lines : List Text)
    → ((rest.1 ≡ none) → rest.0 ≡ lines)
    → (after_write path pair failure rest).1 ≡ none
    → (after_write path pair failure rest).0 ≡ render pair ∷ lines
after_write-none path pair (some e) rest lines next h = cc
after_write-none path pair none rest lines next h = ap (λ l. render pair ∷ l) (next h)

-- With no error, every pair is in the file.
write_pairs-none :
    (out : Output) (pairs : Pairs)
    → (write_pairs out pairs).1 ≡ none
    → (write_pairs out pairs).0 ≡ map render pairs
unfolding write_pairs
write_pairs-none out [] h = refl
write_pairs-none out ((k, v) ∷ pairs) h =
    after_write-none out.path (k, v) (out.write_error k) (write_pairs out pairs) (map render pairs)
      (write_pairs-none out pairs) h

after_open-none :
    (out : Output) (pairs : Pairs) (opened : Option Text)
    → (after_open out pairs opened).1 ≡ none
    → (after_open out pairs opened).0 ≡ map render (out.order pairs)
after_open-none out pairs (some e) h = cc
after_open-none out pairs none h =
    let found = out.order pairs in
    write_pairs-none out found (closed (write_pairs out found).1 out.close_error h)
  where
    closed :
        (failure close_error : Option Text)
        → after_close out.path failure close_error ≡ none
        → failure ≡ none
    closed none close_error h = refl
    closed (some e) close_error h = cc

emit-none :
    (out : Output) (pairs : Pairs)
    → is_empty out.path ≡ false
    → (emit out pairs).1 ≡ none
    → (emit out pairs).0 ≡ map render (out.order pairs)
unfolding emit
emit-none out pairs given h = rw given (after_open-none out pairs out.open_error (rw given at h))

-- A range over a map finds each of its pairs once, in some order.
abbrev pub IsOrder : Output → Type 0
IsOrder out = (pairs : Pairs) → Perm (out.order pairs) pairs

-- The same end but for the order of the lines in the file.
pub record SameExit (x y : Exit) : Type 0 where
  pub code : x.code ≡ y.code
  pub lines : Perm x.lines y.lines
  pub stdout : x.stdout ≡ y.stdout
  pub stderr : x.stderr ≡ y.stderr

emit_or_die-SameExit :
    (before : List Text) (emitted : List Text × Option Text) (code : ℕ) (out err : List Text)
    (lines : List Text)
    → ((emitted.1 ≡ none) → Perm emitted.0 lines)
    → (emit_or_die before emitted code out err).code ≢ 2
    → SameExit
        (emit_or_die before emitted code out err)
        (record { code = code; lines = lines; stdout = before ++ out; stderr = err })
emit_or_die-SameExit before (lines, none) code out err expected h alive = record {
  code = refl;
  lines = h refl;
  stdout = refl;
  stderr = refl;
}
emit_or_die-SameExit before (lines, some e) code out err expected h alive = absurd (alive refl)

emit-Perm :
    (out : Output) (pairs : Pairs)
    → IsOrder out
    → is_empty out.path ≡ false
    → (emit out pairs).1 ≡ none
    → Perm (emit out pairs).0 (map render pairs)
emit-Perm out pairs order given h = rw (emit-none out pairs given h) (Perm.map render (order pairs))

-- What a status calls for: the exit code, the file, and what is printed.
abbrev pub settled : Versions → Status → Exit
settled v status_match = record {
  code = 0;
  lines = map render (matched_pairs v);
  stdout = check_line v ∷ match_line v ∷ [];
  stderr = [];
}
settled v status_behind = record {
  code = 1;
  lines = map render (changed_pairs v status_behind);
  stdout = check_line v ∷ [];
  stderr = behind_line v ∷ [];
}
settled v status_blocked_on_upstream = record {
  code = 0;
  lines = map render (changed_pairs v status_blocked_on_upstream);
  stdout = check_line v ∷ blocked_warning v ∷ [];
  stderr = blocked_line v ∷ [];
}

-- What a run that can be trusted leaves, by the versions: a match if the two versions are equal,
-- blocked if the module is upstream's newest, and behind otherwise.
abbrev pub expected : Versions → Exit
expected v =
    if equal v.library_version v.production
    then settled v status_match
    else if not (is_empty v.upstream) && equal v.upstream v.vendored
    then settled v status_blocked_on_upstream
    else settled v status_behind

report-SameExit :
    (v : Versions) (out : Output) (status : Status)
    → IsOrder out
    → is_empty out.path ≡ false
    → (report v out status).code ≢ 2
    → SameExit (report v out status) (settled v status)
report-SameExit v out status_match order given alive =
    let pairs = matched_pairs v in
    emit_or_die-SameExit (check_line v ∷ match_line v ∷ []) (emit out pairs) 0 [] []
      (map render pairs) (emit-Perm out pairs order given) alive
report-SameExit v out status_behind order given alive =
    let pairs = changed_pairs v status_behind in
    emit_or_die-SameExit (check_line v ∷ []) (emit out pairs) 1 [] (behind_line v ∷ [])
      (map render pairs) (emit-Perm out pairs order given) alive
report-SameExit v out status_blocked_on_upstream order given alive =
    let pairs = changed_pairs v status_blocked_on_upstream in
    emit_or_die-SameExit (check_line v ∷ []) (emit out pairs) 0 (blocked_warning v ∷ [])
      (blocked_line v ∷ []) (map render pairs) (emit-Perm out pairs order given) alive

-- A version that equals one that is not empty is not empty.
given-equal :
    (u v : Text)
    → (not (is_empty u) && not (is_empty v) && equal u v) ≡ (not (is_empty u) && equal u v)
unfolding equal
given-equal [] v = refl
given-equal (c ∷ u) [] = refl
given-equal (c ∷ u) (d ∷ v) = refl

settled-if :
    (v : Versions) (same blocked : Bool)
    → settled v (
        if same
        then status_match
        else if blocked
        then status_blocked_on_upstream
        else status_behind)
      ≡ (if same
          then settled v status_match
          else if blocked
          then settled v status_blocked_on_upstream
          else settled v status_behind)
settled-if v true blocked = refl
settled-if v false true = refl
settled-if v false false = refl

settled-decide :
    (v : Versions)
    → settled v (decide v.library_version v.production v.vendored v.upstream) ≡ expected v
unfolding decide
settled-decide v = rw (given-equal v.upstream v.vendored) (
    settled-if v (equal v.library_version v.production)
      (not (is_empty v.upstream) && equal v.upstream v.vendored))

-- Where an output file is named, and whatever the order in which a range over a map finds its pairs, a
-- run that does not exit with 2 has written every pair to the file once, with the status that the
-- versions call for, has printed the lines of that status, and exits with 1 exactly if the versions
-- differ and the module can be bumped or its newest version is not known.
pub main-SameExit :
    (library_version : Text) (library_protocol : ℕ) (quoted : Text → Text)
    (production upstream : Text) (build : Option (List Dependency)) (out : Output)
    → IsOrder out
    → is_empty out.path ≡ false
    → (main library_version library_protocol quoted production upstream build out).code ≢ 2
    → SameExit
        (main library_version library_protocol quoted production upstream build out)
        (expected (versions_of library_version library_protocol quoted production upstream build))
unfolding main
main-SameExit library_version library_protocol quoted production upstream build out order given
      alive =
    let v = versions_of library_version library_protocol quoted production upstream build in
    elim (Bool-cases (is_empty production)) [
      | inl e ↦ absurd ((rw e at alive) refl)
      | inr e ↦ rw e (
          subst (SameExit (report v out (decide library_version production v.vendored upstream)))
            (settled-decide v)
            (report-SameExit v out (decide library_version production v.vendored upstream) order
              given (rw e at alive)))
    ]
