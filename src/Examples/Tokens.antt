-- ===== src/Examples/Tokens.antt =====
-- Tests of internal/mcauth/token.go.
use minecraft_afk_bot.Mcauth.Logins.{
  is_none, is_ok, is_missing, token_source-asked, token_source-resumes,
}
use minecraft_afk_bot.Mcauth.Names.{IsDigest, token_file_name-digest}
use minecraft_afk_bot.Mcauth.Sharing.{HoldsOne, run_all, saving, saving-HoldsOne}
use minecraft_afk_bot.Mcauth.Saves.{MayHold, save_token-MayHold}
use minecraft_afk_bot.Mcauth.{
  ok, slug_char, token_file_name, Disk, apply_all, created, Faults, fill, save_created, encoded,
  decoded, Codec, logged_in, refused, Env, save_token, load_token, token_source,
}
use minecraft_afk_bot.Prelude.Strings.{codes, trim_space, trim_right, drop_while, is_space}
use minecraft_afk_bot.Prelude.{Text, ℕ, List, ◌∷◌, false, ◌≡◌, refl, ◌&&◌, [], none, some, take}

abbrev pub digest : Text → Text
digest s = codes "deadbeef"

digest-IsDigest : (s : Text) → IsDigest (digest s)
digest-IsDigest s = (refl, (refl, (refl, (refl, (refl, (refl, (refl, (refl, (refl, tt)))))))))

abbrev pub path : Text
path = codes "token-a--steve-deadbeef.json"

pub named : token_file_name digest (codes "A/:Steve") ≡ ok path
unfolding token_file_name trim_space trim_right drop_while is_space slug_char
named = refl

named_blank : token_file_name digest (codes " A/:Steve\n") ≡ ok path
unfolding token_file_name trim_space trim_right drop_while is_space slug_char
named_blank = refl

-- A token is its refresh token, written as it is.
abbrev pub codec : Codec Text
codec = record {
  marshal = λ tok. encoded tok;
  unmarshal = λ s. decoded s;
  refresh_token = λ tok. tok;
}

abbrev pub no_faults : Faults
no_faults = record {
  create = created (codes "123");
  chmod = none;
  write = none;
  written = 0;
  sync = none;
  close = none;
  rename = none;
}

-- The disk is full after one byte.
abbrev full : Faults
full = record no_faults { write = some (codes "no space"); written = 1 }

abbrev pub empty_disk : Disk
empty_disk name = none

abbrev pub tok : Text
tok = codes "refresh"

abbrev pub first_start : Env Text
first_start = record {
  mkdir = none;
  read_failure = none;
  login = logged_in tok;
  faults = no_faults;
}

abbrev pub later_start : Env Text
later_start = record first_start { login = refused (codes "nobody is watching") }

token_file_name-digest_example :
    digest (trim_space (codes "A/:Steve")) ≡ digest (trim_space (codes " A/:Steve\n"))
token_file_name-digest_example =
    token_file_name-digest digest (codes "A/:Steve") (codes " A/:Steve\n") path digest-IsDigest
      named named_blank

save_token-MayHold_example :
    MayHold
      (empty_disk path)
      (encoded tok)
      (apply_all (take 2 (save_token codec full path tok).0) empty_disk path)
save_token-MayHold_example =
    save_token-MayHold Text codec digest full (codes "A/:Steve") path tok empty_disk 2 named

token_source-asked_example :
    (token_source codec digest first_start empty_disk (codes "A/:Steve")).asked ≡ (
      is_ok (token_file_name digest (codes "A/:Steve"))
      && is_none first_start.mkdir
      && is_none first_start.read_failure
      && is_missing empty_disk (token_file_name digest (codes "A/:Steve")))
token_source-asked_example =
    token_source-asked Text codec digest first_start empty_disk (codes "A/:Steve")

token_source-resumes_example :
    token_source codec digest later_start
      (apply_all
        (token_source codec digest first_start empty_disk (codes "A/:Steve")).ops
        empty_disk)
      (codes "A/:Steve")
    ≡ record { asked = false; ops = []; result = ok (record { path = path; token = tok }) }
unfolding token_source token_file_name trim_space trim_right drop_while is_space slug_char
    load_token save_token save_created fill
token_source-resumes_example =
    token_source-resumes Text codec digest first_start later_start empty_disk (codes "A/:Steve")
      path tok tok named refl refl refl refl refl refl refl

-- Two processes, each with a temporary file of its own, step in turn.
abbrev each_fault : ℕ → Faults
each_fault i = record no_faults { create = created (i ∷ []) }

abbrev each_token : ℕ → Text
each_token i = tok

each_distinct :
    (i j : ℕ) (star : Text)
    → (each_fault i).create ≡ created star
    → (each_fault j).create ≡ created star
    → i ≡ j
each_distinct i j star hi hj = cc

abbrev turns : List ℕ
turns = 0 ∷ 1 ∷ 0 ∷ 1 ∷ 0 ∷ []

saving-HoldsOne_example :
    HoldsOne
      (λ i. codec.marshal (each_token i))
      (empty_disk path)
      ((run_all turns (saving codec each_fault path each_token empty_disk)).disk path)
saving-HoldsOne_example =
    saving-HoldsOne Text codec digest (codes "A/:Steve") path each_fault each_token empty_disk turns
      named each_distinct
