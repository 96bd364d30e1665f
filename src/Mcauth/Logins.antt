-- ===== src/Mcauth/Logins.antt =====
-- When the package asks for an interactive login.
use minecraft_afk_bot.Mcauth.Saves.{Ends, save_token-Ends}
use minecraft_afk_bot.Mcauth.{
  Result, ok, err, token_file_name, Disk, apply_all, encoded, Decoded, decoded, Codec, Loaded,
  loaded, absent, broken, Login, logged_in, refused, Env, Sourced, save_token, read_token,
  check_token, load_token, saved, after_login, after_load, after_mkdir, after_name, token_source,
}
use minecraft_afk_bot.Prelude.{
  Text, ◌≡◌, refl, subst, Bool, true, false, ◌&&◌, [], Option, none, some, is_empty, arith,
}

abbrev pub is_none {ℓ} : {A : Type ℓ} → Option A → Bool
is_none none = true
is_none (some a) = false

abbrev pub is_ok {ℓ} : {A : Type ℓ} → Result A → Bool
is_ok (ok a) = true
is_ok (err e) = false

-- The directory holds nothing under the name.
abbrev pub is_missing : Disk → Result Text → Bool
is_missing d (ok path) = is_none (d path)
is_missing d (err e) = false

module _ {Token : Type 0} (c : Codec Token) where
  check_token-asked :
      (e : Env Token) (path : Text) (x : Decoded Token)
      → (after_load c e path (check_token c x)).asked ≡ false
  check_token-asked e path x = ground arith

  after_login-asked :
      (e : Env Token) (path : Text) (l : Login Token) → (after_login c e.faults path l).asked ≡ true
  after_login-asked e path (logged_in tok) = refl
  after_login-asked e path (refused f) = refl

  read_token-asked :
      (e : Env Token) (path : Text) (failure file : Option Text)
      → (after_load c e path (read_token c failure file)).asked ≡ (is_none failure && is_none file)
  read_token-asked e path (some f) file = refl
  read_token-asked e path none none = after_login-asked e path e.login
  read_token-asked e path none (some bytes) = check_token-asked e path (c.unmarshal bytes)

  after_mkdir-asked :
      (e : Env Token) (d : Disk) (path : Text) (failure : Option Text)
      → (after_mkdir c e d path failure).asked
        ≡ (is_none failure && is_none e.read_failure && is_none (d path))
  unfolding load_token
  after_mkdir-asked e d path (some f) = refl
  after_mkdir-asked e d path none = read_token-asked e path e.read_failure (d path)

  after_name-asked :
      (e : Env Token) (d : Disk) (r : Result Text)
      → (after_name c e d r).asked
        ≡ (is_ok r && is_none e.mkdir && is_none e.read_failure && is_missing d r)
  after_name-asked e d (err f) = refl
  after_name-asked e d (ok path) = after_mkdir-asked e d path e.mkdir

  -- What the first start did, if it asked for a login and returned a source.
  abbrev Kept : Env Token → Text → Token → Sourced Token → Type 0
  Kept e path tok s =
      ((save_token c e.faults path tok).1 ≡ none) × (s.ops ≡ (save_token c e.faults path tok).0)

  saved-ok :
      (path : Text) (t tok : Token) (failure : Option Text)
      → saved c path t failure ≡ ok (record { path = path; token = tok })
      → (failure ≡ none) × (t ≡ tok)
  saved-ok path t tok none given = (refl, cc)
  saved-ok path t tok (some f) given = cc

  after_login-Kept :
      (e : Env Token) (path : Text) (tok : Token) (l : Login Token)
      → (after_login c e.faults path l).result ≡ ok (record { path = path; token = tok })
      → Kept e path tok (after_login c e.faults path l)
  after_login-Kept e path tok (refused f) given = cc
  after_login-Kept e path tok (logged_in t) given =
      let (clean, same) = saved-ok path t tok (save_token c e.faults path t).1 given in
      subst
        (λ u.
          ((save_token c e.faults path u).1 ≡ none)
          × ((save_token c e.faults path t).0 ≡ (save_token c e.faults path u).0))
        same (clean, refl)

  after_load-Kept :
      (e : Env Token) (path : Text) (tok : Token) (x : Loaded Token)
      → (after_load c e path x).asked ≡ true
      → (after_load c e path x).result ≡ ok (record { path = path; token = tok })
      → Kept e path tok (after_load c e path x)
  after_load-Kept e path tok (loaded t) asked given = cc
  after_load-Kept e path tok (broken f) asked given = cc
  after_load-Kept e path tok absent asked given = after_login-Kept e path tok e.login given

  after_mkdir-Kept :
      (e : Env Token) (d : Disk) (path : Text) (tok : Token) (failure : Option Text)
      → (after_mkdir c e d path failure).asked ≡ true
      → (after_mkdir c e d path failure).result ≡ ok (record { path = path; token = tok })
      → Kept e path tok (after_mkdir c e d path failure)
  after_mkdir-Kept e d path tok (some f) asked given = cc
  after_mkdir-Kept e d path tok none asked given =
      after_load-Kept e path tok (load_token c e.read_failure d path) asked given

  -- A start that finds an encoded token.
  after_mkdir-found :
      (e : Env Token) (d : Disk) (path : Text) (tok : Token) (bytes : Text)
      → d path ≡ some bytes
      → c.unmarshal bytes ≡ decoded tok
      → is_empty (c.refresh_token tok) ≡ false
      → e.read_failure ≡ none
      → after_mkdir c e d path none
        ≡ record { asked = false; ops = []; result = ok (record { path = path; token = tok }) }
  unfolding load_token
  after_mkdir-found e d path tok bytes found dec live readable =
      rw (readable, found) (rw dec (rw live refl))

-- A login is asked for exactly if the user name gives a file name, the directory could be made, the
-- read does not fail for a reason other than a missing file, and the directory holds no file for
-- the account: never for a file that cannot be read, that does not decode, or that has no refresh
-- token.
pub token_source-asked :
    (Token : Type 0) (c : Codec Token) (digest : Text → Text) (e : Env Token) (d : Disk)
    (username : Text)
    → (token_source c digest e d username).asked ≡ (
        is_ok (token_file_name digest username)
        && is_none e.mkdir
        && is_none e.read_failure
        && is_missing d (token_file_name digest username))
unfolding token_source
token_source-asked Token c digest e d username =
    after_name-asked c e d (token_file_name digest username)

-- If a first start asked for a login and returned a source, a later start finds the token that the
-- login gave and asks for none, where the encoding reads back what it wrote and the token has a
-- refresh token.
pub token_source-resumes :
    (Token : Type 0) (c : Codec Token) (digest : Text → Text) (e e' : Env Token) (d : Disk)
    (username path : Text) (tok : Token) (bytes : Text)
    → token_file_name digest username ≡ ok path
    → (token_source c digest e d username).asked ≡ true
    → (token_source c digest e d username).result ≡ ok (record { path = path; token = tok })
    → c.marshal tok ≡ encoded bytes
    → c.unmarshal bytes ≡ decoded tok
    → is_empty (c.refresh_token tok) ≡ false
    → e'.mkdir ≡ none
    → e'.read_failure ≡ none
    → token_source c digest e' (apply_all (token_source c digest e d username).ops d) username
      ≡ record { asked = false; ops = []; result = ok (record { path = path; token = tok }) }
unfolding token_source
token_source-resumes Token c digest e e' d username path tok bytes named asked given enc dec live mk
      rd =
    let kept : Kept c e path tok (after_mkdir c e d path e.mkdir) =
      after_mkdir-Kept c e d path tok e.mkdir (rw named at asked) (rw named at given) in
    let now = apply_all (save_token c e.faults path tok).0 d in
    let ends : Ends (d path) (encoded bytes) none (now path) =
      rw (enc, kept.0) at (save_token-Ends Token c digest e.faults username path tok d named) in
    rw (named, mk, kept.1) (after_mkdir-found c e' now path tok bytes ends dec live rd)
