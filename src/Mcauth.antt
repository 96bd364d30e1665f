-- ===== src/Mcauth.antt =====
-- internal/mcauth/token.go: one file for each account, in one directory. A disk is what that
-- directory holds, by file name; a failed call of the file system is a choice of its surroundings.
pub mod Names
pub mod Saves
pub mod Logins
pub mod Temporary
pub mod Sharing
pub mod Messages
use minecraft_afk_bot.Prelude.Strings.{codes, trim_space}
use minecraft_afk_bot.Prelude.{
  Text, ℕ, ◌+◌, Bool, true, false, ◌&&◌, ◌||◌, List, [], ◌∷◌, ◌++◌, map, Option, none, some, leb,
  take, is_empty, equal, ◌==◌, if◌then◌else◌,
}

abbrev pub token_slug_limit : ℕ
token_slug_limit = 32

-- The errors of the package, with the texts that they wrap.
pub data AuthError : Type 0 where
  empty_username no_refresh_token : AuthError
  no_cache_dir unreadable not_json login_failed not_saved : Text → AuthError

pub data Result {ℓ} (A : Type ℓ) : Type ℓ where
  ok : A → Result A
  err : AuthError → Result A

abbrev pub is_kept : ℕ → Bool
is_kept c = (leb b'a' c && leb c b'z') || (leb b'0' c && leb c b'9') || c == b'-' || c == b'_'

-- The function that `strings.Map` applies.
unfoldable pub slug_char : ℕ → ℕ
slug_char c = if is_kept c then c else if leb b'A' c && leb c b'Z' then c + 32 else b'-'

-- `tokenFileName`; `digest` is the first four bytes of the SHA-256 of a text, in hexadecimal.
unfoldable pub token_file_name : (Text → Text) → Text → Result Text
unfolding slug_char
token_file_name digest username =
    let name = trim_space username in
    let slug = take token_slug_limit (map slug_char name) in
    if is_empty name
    then err empty_username
    else ok (codes "token-" ++ (slug ++ (codes "-" ++ (digest name ++ codes ".json"))))

abbrev pub Disk : Type 0
Disk = Text → Option Text

-- What the package does to the directory.
pub data Op : Type 0 where
  create chmod sync close remove : Text → Op
  write rename : Text → Text → Op

unfoldable pub apply : Op → Disk → Disk
apply (create t) d = λ name. if equal name t then some [] else d name
apply (write t s) d = λ name. if equal name t then some s else d name
apply (rename t p) d = λ name. if equal name p then d t else if equal name t then none else d name
apply (remove t) d = λ name. if equal name t then none else d name
apply (chmod t) d = d
apply (sync t) d = d
apply (close t) d = d

abbrev pub apply_all : List Op → Disk → Disk
apply_all [] d = d
apply_all (op ∷ ops) d = apply_all ops (apply op d)

-- `os.CreateTemp` with the pattern `.token-*`: what stands for the star, or its error.
pub data Created : Type 0 where
  created not_created : Text → Created

-- How the calls of one `saveToken` end.
pub record Faults : Type 0 where
  pub create : Created
  pub chmod : Option Text
  pub write : Option Text
  -- how much a failed write has written
  pub written : ℕ
  pub sync : Option Text
  pub close : Option Text
  pub rename : Option Text

-- A step that may fail: what it has done by then, and what it does otherwise before the rest.
abbrev pub then_or : Option Text → List Op → List Op → List Op × Option Text → List Op × Option Text
then_or (some e) failed done rest = (failed, some e)
then_or none failed done rest = (done ++ rest.0, rest.1)

-- From the chmod to the rename.
unfoldable pub fill : Faults → Text → Text → Text → List Op × Option Text
fill f tmp path bytes = then_or f.chmod [] (chmod tmp ∷ []) (
    then_or f.write (write tmp (take f.written bytes) ∷ []) (write tmp bytes ∷ []) (
      then_or f.sync [] (sync tmp ∷ []) (
        then_or f.close [] (close tmp ∷ [])
          (then_or f.rename [] (rename tmp path ∷ []) ([], none)))))

abbrev pub temporary : Text → Text
temporary star = codes ".token-" ++ star

-- Behind `os.CreateTemp`; the deferred cleanup closes and removes.
unfoldable pub save_created : Faults → Text → Text → Created → List Op × Option Text
unfolding fill
save_created f path bytes (not_created e) = ([], some e)
save_created f path bytes (created star) =
    let tmp = temporary star in
    let (ops, e) = fill f tmp path bytes in (create tmp ∷ (ops ++ close tmp ∷ remove tmp ∷ []), e)

-- `encoding/json` at `oauth2.Token`, and the refresh token of one.
pub data Encoded : Type 0 where
  encoded not_encoded : Text → Encoded

pub data Decoded (Token : Type 0) : Type 0 where
  decoded : Token → Decoded Token
  not_decoded : Text → Decoded Token

pub record Codec (Token : Type 0) : Type 0 where
  pub marshal : Token → Encoded
  pub unmarshal : Text → Decoded Token
  pub refresh_token : Token → Text

abbrev pub save_encoded : Faults → Text → Encoded → List Op × Option Text
save_encoded f path (not_encoded e) = ([], some e)
save_encoded f path (encoded bytes) = save_created f path bytes f.create

-- How `os.ReadFile` ends, where `failure` is an error other than that of a missing file.
pub data Loaded (Token : Type 0) : Type 0 where
  loaded : Token → Loaded Token
  absent : Loaded Token
  broken : AuthError → Loaded Token

-- How the interactive login ends.
pub data Login (Token : Type 0) : Type 0 where
  logged_in : Token → Login Token
  refused : Text → Login Token

-- What surrounds one call of `TokenSource`.
pub record Env (Token : Type 0) : Type 0 where
  pub mkdir : Option Text
  pub read_failure : Option Text
  pub login : Login Token
  pub faults : Faults

pub record Source (Token : Type 0) : Type 0 where
  pub path : Text
  pub token : Token

-- What one call has done: whether it asked for a login, what it did to the directory, its result.
pub record Sourced (Token : Type 0) : Type 0 where
  pub asked : Bool
  pub ops : List Op
  pub result : Result (Source Token)

module _ {Token : Type 0} (c : Codec Token) where
  unfoldable pub save_token : Faults → Text → Token → List Op × Option Text
  save_token f path tok = save_encoded f path (c.marshal tok)

  -- From the decoded file.
  abbrev pub check_token : Decoded Token → Loaded Token
  check_token (not_decoded e) = broken (not_json e)
  check_token (decoded tok) =
      if is_empty (c.refresh_token tok) then broken no_refresh_token else loaded tok

  -- From the file.
  abbrev pub read_token : Option Text → Option Text → Loaded Token
  read_token (some e) file = broken (unreadable e)
  read_token none none = absent
  read_token none (some bytes) = check_token (c.unmarshal bytes)

  unfoldable pub load_token : Option Text → Disk → Text → Loaded Token
  load_token failure d path = read_token failure (d path)

  -- Behind the save of a token that the login gave.
  abbrev pub saved : Text → Token → Option Text → Result (Source Token)
  saved path tok none = ok (record { path = path; token = tok })
  saved path tok (some e) = err (not_saved e)

  -- Behind the login.
  abbrev pub after_login : Faults → Text → Login Token → Sourced Token
  after_login f path (refused e) = record { asked = true; ops = []; result = err (login_failed e) }
  after_login f path (logged_in tok) =
      let (ops, failure) = save_token f path tok in
      record { asked = true; ops = ops; result = saved path tok failure }

  -- Behind `loadToken`.
  abbrev pub after_load : Env Token → Text → Loaded Token → Sourced Token
  after_load e path (loaded tok) = record {
    asked = false;
    ops = [];
    result = ok (record { path = path; token = tok });
  }
  after_load e path (broken failure) = record { asked = false; ops = []; result = err failure }
  after_load e path absent = after_login e.faults path e.login

  -- Behind `os.MkdirAll`.
  abbrev pub after_mkdir : Env Token → Disk → Text → Option Text → Sourced Token
  after_mkdir e d path (some failure) = record {
    asked = false;
    ops = [];
    result = err (no_cache_dir failure);
  }
  after_mkdir e d path none = after_load e path (load_token e.read_failure d path)

  abbrev pub after_name : Env Token → Disk → Result Text → Sourced Token
  after_name e d (err failure) = record { asked = false; ops = []; result = err failure }
  after_name e d (ok path) = after_mkdir e d path e.mkdir

  -- `TokenSource`.
  unfoldable pub token_source : (Text → Text) → Env Token → Disk → Text → Sourced Token
  token_source digest e d username = after_name e d (token_file_name digest username)

  -- `Token` of the caching source, from what the wrapped source gives: what it does to the
  -- directory, and its result.
  unfoldable pub token : Faults → Text → Login Token → List Op × Login Token
  token f path (refused e) = ([], refused e)
  token f path (logged_in tok) = ((save_token f path tok).0, logged_in tok)
