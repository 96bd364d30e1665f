-- ===== src/Bot/Main/Restarts.antt =====
-- A start behind one that asked for a login.
use minecraft_afk_bot.Bot.Loop.{Round}
use minecraft_afk_bot.Bot.Main.{Surroundings, Ending, exited, connecting, Run, after_source, main}
use minecraft_afk_bot.Config as Settings
use minecraft_afk_bot.Config.{Config, load}
use minecraft_afk_bot.Mcauth
use minecraft_afk_bot.Mcauth.Logins.{token_source-resumes}
use minecraft_afk_bot.Mcauth.{
  token_file_name, Disk, apply_all, Codec, encoded, decoded, Loaded, loaded, absent, broken, Login,
  logged_in, refused, Source, Sourced, saved, after_login, after_load, load_token, after_mkdir,
  save_token, token_source,
}
use minecraft_afk_bot.Prelude.{
  Text, ◌≡◌, refl, sym, ap, subst, ◌∙◌, Bool, true, false, List, [], Option, none, some, is_empty,
  equal, equal_iff, if◌then◌else◌,
}

abbrev pub is_connecting : Ending → Bool
is_connecting (exited status) = false
is_connecting (connecting gated actions last) = true

-- The directories behind a run.
abbrev pub left_by : {Token : Type 0} → Surroundings Token → Config → Run → Text → Disk
left_by s c run dir =
    if equal dir c.auth_cache_dir then apply_all run.ops (s.disk dir) else s.disk dir

module _ {Token : Type 0} (codec : Codec Token) (path : Text) (tok : Token) where
  saved-token :
      (failure : Option Text) (source : Source Token)
      → saved codec path tok failure ≡ Mcauth.ok source
      → source ≡ record { path = path; token = tok }
  saved-token none source e = cc
  saved-token (some f) source e = cc

  asked-login :
      (f : Mcauth.Faults) (g : Login Token) (source : Source Token)
      → g ≡ logged_in tok
      → (after_login codec f path g).result ≡ Mcauth.ok source
      → source ≡ record { path = path; token = tok }
  asked-login f (refused e) source login given = cc
  asked-login f (logged_in t) source login given =
      saved-token (save_token codec f path tok).1 source (
        subst (λ u. saved codec path u (save_token codec f path u).1 ≡ Mcauth.ok source)
          (logged_in-injective t tok login) given)
    where
      logged_in-injective : (a b : Token) → logged_in a ≡ logged_in b → a ≡ b
      logged_in-injective a b e = cc

  asked-load :
      (e : Mcauth.Env Token) (l : Loaded Token) (source : Source Token)
      → e.login ≡ logged_in tok
      → (after_load codec e path l).asked ≡ true
      → (after_load codec e path l).result ≡ Mcauth.ok source
      → source ≡ record { path = path; token = tok }
  asked-load e (loaded t) source login asked given = cc
  asked-load e (broken f) source login asked given = cc
  asked-load e absent source login asked given = asked-login e.faults e.login source login given

  -- A source behind a login holds the token that the login gave.
  asked-token :
      (e : Mcauth.Env Token) (d : Disk) (m : Option Text) (source : Source Token)
      → e.login ≡ logged_in tok
      → (after_mkdir codec e d path m).asked ≡ true
      → (after_mkdir codec e d path m).result ≡ Mcauth.ok source
      → source ≡ record { path = path; token = tok }
  asked-token e d (some f) source login asked given = cc
  asked-token e d none source login asked given =
      asked-load e (load_token codec e.read_failure d path) source login asked given

module _ {Token : Type 0} (s : Surroundings Token) (rounds : List Round) (c : Config) where
  after_source-asked :
      (sourced : Sourced Token) (result : Mcauth.Result (Source Token))
      → let run = after_source s rounds c sourced result in
        (run.asked ≡ sourced.asked) × (run.ops ≡ sourced.ops)
  after_source-asked sourced (Mcauth.ok source) = (refl, refl)
  after_source-asked sourced (Mcauth.err e) = (refl, refl)

  after_source-connects :
      (sourced : Sourced Token) (result : Mcauth.Result (Source Token))
      → is_connecting (after_source s rounds c sourced result).ending ≡ true
      → (source : Source Token) × (result ≡ Mcauth.ok source)
  after_source-connects sourced (Mcauth.ok source) h = (source, refl)
  after_source-connects sourced (Mcauth.err e) h = cc

  -- What a start on a loaded configuration has had of the token source.
  sourced_by : Sourced Token
  sourced_by = token_source s.codec s.digest s.auth (s.disk c.auth_cache_dir) c.username

  main-loaded :
      load s.api s.parse_url s.env ≡ Settings.ok c
      → main s rounds ≡ after_source s rounds c sourced_by sourced_by.result
  unfolding main sourced_by
  main-loaded e = rw e refl

  -- The disk that it leaves, in the directory of the configuration.
  left_by-here :
      load s.api s.parse_url s.env ≡ Settings.ok c
      → left_by s c (main s rounds) c.auth_cache_dir
        ≡ apply_all sourced_by.ops (s.disk c.auth_cache_dir)
  left_by-here e =
      rw
        (
          (equal_iff c.auth_cache_dir c.auth_cache_dir).1 refl,
          main-loaded e,
          (after_source-asked sourced_by sourced_by.result).1,
        )
        refl

  sourced-named :
      (path : Text)
      → token_file_name s.digest c.username ≡ Mcauth.ok path
      → sourced_by ≡ after_mkdir s.codec s.auth (s.disk c.auth_cache_dir) path s.auth.mkdir
  unfolding sourced_by token_source
  sourced-named path e = rw e refl

  -- A start whose token source finds a token.
  main-found :
      (source : Source Token)
      → load s.api s.parse_url s.env ≡ Settings.ok c
      → sourced_by ≡ record { asked = false; ops = []; result = Mcauth.ok source }
      → let run = main s rounds in
        (run.asked ≡ false) × (run.ops ≡ []) × (is_connecting run.ending ≡ true)
  main-found source e h = rw (main-loaded e, h) (refl, refl, refl)

-- Once a first start on a configuration that loads has asked for a login and has come to its
-- connect loop, a restart on the directory that it left comes to its connect loop too, with no
-- login asked for and nothing written, where the directory can be opened and read, the encoding
-- reads back what it wrote, and the token that the login gave has a refresh token.
pub main-restarts :
    (Token : Type 0) (s : Surroundings Token) (rounds rounds' : List Round)
    (later : Mcauth.Env Token) (c : Config) (path : Text) (tok : Token) (bytes : Text)
    → load s.api s.parse_url s.env ≡ Settings.ok c
    → token_file_name s.digest c.username ≡ Mcauth.ok path
    → (main s rounds).asked ≡ true
    → is_connecting (main s rounds).ending ≡ true
    → s.auth.login ≡ logged_in tok
    → s.codec.marshal tok ≡ encoded bytes
    → s.codec.unmarshal bytes ≡ decoded tok
    → is_empty (s.codec.refresh_token tok) ≡ false
    → later.mkdir ≡ none
    → later.read_failure ≡ none
    → let run = main (record s { auth = later; disk = left_by s c (main s rounds) }) rounds' in
      (run.asked ≡ false) × (run.ops ≡ []) × (is_connecting run.ending ≡ true)
unfolding sourced_by
main-restarts Token s rounds rounds' later c path tok bytes e named asked connects login enc dec
      live mk rd =
    let d = s.disk c.auth_cache_dir in
    let first = sourced_by s rounds c in
    let ran = main-loaded s rounds c e in
    let asked_first =
      sym (after_source-asked s rounds c first first.result).0 ∙ (rw ran at asked) in
    let (source, given) =
      after_source-connects s rounds c first first.result (rw ran at connects) in
    let by_login = sourced-named s rounds c path named in
    let same =
      asked-token s.codec path tok s.auth d s.auth.mkdir source login (rw by_login at asked_first)
        (rw by_login at given) in
    let found =
      token_source-resumes Token s.codec s.digest s.auth later d c.username path tok bytes named
        asked_first (given ∙ ap (λ x. Mcauth.ok x) same) enc dec live mk rd in
    main-found (record s { auth = later; disk = left_by s c (main s rounds) }) rounds' c
      (record { path = path; token = tok }) e
      (ap (λ now. token_source s.codec s.digest later now c.username) (left_by-here s rounds c e)
        ∙ found)
