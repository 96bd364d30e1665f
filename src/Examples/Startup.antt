-- ===== src/Examples/Startup.antt =====
-- Tests of the start of the program in cmd/bot/main.go.
use minecraft_afk_bot.Bot.Main.{Surroundings, main}
use minecraft_afk_bot.Prelude.{false}
use minecraft_afk_bot.Bot.Main.Gates.{IsUrlParser}
use minecraft_afk_bot.Bot.Main.Restarts.{is_connecting, left_by, main-restarts}
use minecraft_afk_bot.Bot.Main.Secrets.{run_without, main-hides_token}
use minecraft_afk_bot.Bot.Main.Starts.{IsStanding, main-IsStanding}
use minecraft_afk_bot.Config.{presence_url}
use minecraft_afk_bot.Config.RoundTrip.{load-environment_of}
use minecraft_afk_bot.Config.Secrets.{with_token}
use minecraft_afk_bot.Examples.Agent.{api}
use minecraft_afk_bot.Examples.Reconnect.{history}
use minecraft_afk_bot.Examples.Settings.{parse_url, config, env, config-IsSpelled}
use minecraft_afk_bot.Examples.Tokens.{
  digest, path, codec, empty_disk, tok, first_start, later_start, named,
}
use minecraft_afk_bot.Mcauth.{
  token_source, load_token, token_file_name, save_token, save_created, fill, slug_char,
}
use minecraft_afk_bot.Prelude.Strings.{codes, trim_space, trim_right, drop_while, is_space}
use minecraft_afk_bot.Prelude.{Text, ◌≡◌, refl, true, false, [], ◌++◌}

abbrev surroundings : Surroundings Text
surroundings = record {
  env = env;
  log_level = codes "debug";
  parse_url = parse_url;
  api = api;
  quoted = λ s. codes "\"" ++ (s ++ codes "\"");
  join = λ dir name. dir ++ (codes "/" ++ name);
  digest = digest;
  codec = codec;
  auth = first_start;
  disk = λ dir. empty_disk;
  version = codes "dev";
}

parse_url-IsUrlParser : IsUrlParser parse_url
parse_url-IsUrlParser raw u e blank = cc (rw blank at e)

main-IsStanding_example :
    IsStanding api
      (trim_space (env presence_url))
      (main surroundings history).logs
      (main surroundings history).ending
main-IsStanding_example = main-IsStanding Text surroundings history parse_url-IsUrlParser

main-hides_token_example :
    run_without (main (record surroundings { env = with_token (codes "a") env }) history)
    ≡ run_without (main (record surroundings { env = with_token (codes "b") env }) history)
unfolding trim_space trim_right drop_while is_space
main-hides_token_example = main-hides_token Text surroundings history (codes "a") (codes "b") refl

-- The first start asks for a login and comes to its connect loop.
first_asks : (main surroundings history).asked ≡ true
unfolding main token_source token_file_name trim_space trim_right drop_while is_space slug_char
    load_token save_token save_created fill
first_asks = rw (load-environment_of api parse_url config config-IsSpelled) refl

first_connects : is_connecting (main surroundings history).ending ≡ true
unfolding main token_source token_file_name trim_space trim_right drop_while is_space slug_char
    load_token save_token save_created fill
first_connects = rw (load-environment_of api parse_url config config-IsSpelled) refl

abbrev restarted : Surroundings Text
restarted = record surroundings {
  auth = later_start;
  disk = left_by surroundings config (main surroundings history);
}

main-restarts_example :
    ((main restarted []).asked ≡ false)
    × ((main restarted []).ops ≡ [])
    × (is_connecting (main restarted []).ending ≡ true)
main-restarts_example =
    main-restarts Text surroundings history [] later_start config path tok tok
      (load-environment_of api parse_url config config-IsSpelled) named first_asks first_connects
      refl refl refl refl refl refl
