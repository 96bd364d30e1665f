-- ===== src/Examples/Sessions.antt =====
-- Tests of `session` of cmd/bot/main.go.
use minecraft_afk_bot.Bot.Session.Writes.{asks_radius, confirms, session-asks_radius}
use minecraft_afk_bot.Bot.Session.{Pass, packet, failed, Env, session}
use minecraft_afk_bot.Examples.Respawn.{protocol_constants, working}
use minecraft_afk_bot.Gophertunnel.{death_info, respawn, chunk_radius_updated}
use minecraft_afk_bot.Prelude.Int.{pos}
use minecraft_afk_bot.Prelude.Strings.{codes}
use minecraft_afk_bot.Prelude.{ℕ, ◌+◌, false, [], ◌∷◌, none, ◌≡◌, refl, count}

abbrev a_pass : Pass ℕ
a_pass = record {
  done_before = false;
  read = packet death_info;
  done_after = false;
  writer = working;
}

-- The bot dies, is placed again, is told its radius, and loses its connection.
abbrev played : Env ℕ ℕ
played = record {
  view_distance = 12;
  pong = none;
  baked = record { id = pos 776; schema = 0 };
  dial_error = none;
  spawn_error = none;
  xuid = codes "2535";
  runtime_id = 42;
  writer = working;
  passes =
      a_pass
      ∷ record a_pass { read = packet (respawn 7 1 9) }
      ∷ record a_pass { read = packet (chunk_radius_updated 12) }
      ∷ record a_pass { read = failed (codes "EOF") }
      ∷ [];
}

session-asks_radius_example :
    count asks_radius (session protocol_constants played).0
    ≡ 1 + count confirms (session protocol_constants played).0
session-asks_radius_example =
    session-asks_radius protocol_constants played refl refl (λ pk. refl)
      ((λ pk. refl), ((λ pk. refl), ((λ pk. refl), ((λ pk. refl), tt))))
