-- ===== src/Bot/Main/Secrets.antt =====
-- What a run of the program may depend on the token of PRESENCE_TOKEN for.
use minecraft_afk_bot.Bot.Loop.{Round}
use minecraft_afk_bot.Bot.Main.{
  Surroundings, Gate, always_present, reconciled, Poller, new_gate, presence_enabled, presence_gate,
  Ending, exited, connecting, Run, after_source, after_load, main,
}
use minecraft_afk_bot.Config as Settings
use minecraft_afk_bot.Config.{Environment, Config, enabled, load}
use minecraft_afk_bot.Config.Secrets.{
  with_token, without_token, Alike, both_load, both_fail, SameConfig, load-hides_token,
}
use minecraft_afk_bot.Mcauth
use minecraft_afk_bot.Mcauth.{Source, Sourced, token_source}
use minecraft_afk_bot.Presence.Client.{new_client}
use minecraft_afk_bot.Presence.Reconciler.{Reconciler, new_reconciler}
use minecraft_afk_bot.Prelude.Strings.{trim_space}
use minecraft_afk_bot.Prelude.{
  Text, ◌≡◌, refl, sym, ap, ◌∙◌, inl, inr, List, [], Option, none, some, is_empty, Bool-cases,
}

-- A reconciler whose client has no token, and a gate and an ending that hold such ones.
abbrev pub reconciler_without : Reconciler → Reconciler
reconciler_without r = record r { client = record r.client { token = [] } }

abbrev pub gate_without : Gate → Gate
gate_without always_present = always_present
gate_without (reconciled r) = reconciled (reconciler_without r)

abbrev pub poller_without : Option Poller → Option Poller
poller_without none = none
poller_without (some p) = some (record p { reconciler = reconciler_without p.reconciler })

abbrev pub ending_without : Ending → Ending
ending_without (exited status) = exited status
ending_without (connecting g actions last) =
    connecting (record g { gate = gate_without g.gate; poller = poller_without g.poller }) actions
      last

-- A run less the token that its client sends.
abbrev pub run_without : Run → Run
run_without r = record r { ending = ending_without r.ending }

module _ {Token : Type 0} (s : Surroundings Token) (rounds : List Round) where
  after_source-without :
      (c : Config) (sourced : Sourced Token) (result : Mcauth.Result (Source Token))
      → run_without (after_source s rounds c sourced result)
        ≡ run_without (after_source s rounds (without_token c) sourced result)
  unfolding presence_gate new_gate presence_enabled enabled new_client new_reconciler
  after_source-without c sourced (Mcauth.err e) = refl
  after_source-without c sourced (Mcauth.ok source) = elim (Bool-cases (is_empty c.presence.url)) [
    | inl e ↦ rw e refl
    | inr e ↦ rw e refl
  ]

  after_load-without :
      (c : Config)
      → run_without (after_load s rounds (Settings.ok c))
        ≡ run_without (after_load s rounds (Settings.ok (without_token c)))
  after_load-without c =
      let sourced = token_source s.codec s.digest s.auth (s.disk c.auth_cache_dir) c.username in
      after_source-without c sourced sourced.result

  after_load-Alike :
      (m n : Settings.Result Config)
      → Alike SameConfig m n
      → run_without (after_load s rounds m) ≡ run_without (after_load s rounds n)
  after_load-Alike m n (both_load {a} {b} same) =
      after_load-without a
      ∙ (ap (λ c. run_without (after_load s rounds (Settings.ok c))) same
          ∙ sym (after_load-without b))
  after_load-Alike m n both_fail = refl

-- The token of PRESENCE_TOKEN reaches nothing but the client that sends it: two starts that differ in
-- the token alone, both blank or both not, log the same, do the same to the cache directory, exit or
-- wait alike, and run the same connect loop on gates that differ in that client at most.
pub main-hides_token :
    (Token : Type 0) (s : Surroundings Token) (rounds : List Round) (t t' : Text)
    → is_empty (trim_space t) ≡ is_empty (trim_space t')
    → run_without (main (record s { env = with_token t s.env }) rounds)
      ≡ run_without (main (record s { env = with_token t' s.env }) rounds)
unfolding main
main-hides_token Token s rounds t t' same =
    after_load-Alike s rounds (load s.api s.parse_url (with_token t s.env))
      (load s.api s.parse_url (with_token t' s.env))
      (load-hides_token s.api s.parse_url s.env t t' same)
