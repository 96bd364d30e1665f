-- ===== src/Examples/Agent.antt =====
-- Tests of the client, the streaks and the poller of internal/presence.
use minecraft_afk_bot.Presence.Api.{Api, IsContract}
use minecraft_afk_bot.Presence.Client.{
  ok, HttpError, Client, Fetched, Response, Exchange, answered, unanswered, Net, read_fetched,
  check_presence, fetch,
}
use minecraft_afk_bot.Presence.Reconciler.Static.{Tick, IsDown, run, outage_holds}
use minecraft_afk_bot.Presence.Reconciler.{Reconciler, new_reconciler}
use minecraft_afk_bot.Prelude.Strings.{codes}
use minecraft_afk_bot.Prelude.{
  ℕ, ◌≡◌, ◌≢◌, refl, false, ◌||◌, [], ◌∷◌, none, some, equal, equal_iff, ap, arith,
}

-- Decoders that take a body for the state itself.
abbrev pub api : Api
api = record {
  state_present = codes "present";
  state_parked = codes "parked";
  valid = λ s. equal s (codes "present") || equal s (codes "parked");
  decode_effective = λ s. some s;
  decode_failure = λ s. codes "unexpected end of JSON input";
  decode_error = λ s. record { code = []; message = [] };
}

distinct_states : codes "present" ≢ codes "parked"
unfolding equal
distinct_states e = cc ((equal_iff (codes "present") (codes "parked")).1 e)

pub api-IsContract : IsContract api
unfolding equal
api-IsContract = record {
  present_valid = refl;
  parked_valid = refl;
  distinct = distinct_states;
  valid_only = λ s h. ground (arith, equal_iff s (codes "present"), equal_iff s (codes "parked"));
}

abbrev pub client : Client
client = record {
  base = codes "http://agent:8080";
  actor_id = codes "afk-1";
  token = codes "secret";
}

-- A network on which every request gets one answer.
abbrev pub net_of : Response → Net
net_of r = record {
  refuses_url = λ u. none;
  encode_status = λ s. s.observed_state;
  path_escape = λ s. s;
  quoted = λ s. s;
  exchange = λ req. answered r;
}

abbrev pub parks : Response
parks = record { status_code = 200; etag = codes "7"; body = codes "parked" }

abbrev pub accepts : Response
accepts = record { status_code = 204; etag = []; body = [] }

abbrev breaks : Response
breaks = record { status_code = 503; etag = []; body = codes "oops" }

abbrev parked_now : Fetched
parked_now = record { effective = codes "parked"; etag = codes "7"; not_modified = false }

abbrev reconciler : Reconciler
reconciler = new_reconciler client (codes "present") (codes "1.0")

abbrev broken_tick : Tick
broken_tick = record {
  fetch_net = net_of breaks;
  report_net = net_of accepts;
  fetch_done = false;
  report_done = false;
}

abbrev code_of : Exchange → ℕ
code_of (answered r) = r.status_code
code_of (unanswered e) = 0

breaks-IsDown : IsDown (net_of breaks)
breaks-IsDown req resp e given = omega (arith, ap code_of e)

abbrev refused : HttpError
refused = record { status_code = 403; body = record { code = []; message = [] } }

fetch_run : fetch api (net_of parks) client (codes "6") ≡ ok parked_now
unfolding fetch read_fetched check_presence equal
fetch_run = refl

outage_holds_example :
    (run api reconciler (broken_tick ∷ broken_tick ∷ [])).desired ≡ reconciler.desired
outage_holds_example =
    outage_holds api reconciler (broken_tick ∷ broken_tick ∷ [])
      (breaks-IsDown, (breaks-IsDown, tt))
