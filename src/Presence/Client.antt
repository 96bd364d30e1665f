-- ===== src/Presence/Client.antt =====
-- internal/presence/client.go: the two routes of the agent that a bot may call.
pub mod Answers
use minecraft_afk_bot.Presence.Api.{ErrorBody, Api}
use minecraft_afk_bot.Prelude.Strings.{codes, trim_right, itoa}
use minecraft_afk_bot.Prelude.{
  Text, ℕ, ◌+◌, ◌*◌, ◌/◌, ◌^◌, Bool, true, false, not, ◌&&◌, ◌||◌, List, [], ◌∷◌, ◌++◌, Option,
  none, some, leb, take, is_empty, ◌==◌, if◌then◌else◌,
}

abbrev pub max_body : ℕ
max_body = 64 * 2 ^ 10

pub record HttpError : Type 0 where
  pub status_code : ℕ
  pub body : ErrorBody

-- The errors of the client: a request that could not be built, a request that got no answer under
-- the name of its call, an answer that wraps `ErrInvalidResponse`, and a status.
pub data ClientError : Type 0 where
  build_failed : Text → ClientError
  no_answer : Text → Text → ClientError
  invalid_response : Text → ClientError
  http_error : HttpError → ClientError

pub data Result {ℓ} (A : Type ℓ) : Type ℓ where
  ok : A → Result A
  err : ClientError → Result A

http_error_text : HttpError → Text
http_error_text e =
    let status = codes "presence api: " ++ itoa e.status_code in
    if not (is_empty e.body.code)
    then status ++ (codes " " ++ (e.body.code ++ (codes ": " ++ e.body.message)))
    else status

-- `Error()`.
unfoldable pub error_text : ClientError → Text
unfolding http_error_text
error_text (build_failed e) = e
error_text (no_answer call e) = call ++ (codes ": " ++ e)
error_text (invalid_response e) = codes "presence api: invalid response: " ++ e
error_text (http_error e) = http_error_text e

pub record Fetched : Type 0 where
  -- the `Effective` of the presence; empty in an answer that was not modified
  pub effective : Text
  pub etag : Text
  pub not_modified : Bool

pub record Client : Type 0 where
  pub base : Text
  pub actor_id : Text
  pub token : Text

-- `presenceapi.Status`, less the time stamp that the agent ignores.
pub record Status : Type 0 where
  pub connected : Bool
  pub observed_state : Text
  pub process_version : Text

pub record Request : Type 0 where
  pub method : Text
  pub url : Text
  pub headers : List (Text × Text)
  pub body : Text

pub record Response : Type 0 where
  pub status_code : ℕ
  pub etag : Text
  pub body : Text

-- How `http.Client.Do` ends.
pub data Exchange : Type 0 where
  answered : Response → Exchange
  unanswered : Text → Exchange

-- The network and the standard library around one call.
pub record Net : Type 0 where
  -- the error of `http.NewRequestWithContext` at a URL
  pub refuses_url : Text → Option Text
  -- `json.Marshal` of a status, which does not fail at this type
  pub encode_status : Status → Text
  -- `url.PathEscape`
  pub path_escape : Text → Text
  -- `%q`
  pub quoted : Text → Text
  pub exchange : Request → Exchange

unfoldable pub new_client : Text → Text → Text → Client
unfolding trim_right
new_client base_url actor_id token = record {
  base = trim_right (λ c. c == b'/') base_url;
  actor_id = actor_id;
  token = token;
}

unfoldable pub endpoint : Net → Client → Text → Text
endpoint net c suffix =
    c.base ++ (codes "/v1/actors/" ++ (net.path_escape c.actor_id ++ (codes "/" ++ suffix)))

abbrev pub authorization : Client → Text × Text
authorization c = (codes "Authorization", codes "Bearer " ++ c.token)

-- The request of `Fetch`.
unfoldable pub fetch_request : Net → Client → Text → Request
unfolding endpoint
fetch_request net c etag = record {
  method = codes "GET";
  url = endpoint net c (codes "presence");
  headers =
      if not (is_empty etag)
      then authorization c ∷ (codes "If-None-Match", etag) ∷ []
      else authorization c ∷ [];
  body = [];
}

-- The request of `Report`.
unfoldable pub report_request : Net → Client → Status → Request
unfolding endpoint
report_request net c st = record {
  method = codes "POST";
  url = endpoint net c (codes "status");
  headers = authorization c ∷ (codes "Content-Type", codes "application/json") ∷ [];
  body = net.encode_status st;
}

-- Behind `http.NewRequestWithContext`, which ended so.
abbrev pub fetch_built : Option Text → Result Fetched → Result Fetched
fetch_built (some e) rest = err (build_failed e)
fetch_built none rest = rest

abbrev pub report_built : Option Text → Option ClientError → Option ClientError
report_built (some e) rest = some (build_failed e)
report_built none rest = rest

module _ (api : Api) (net : Net) where
  read_http_error : Response → ClientError
  read_http_error r =
      http_error
        (record { status_code = r.status_code; body = api.decode_error (take max_body r.body) })

  -- From a decoded body.
  unfoldable pub check_presence : Response → Option Text → Result Fetched
  check_presence r none =
      err
        (invalid_response (codes "decode presence: " ++ api.decode_failure (take max_body r.body)))
  check_presence r (some state) =
      if not (api.valid state)
      then err (invalid_response (codes "effective state " ++ net.quoted state))
      else ok (record { effective = state; etag = r.etag; not_modified = false })

  -- From an answer to `Fetch`.
  unfoldable pub read_fetched : Text → Exchange → Result Fetched
  unfolding read_http_error check_presence
  read_fetched etag (unanswered e) = err (no_answer (codes "fetch presence") e)
  read_fetched etag (answered r) =
      if r.status_code == 304
      then ok (record { effective = []; etag = etag; not_modified = true })
      else if r.status_code == 200
      then check_presence r (api.decode_effective (take max_body r.body))
      else err (read_http_error r)

  unfoldable pub fetch : Client → Text → Result Fetched
  fetch c etag =
      let req = fetch_request net c etag in
      fetch_built (net.refuses_url req.url) (read_fetched etag (net.exchange req))

  -- From an answer to `Report`.
  unfoldable pub read_reported : Exchange → Option ClientError
  unfolding read_http_error
  read_reported (unanswered e) = some (no_answer (codes "report status") e)
  read_reported (answered r) =
      if not (r.status_code / 100 == 2) then some (read_http_error r) else none

  unfoldable pub report : Client → Status → Option ClientError
  report c st =
      let req = report_request net c st in
      report_built (net.refuses_url req.url) (read_reported (net.exchange req))
