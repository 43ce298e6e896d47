-- ===== src/Adapters/Controller.antt =====
-- internal/adapters/unifi.go: the state of a UniFiClient, its sessions and its requests. The HTTP
-- client with its cookies, encoding/json and what the controller answers are a parameter,
-- `Network`: an answer may depend on all requests so far. The settings of TLS are left out.
pub mod Laws
pub mod Recovery
pub mod Answers
pub mod Methods
mod Tests
use homelab_api.Base.{
  ℕ, Text, ◌==◌, lit, Bool, true, false, not, ◌||◌, Option, some, none, List, [], ◌∷◌, leb, ltb,
  eqb,
}
use homelab_api.Base.Int.{pos}
use homelab_api.Base.Int.Decimal.{format}
use homelab_api.Base.Result.{plain, Error, Result, ok, err, wrap}
use homelab_api.Base.Action.{
  Outcome, good, bad, Stateful, pure, mapping, ◌>>=◌, ◌>>◌, from_result, test,
}

pub record UniFiClient : Type 0 where
  pub host : Text
  pub user : Text
  pub pass : Text
  pub api_key : Text
  pub logged_in : Bool

unfoldable pub new_unifi_client : Text → Text → Text → UniFiClient
new_unifi_client host user pass = record {
  host = host;
  user = user;
  pass = pass;
  api_key = [];
  logged_in = false;
}

unfoldable pub new_unifi_client_with_api_key : Text → Text → UniFiClient
new_unifi_client_with_api_key host api_key = record {
  host = host;
  user = [];
  pass = [];
  api_key = api_key;
  logged_in = false;
}

-- `post_login` is the POST of the credentials to /api/login; `get_path` a GET with the X-API-KEY
-- header, unless the key is empty.
pub data Request : Type 0 where
  post_login : (host user pass : Text) → Request
  get_path : (host path api_key : Text) → Request

-- A response's status code and its body, or the error of reading it.
pub record Response : Type 0 where
  pub status : ℕ
  pub body : Result Text

-- `invalid` is the error of http.NewRequest; `fetch` answers the last of the requests, newest first.
pub record Network : Type 0 where
  pub invalid : Request → Option Error
  pub fetch : List Request → Result Response

pub record Controller : Type 0 where
  pub client : UniFiClient
  pub requests : List Request

abbrev pub Action : Type 0 → Type 0
Action A = Stateful Controller Error A

abbrev pub set_logged_in : Bool → Controller → Controller
set_logged_in b c = record c { client = record c.client { logged_in = b } }

abbrev pub message : Text → Error
message text = record { message = plain text ∷ []; not_found = false }

-- `fmt.Errorf("<text> %d", status)`
abbrev pub status_error : Text → ℕ → Error
status_error text status = record {
  message = plain text ∷ plain (format (pos status)) ∷ [];
  not_found = false;
}

abbrev pub received : Result Response → Outcome Error Response
received (ok response) = good response
received (err e) = bad e

-- resp.StatusCode < 200 || resp.StatusCode >= 300
abbrev pub is_failure : ℕ → Bool
is_failure status = ltb status 200 || leb 300 status

unfoldable pub invalidate_session : Controller → Controller
invalidate_session c = set_logged_in false c

-- c.apiKey != ""
abbrev pub has_key : Controller → Bool
has_key c = not (c.client.api_key == [])

module _ (network : Network) where
  -- http.NewRequest, whose error `refuse` wraps, and client.Do
  unfoldable pub attempt_unless : Option Error → (Error → Error) → Request → Action Response
  attempt_unless (some e) refuse request c = (bad (refuse e), c)
  attempt_unless none refuse request c = (
    received (network.fetch (request ∷ c.requests)),
    record c { requests = request ∷ c.requests },
  )

  unfoldable pub attempt : (Error → Error) → Request → Action Response
  attempt refuse request c = attempt_unless (network.invalid request) refuse request c

  unfoldable pub post_credentials : Action Response
  post_credentials c = attempt (λ e. e) (post_login c.client.host c.client.user c.client.pass) c

  -- Whether reading the body of the answer fails does not matter.
  unfoldable pub login_locked : Action Unit
  login_locked = do
    response ← mapping (wrap (plain (lit "unifi login") ∷ [])) post_credentials
    test (eqb response.status 200) (status_error (lit "unifi login: status ") response.status)
    λ c. (good tt, set_logged_in true c)

  -- The second test under the write lock sees the same flag when no other goroutine runs.
  unfoldable pub login_unless : Bool → Action Unit
  login_unless true c = (good tt, c)
  login_unless false c = login_locked c

  unfoldable pub ensure_session : Action Unit
  ensure_session c = login_unless c.client.logged_in c

  unfoldable pub login_unless_key : Bool → Action Unit
  login_unless_key true c = (good tt, c)
  login_unless_key false c = ensure_session c

  unfoldable pub maybe_login : Action Unit
  maybe_login c = login_unless_key (has_key c) c

  -- The closure doRequest of get, with the wrapping of its error.
  unfoldable pub do_request : Text → Action Response
  do_request path = mapping (wrap (plain (lit "unifi request") ∷ [])) λ c.
      attempt (wrap (plain (lit "unifi request") ∷ []))
        (get_path c.client.host path c.client.api_key) c

  -- What get does with a status 401, by whether the client has an API key.
  unfoldable pub unauthorized : Bool → Text → Action Response
  unauthorized true path c = (bad (message (lit "unifi request: invalid API key (401)")), c)
  unauthorized false path c =
      (do
        mapping (wrap (plain (lit "unifi re-auth") ∷ [])) ensure_session
        response ← do_request path
        test (not (eqb response.status 401))
            (message (lit "unifi request: unauthorized after re-auth"))
        pure response)
        (invalidate_session c)

  unfoldable pub reauthorize : Bool → Text → Response → Action Response
  reauthorize true path response c = unauthorized (has_key c) path c
  reauthorize false path response c = (good response, c)

  module _ {A : Type 0} (decode : Text → Result A) where
    unfoldable pub read_body : Response → Action A
    read_body response = do
      test (not (is_failure response.status))
          (status_error (lit "unifi request: status ") response.status)
      text ← from_result (plain (lit "unifi read body") ∷ []) response.body
      from_result (plain (lit "unifi parse response") ∷ []) (decode text)

    unfoldable pub get : Text → Action A
    get path = do
      maybe_login
      first ← do_request path
      response ← reauthorize (eqb first.status 401) path first
      read_body response

  -- `reached` is the outcome of the request that only Ping makes; it leaves the client alone.
  unfoldable pub ping : Result {0} Unit → Action Unit
  ping reached = from_result (plain (lit "unifi unreachable") ∷ []) reached
