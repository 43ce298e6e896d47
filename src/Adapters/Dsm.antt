-- ===== src/Adapters/Dsm.antt =====
-- internal/adapters/synology.go: the state of a SynologyClient and the requests that it sends.
-- The HTTP client, encoding/json and what the DSM answers are a parameter, `Web`: an answer may
-- depend on all requests so far. The settings of TLS, the logger and the time zone are left out,
-- and so is what is logged.
pub mod Session
pub mod Discovery
pub mod Methods
pub mod Sharing
mod Tests
use homelab_api.Base.{
  Text, ◌==◌, lit, Bool, true, false, if◌then◌else◌, Option, some, none, List, [], ◌∷◌,
}
use homelab_api.Base.Int.{ℤ, pos, int_eq}
use homelab_api.Base.Int.Decimal.{format}
use homelab_api.Base.Dict.{Dict, insert}
use homelab_api.Base.Result.{plain, Error, Result, ok, err, wrap}
pub use homelab_api.Base.Action.{Outcome, good, bad, map_error, proceed}
unfoldable pub use homelab_api.Base.Action.{
  Stateful, pure, raise, mapping, ◌>>=◌, ◌>>◌, from_result, test,
}

pub record DsmApiInfo : Type 0 where
  pub path : Text
  pub max_ver : ℤ

pub record SynologyClient : Type 0 where
  pub name : Text
  pub host : Text
  pub user : Text
  pub pass : Text
  pub auth_version : Text
  pub auth_info : Option DsmApiInfo
  pub sid : Text
  pub supported_apis : Option (Dict Bool)
  pub discovery_failed : Bool

unfoldable pub new_synology_client : Text → Text → Text → Text → Text → SynologyClient
new_synology_client name host user pass auth_version = record {
  name = name;
  host = host;
  user = user;
  pass = pass;
  auth_version = if auth_version == [] then lit "6" else auth_version;
  auth_info = none;
  sid = [];
  supported_apis = none;
  discovery_failed = false;
}

pub record SynologyError : Type 0 where
  pub code : ℤ

pub record SynologyResponse : Type 0 where
  pub success : Bool
  pub payload : Text
  pub error : Option SynologyError

pub data DsmError : Type 0 where
  api_error : (api : Text) → (code : ℤ) → DsmError
  other : Error → DsmError

-- The `Error` method of DSMAPIError.
unfoldable pub error_of : DsmError → Error
error_of (api_error api code) = record {
  message =
      plain (lit "synology API ")
      ∷ plain api
      ∷ plain (lit " error code ")
      ∷ plain (format code)
      ∷ [];
  not_found = false;
}
error_of (other e) = e

-- isSessionExpired: session timeout, duplicate login, SID not found
unfoldable pub is_session_expired : ℤ → Bool
is_session_expired code =
    if int_eq code (pos 106)
    then true
    else if int_eq code (pos 107)
    then true
    else int_eq code (pos 119)

-- A request, for the URL that is made of it: https://<host>/webapi/<endpoint>?<params>
pub record Request : Type 0 where
  pub host : Text
  pub endpoint : Text
  pub params : Dict Text

-- What the HTTP client makes of a request that it has sent.
pub data Fetched : Type 0 where
  no_answer : Error → Fetched
  cut_off : Error → Fetched
  body : Text → Fetched

-- `fetch` answers the last of the requests, which stand newest first.
pub record Web : Type 0 where
  pub invalid : Request → Option Error
  pub fetch : List Request → Fetched
  pub decode_response : Text → Result SynologyResponse
  pub decode_auth : Text → Result (Dict DsmApiInfo)
  pub decode_names : Text → Result (List Text)
  pub decode_sid : Text → Result Text

-- The client and the requests sent so far.
pub record Dsm : Type 0 where
  pub client : SynologyClient
  pub requests : List Request

abbrev pub Action : Type 0 → Type 0 → Type 0
Action E A = Stateful Dsm E A

-- fmt.Errorf(text)
abbrev pub failure : Text → Error
failure message = record { message = plain message ∷ []; not_found = false }

-- maps.Copy(params, extra)
unfoldable pub copy_into : Dict Text → Dict Text → Dict Text
copy_into params [] = params
copy_into params ((key, value) ∷ extra) = copy_into (insert key value params) extra

module _ (web : Web) where
  unfoldable pub decoded : Fetched → Outcome Error SynologyResponse
  decoded (no_answer e) = bad (wrap (plain (lit "synology request") ∷ []) e)
  decoded (cut_off e) = bad (wrap (plain (lit "synology read body") ∷ []) e)
  decoded (body text) = elim (web.decode_response text) [
    | ok resp ↦ good resp
    | err e ↦ bad (wrap (plain (lit "synology parse response") ∷ []) e)
  ]

  unfoldable pub raw_get : Text → Dict Text → Action Error SynologyResponse
  unfolding decoded
  raw_get endpoint params d =
      let request : Request = record {
        host = d.client.host;
        endpoint = endpoint;
        params = params;
      } in
      elim (web.invalid request) [
        | some e ↦ (bad (wrap (plain (lit "synology request") ∷ []) e), d)
        | none ↦ (
          decoded (web.fetch (request ∷ d.requests)),
          record d { requests = request ∷ d.requests },
        )
      ]
