-- ===== src/Adapters/Dsm/Session.antt =====
-- internal/adapters/synology.go: discoverAuth, loginLocked, ensureSession, callWithSID,
-- invalidateSession and Call, for one goroutine; Sharing has several.
pub mod Laws
pub mod Recovery
use homelab_api.Base.{Text, ◌==◌, lit, Bool, false, not, if◌then◌else◌, Option, some, none, [], ◌∷◌}
use homelab_api.Base.Int.{ℤ, pos}
use homelab_api.Base.Int.Decimal.{format}
use homelab_api.Base.Dict.{Dict, lookup}
use homelab_api.Base.Result.{plain, Error, wrap}
use homelab_api.Adapters.Dsm.{
  DsmApiInfo, SynologyClient, SynologyResponse, SynologyError, DsmError, api_error, other,
  is_session_expired, Web, Dsm, Outcome, good, bad, Action, raise, mapping, ◌>>=◌, ◌>>◌,
  from_result, test, failure, copy_into, raw_get,
}

-- `code := 0; if resp.Error != nil { code = resp.Error.Code }`
unfoldable pub code_of : Option SynologyError → ℤ
code_of none = pos 0
code_of (some e) = e.code

abbrev pub set_client : SynologyClient → Dsm → Dsm
set_client client d = record d { client = client }

-- c.sid = sid
abbrev pub set_sid : Text → Dsm → Dsm
set_sid sid d = set_client (record d.client { sid = sid }) d

module _ (web : Web) where
  -- c.authInfo = …; return c.authInfo, nil
  unfoldable pub remember_auth : Option DsmApiInfo → Action Error DsmApiInfo
  remember_auth none d =
      raise (failure (lit "discover auth API: SYNO.API.Auth not found in response")) d
  remember_auth (some info) d =
      (good info, set_client (record d.client { auth_info = some info }) d)

  unfoldable pub query_auth : Action Error DsmApiInfo
  unfolding remember_auth
  query_auth = do
    resp ← mapping (wrap (plain (lit "discover auth API") ∷ [])) (
        raw_get web (lit "query.cgi") (
          (lit "api", lit "SYNO.API.Info")
          ∷ (lit "version", lit "1")
          ∷ (lit "method", lit "query")
          ∷ (lit "query", lit "SYNO.API.Auth")
          ∷ []))
    test resp.success (failure (lit "discover auth API: request failed"))
    apis ←
        from_result (plain (lit "discover auth API: parse response") ∷ [])
          (web.decode_auth resp.payload)
    remember_auth (lookup (lit "SYNO.API.Auth") apis)

  unfoldable pub known_or_query : Option DsmApiInfo → Action Error DsmApiInfo
  known_or_query (some info) d = (good info, d)
  known_or_query none d = query_auth d

  unfoldable pub discover_auth : Action Error DsmApiInfo
  discover_auth d = known_or_query d.client.auth_info d

  -- `if !resp.Success { … }` of loginLocked
  unfoldable pub check_login : SynologyResponse → Action Error Unit
  check_login resp = test resp.success (record {
    message =
        plain (lit "synology login failed: error code ") ∷ plain (format (code_of resp.error)) ∷ [];
    not_found = false;
  })

  unfoldable pub request_login : Text → Action Error SynologyResponse
  request_login path d =
      raw_get web path
        ((lit "api", lit "SYNO.API.Auth")
          ∷ (lit "method", lit "login")
          ∷ (lit "version", d.client.auth_version)
          ∷ (lit "account", d.client.user)
          ∷ (lit "passwd", d.client.pass)
          ∷ (lit "format", lit "sid")
          ∷ [])
        d

  unfoldable pub login_locked : Action Error Unit
  unfolding check_login
  login_locked = do
    info ← mapping (wrap (plain (lit "synology login") ∷ [])) discover_auth
    resp ← mapping (wrap (plain (lit "synology login") ∷ [])) (request_login info.path)
    check_login resp
    sid ← from_result (plain (lit "synology login parse") ∷ []) (web.decode_sid resp.payload)
    λ d. (good tt, set_sid sid d)

  -- The second test under the write lock sees the same SID when no other goroutine runs.
  unfoldable pub ensure_session : Action Error Text
  ensure_session d =
      if not (d.client.sid == [])
      then (good d.client.sid, d)
      else (login_locked >>= λ (_ : Unit). λ (d' : Dsm). (good d'.client.sid, d')) d

  -- `if !resp.Success { … }` of callWithSID
  unfoldable pub checked : Text → SynologyResponse → Outcome DsmError Text
  checked api resp =
      if resp.success then good resp.payload else bad (api_error api (code_of resp.error))

  unfoldable pub call_with_sid : Text → Text → Text → Text → Dict Text → Action DsmError Text
  unfolding checked
  call_with_sid sid api method version extra = do
    resp ← mapping other (
        raw_get web (lit "entry.cgi") (
          copy_into
            ((lit "api", api)
              ∷ (lit "method", method)
              ∷ (lit "version", version)
              ∷ (lit "_sid", sid)
              ∷ [])
            extra))
    λ d. (checked api resp, d)

-- `errors.As(err, &apiErr) && isSessionExpired(apiErr.Code)`
unfoldable pub is_expired : DsmError → Bool
is_expired (api_error api code) = is_session_expired code
is_expired (other e) = false

-- `if c.sid == usedSID { c.sid = "" }`, on the SID
unfoldable pub invalidated : Text → Text → Text
invalidated used_sid sid = if sid == used_sid then [] else sid

unfoldable pub invalidate_session : Text → Dsm → Dsm
invalidate_session used_sid d = set_sid (invalidated used_sid d.client.sid) d

module _ (web : Web) where
  -- What Call does after a first answer to the SID `sid`.
  unfoldable pub retry :
      Text → Text → Text → Text → Dict Text → Outcome DsmError Text → Action DsmError Text
  retry sid api method version extra (good payload) d = (good payload, d)
  retry sid api method version extra (bad e) d =
      if not (is_expired e)
      then (bad e, d)
      else (mapping other (ensure_session web) >>= λ (fresh : Text).
            call_with_sid web fresh api method version extra)
          (invalidate_session sid d)

  unfoldable pub call : Text → Text → Text → Dict Text → Action DsmError Text
  call api method version extra d =
      (mapping other (ensure_session web) >>= λ (sid : Text). λ (d' : Dsm).
          let (r, d'') = call_with_sid web sid api method version extra d' in
          retry sid api method version extra r d'')
        d
