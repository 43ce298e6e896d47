-- ===== src/Adapters/Dsm/Session/Laws.antt =====
-- internal/adapters/synology.go: what one authenticated call does to the client, and how many
-- requests it sends.
use homelab_api.Base.{
  ℕ, ◌+◌, ◌≤◌, Text, ◌==◌, lit, Option, some, none, [], ◌≡◌, refl, length, arith, Bool-cases, inl,
  inr,
}
use homelab_api.Base.Dict.{Dict}
use homelab_api.Base.Result.{Error}
use homelab_api.Base.Action.Cost.{Cost, Runs, Runs-bind, Runs-mapping, Runs-test, Runs-from_result}
use homelab_api.Adapters.Dsm.{
  DsmApiInfo, DsmError, other, Web, Dsm, Outcome, good, bad, raise, mapping, ◌>>=◌, ◌>>◌, raw_get,
  SynologyResponse,
}
use homelab_api.Adapters.Dsm.Session.{
  set_sid, discover_auth, login_locked, ensure_session, call_with_sid, is_expired,
  invalidate_session, retry, call, query_auth, remember_auth, request_login, known_or_query,
  check_login,
}

-- At most `n` requests were sent, and nothing changed that API discovery knows.
pub record Within (n : ℕ) (d d' : Dsm) : Type 0 where
  pub few : length d'.requests ≤ n + length d.requests
  pub supported : d'.client.supported_apis ≡ d.client.supported_apis
  pub failed : d'.client.discovery_failed ≡ d.client.discovery_failed

Within-refl : (d : Dsm) → Within 0 d d
Within-refl d = record { few = omega arith; supported = refl; failed = refl }

Within-trans : (m n : ℕ) (d e f : Dsm) → Within m d e → Within n e f → Within (m + n) d f
Within-trans m n d e f a b = grind arith

Within-weaken : (m n : ℕ) (d e : Dsm) → m ≤ n → Within m d e → Within n d e
Within-weaken m n d e h a = grind arith

abbrev requests_cost : Cost Dsm
requests_cost = record {
  within = Within;
  still = Within-refl;
  adds = Within-trans;
  weaken = Within-weaken;
}

module _ (web : Web) where
  Runs-raw_get :
      (endpoint : Text) (params : Dict Text) → Runs requests_cost 1 (raw_get web endpoint params)
  unfolding raw_get
  Runs-raw_get endpoint params d = ground arith

  Runs-remember_auth : (info : Option DsmApiInfo) → Runs requests_cost 0 (remember_auth web info)
  unfolding remember_auth raise
  Runs-remember_auth none d = Within-refl d
  Runs-remember_auth (some info) d = record { few = omega arith; supported = refl; failed = refl }

  Runs-query_auth : Runs requests_cost 1 (query_auth web)
  unfolding query_auth ◌>>◌
  Runs-query_auth =
      Runs-bind requests_cost 1 0 _ _ (Runs-mapping requests_cost 1 _ _ (Runs-raw_get _ _)) λ resp.
        Runs-bind requests_cost 0 0 _ _ (Runs-test requests_cost _ _) λ u.
          Runs-bind requests_cost 0 0 _ _ (Runs-from_result requests_cost _ _)
            λ apis. Runs-remember_auth _

  Runs-known_or_query : (o : Option DsmApiInfo) → Runs requests_cost 1 (known_or_query web o)
  unfolding known_or_query
  Runs-known_or_query (some info) d = Within-weaken 0 1 d d (omega arith) (Within-refl d)
  Runs-known_or_query none d = Runs-query_auth d

  Runs-discover_auth : Runs requests_cost 1 (discover_auth web)
  unfolding discover_auth
  Runs-discover_auth d = Runs-known_or_query d.client.auth_info d

  Runs-check_login : (resp : SynologyResponse) → Runs requests_cost 0 (check_login web resp)
  unfolding check_login
  Runs-check_login resp = Runs-test requests_cost _ _

  Runs-request_login : (path : Text) → Runs requests_cost 1 (request_login web path)
  unfolding request_login
  Runs-request_login path d = Runs-raw_get _ _ d

  Runs-set_sid : (sid : Text) → Runs requests_cost {E = Error} 0 (λ d. (good tt, set_sid sid d))
  Runs-set_sid sid d = record { few = omega arith; supported = refl; failed = refl }

  Runs-login_locked : Runs requests_cost 2 (login_locked web)
  unfolding login_locked ◌>>◌
  Runs-login_locked =
      Runs-bind requests_cost 1 1 _ _ (Runs-mapping requests_cost 1 _ _ Runs-discover_auth) λ info.
        Runs-bind requests_cost 1 0 _ _ (Runs-mapping requests_cost 1 _ _ (Runs-request_login _))
          λ resp.
            Runs-bind requests_cost 0 0 _ _ (Runs-check_login resp)
              λ u. Runs-bind requests_cost 0 0 _ _ (Runs-from_result requests_cost _ _) Runs-set_sid

  Runs-ensure_session : Runs requests_cost 2 (ensure_session web)
  unfolding ensure_session
  Runs-ensure_session d = elim (Bool-cases (d.client.sid == [])) [
    | inr cached ↦ rw cached (Within-weaken 0 2 d d (omega arith) (Within-refl d))
    | inl empty ↦ rw empty (
        Runs-bind requests_cost 2 0 (login_locked web) (λ u d'. (good d'.client.sid, d'))
          Runs-login_locked (λ u. Within-refl) d)
  ]

  module _ (api method version : Text) (extra : Dict Text) where
    Runs-call_with_sid :
        (sid : Text) → Runs requests_cost 1 (call_with_sid web sid api method version extra)
    unfolding call_with_sid ◌>>=◌ mapping
    Runs-call_with_sid sid =
        Runs-bind requests_cost 1 0 (mapping other (raw_get web (lit "entry.cgi") _)) _
          (Runs-raw_get _ _) λ resp. Within-refl

    Runs-retry :
        (sid : Text) (r : Outcome DsmError Text)
        → Runs requests_cost 3 (retry web sid api method version extra r)
    unfolding retry invalidate_session
    Runs-retry sid (good payload) d = Within-weaken 0 3 d d (omega arith) (Within-refl d)
    Runs-retry sid (bad e) d = elim (Bool-cases (is_expired e)) [
      | inr n ↦ rw n (Within-weaken 0 3 d d (omega arith) (Within-refl d))
      | inl y ↦ rw y (
          Within-trans 0 3 d (invalidate_session sid d) _ (ground arith) (
            Runs-bind requests_cost 2 1 _ _
              (Runs-mapping requests_cost 2 other _ Runs-ensure_session) Runs-call_with_sid
              (invalidate_session sid d)))
    ]

    -- Whatever the DSM answers, Call sends at most six requests: twice the query for the login
    -- API, the login, and the call itself; and it leaves alone what API discovery has found.
    pub call-Within : (d : Dsm) → Within 6 d (call web api method version extra d).1
    unfolding call
    call-Within d =
        Runs-bind requests_cost 2 4 (mapping other (ensure_session web)) _
          (Runs-mapping requests_cost 2 other _ Runs-ensure_session)
          (λ sid d'.
            Within-trans 1 3 d' (call_with_sid web sid api method version extra d').1 _
              (Runs-call_with_sid sid d') (Runs-retry sid _ _))
          d
