-- ===== src/Adapters/Dsm/Session/Recovery.antt =====
-- internal/adapters/synology.go: how Call gets over an expired session.
use homelab_api.Base.{Text, ◌==◌, ==_refl, ==-false, true, [], ◌≡◌, ◌≢◌, refl, ap, arith}
use homelab_api.Base.Dict.{Dict}
use homelab_api.Adapters.Dsm.{DsmError, Web, Dsm, good, bad, mapping, ◌>>=◌, raw_get}
use homelab_api.Adapters.Dsm.Session.{
  set_sid, login_locked, ensure_session, call_with_sid, is_expired, invalidate_session, invalidated,
  retry, call,
}

module _ (web : Web) where
  client-raw_get :
      (endpoint : Text) (params : Dict Text) (d : Dsm)
      → (raw_get web endpoint params d).1.client ≡ d.client
  unfolding raw_get
  client-raw_get endpoint params d = ground arith

  module _ (api method version : Text) (extra : Dict Text) where
    client-call_with_sid :
        (sid : Text) (d : Dsm)
        → (call_with_sid web sid api method version extra d).1.client ≡ d.client
    unfolding call_with_sid ◌>>=◌ mapping
    client-call_with_sid sid d = grind (client-raw_get, arith)

    ensure_session-cached :
        (d : Dsm) → d.client.sid ≢ [] → ensure_session web d ≡ (good d.client.sid, d)
    unfolding ensure_session
    ensure_session-cached d h = rw (==-false d.client.sid [] h) refl

    call-cached :
        (d : Dsm)
        → d.client.sid ≢ []
        → let (r, d') = call_with_sid web d.client.sid api method version extra d in
          call web api method version extra d ≡ retry web d.client.sid api method version extra r d'
    unfolding call ◌>>=◌ mapping
    call-cached d h = rw (ensure_session-cached d h) refl

    -- If the DSM rejects the cached session as expired, and a login and the call with the new
    -- session are answered, Call returns that answer, and the new session is cached.
    pub call_recovers :
        (d d1 d2 d3 : Dsm) (e : DsmError) (payload : Text)
        → d.client.sid ≢ []
        → call_with_sid web d.client.sid api method version extra d ≡ (bad e, d1)
        → is_expired e ≡ true
        → login_locked web (set_sid [] d1) ≡ (good tt, d2)
        → call_with_sid web d2.client.sid api method version extra d2 ≡ (good payload, d3)
        → (call web api method version extra d ≡ (good payload, d3))
          × (d3.client.sid ≡ d2.client.sid)
    unfolding retry invalidate_session invalidated ◌>>=◌ mapping ensure_session ◌==◌
    call_recovers d d1 d2 d3 e payload h first expired login second = (
      rw (call-cached d h, first, expired, same, ==_refl d.client.sid, login, second) refl,
      rw (← ap (λ p. p.1.client.sid) second) (ap (λ c. c.sid) (client-call_with_sid _ d2)),
    )
      where
        same : d1.client.sid ≡ d.client.sid
        same = rw (← ap (λ p. p.1.client.sid) first) (ap (λ c. c.sid) (client-call_with_sid _ d))
