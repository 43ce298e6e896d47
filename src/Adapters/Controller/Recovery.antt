-- ===== src/Adapters/Controller/Recovery.antt =====
-- internal/adapters/unifi.go: how get recovers from an expired session.
use homelab_api.Base.{
  ◌≤◌, ◌<◌, Text, true, false, ◌≡◌, ap, refl, arith, eqb, Option-cases, inl, inr,
}
use homelab_api.Base.Result.{Result, ok}
use homelab_api.Base.Action.{good, pure, mapping, ◌>>=◌, ◌>>◌, from_result, test}
use homelab_api.Adapters.Controller.{
  get_path, Response, Network, Controller, attempt, attempt_unless, set_logged_in,
  invalidate_session, do_request, has_key, maybe_login, login_unless_key, login_unless,
  login_locked, ensure_session, unauthorized, reauthorize, read_body, get, is_failure,
}

module _ (network : Network) where
  client-do_request :
      (path : Text) (c : Controller) → (do_request network path c).1.client ≡ c.client
  unfolding do_request attempt attempt_unless mapping
  client-do_request path c =
      elim (Option-cases (network.invalid (get_path c.client.host path c.client.api_key))) [
        | inl h ↦ rw h refl
        | inr (e, h) ↦ rw h refl
      ]

  maybe_login-logged_in :
      (c : Controller) → c.client.logged_in ≡ true → maybe_login network c ≡ (good tt, c)
  unfolding maybe_login login_unless_key ensure_session login_unless
  maybe_login-logged_in c h = ground arith

  module _ {A : Type 0} (decode : Text → Result A) where
    read_body-good :
        (r : Response) (text : Text) (a : A) (c : Controller)
        → 200 ≤ r.status
        → r.status < 300
        → r.body ≡ ok text
        → decode text ≡ ok a
        → read_body network decode r c ≡ (good a, c)
    unfolding read_body ◌>>=◌ ◌>>◌ from_result test
    read_body-good r text a c low high body decoded =
        let fine : is_failure r.status ≡ false = ground arith in rw (fine, body, decoded) refl

    -- If the controller answers the first request of a logged-in client without an API key with
    -- status 401, and then a login and the second request, with a status from 200 to 299 and a body
    -- that decodes, GET returns that body.
    pub get_recovers :
        (path : Text) (c c1 c2 c3 : Controller) (first second : Response) (text : Text) (a : A)
        → has_key c ≡ false
        → c.client.logged_in ≡ true
        → do_request network path c ≡ (good first, c1)
        → first.status ≡ 401
        → login_locked network (set_logged_in false c1) ≡ (good tt, c2)
        → do_request network path c2 ≡ (good second, c3)
        → 200 ≤ second.status
        → second.status < 300
        → second.body ≡ ok text
        → decode text ≡ ok a
        → get network decode path c ≡ (good a, c3)
    unfolding get reauthorize unauthorized ◌>>=◌ ◌>>◌ mapping test pure ensure_session login_unless
        invalidate_session
    get_recovers path c c1 c2 c3 first second text a key on asked refused login again low high body
          decoded =
        let same : has_key c1 ≡ false =
          rw (← ap (λ p. p.1.client) asked, client-do_request path c) key in
        let settled : eqb second.status 401 ≡ false = ground arith in
        rw (maybe_login-logged_in c on, asked, refused, same, login, again, settled)
          (read_body-good second text a c3 low high body decoded)
