-- ===== src/Adapters/Controller/Laws.antt =====
-- internal/adapters/unifi.go: how many requests a GET sends, when it succeeds, and how it gets over an
-- expired session.
use homelab_api.Base.{
  ℕ, ◌+◌, ◌≤◌, Text, Bool, true, false, Option, some, none, ◌≡◌, refl, length, arith,
}
use homelab_api.Base.Result.{Error, Result}
use homelab_api.Base.Action.{good, mapping}
use homelab_api.Base.Action.Cost.{
  Cost, Runs, Runs-bind, Runs-then, Runs-mapping, Runs-test, Runs-pure, Runs-from_result,
}
use homelab_api.Adapters.Controller.{
  Request, Response, Network, Controller, set_logged_in, attempt, attempt_unless, post_credentials,
  login_locked, login_unless, ensure_session, invalidate_session, login_unless_key, maybe_login,
  do_request, unauthorized, reauthorize, read_body, get,
}

-- At most `n` requests were sent, and the API key is the same.
pub record Within (n : ℕ) (c c' : Controller) : Type 0 where
  pub few : length c'.requests ≤ n + length c.requests
  pub same_key : c'.client.api_key ≡ c.client.api_key

Within-trans : (m n : ℕ) (c d e : Controller) → Within m c d → Within n d e → Within (m + n) c e
Within-trans m n c d e a b = grind arith

Within-weaken : (m n : ℕ) (c d : Controller) → m ≤ n → Within m c d → Within n c d
Within-weaken m n c d h a = grind arith

abbrev requests_cost : Cost Controller
requests_cost = record {
  within = Within;
  still = λ c. record { few = omega arith; same_key = refl };
  adds = Within-trans;
  weaken = Within-weaken;
}

module _ (network : Network) where
  Runs-attempt_unless :
      (o : Option Error) (refuse : Error → Error) (r : Request)
      → Runs requests_cost 1 (attempt_unless network o refuse r)
  unfolding attempt_unless
  Runs-attempt_unless (some e) refuse r c = record { few = omega arith; same_key = refl }
  Runs-attempt_unless none refuse r c = record { few = omega arith; same_key = refl }

  Runs-attempt :
      (refuse : Error → Error) (r : Request) → Runs requests_cost 1 (attempt network refuse r)
  unfolding attempt
  Runs-attempt refuse r c = Runs-attempt_unless _ refuse r c

  Runs-post_credentials : Runs requests_cost 1 (post_credentials network)
  unfolding post_credentials
  Runs-post_credentials c = Runs-attempt _ _ c

  Runs-set_logged_in :
      (b : Bool) → Runs requests_cost {E = Error} 0 (λ c. (good tt, set_logged_in b c))
  Runs-set_logged_in b c = record { few = omega arith; same_key = refl }

  Runs-login_locked : Runs requests_cost 1 (login_locked network)
  unfolding login_locked
  Runs-login_locked =
      Runs-bind requests_cost 1 0 _ _ (Runs-mapping requests_cost 1 _ _ Runs-post_credentials)
        λ r. Runs-then requests_cost 0 0 _ _ (Runs-test requests_cost _ _) (Runs-set_logged_in true)

  Runs-login_unless : (b : Bool) → Runs requests_cost 1 (login_unless network b)
  unfolding login_unless
  Runs-login_unless true c = record { few = omega arith; same_key = refl }
  Runs-login_unless false c = Runs-login_locked c

  Runs-ensure_session : Runs requests_cost 1 (ensure_session network)
  unfolding ensure_session
  Runs-ensure_session c = Runs-login_unless _ c

  Runs-login_unless_key : (b : Bool) → Runs requests_cost 1 (login_unless_key network b)
  unfolding login_unless_key
  Runs-login_unless_key true c = record { few = omega arith; same_key = refl }
  Runs-login_unless_key false c = Runs-ensure_session c

  Runs-maybe_login : Runs requests_cost 1 (maybe_login network)
  unfolding maybe_login
  Runs-maybe_login c = Runs-login_unless_key _ c

  Runs-do_request : (path : Text) → Runs requests_cost 1 (do_request network path)
  unfolding do_request mapping
  Runs-do_request path c = Runs-attempt _ _ c

  Runs-unauthorized : (b : Bool) (path : Text) → Runs requests_cost 2 (unauthorized network b path)
  unfolding unauthorized invalidate_session
  Runs-unauthorized true path c = record { few = omega arith; same_key = refl }
  Runs-unauthorized false path c =
      Within-trans 0 2 c (invalidate_session c) _ (record { few = omega arith; same_key = refl })
        (Runs-then requests_cost 1 1 _ _ (Runs-mapping requests_cost 1 _ _ Runs-ensure_session)
          (Runs-bind requests_cost 1 0 _ _ (Runs-do_request path) λ r.
            Runs-then requests_cost 0 0 _ _ (Runs-test requests_cost _ _)
              (Runs-pure requests_cost Error r))
          (invalidate_session c))

  Runs-reauthorize :
      (b : Bool) (path : Text) (r : Response) → Runs requests_cost 2 (reauthorize network b path r)
  unfolding reauthorize
  Runs-reauthorize true path r c = Runs-unauthorized _ path c
  Runs-reauthorize false path r c = record { few = omega arith; same_key = refl }

  module _ {A : Type 0} (decode : Text → Result A) where
    Runs-read_body : (r : Response) → Runs requests_cost 0 (read_body network decode r)
    unfolding read_body
    Runs-read_body r = Runs-then requests_cost 0 0 _ _ (Runs-test requests_cost _ _) (
        Runs-bind requests_cost 0 0 _ _ (Runs-from_result requests_cost _ _)
          λ t. Runs-from_result requests_cost _ _)

    -- Whatever the controller answers, a GET sends at most four requests: the login, the GET
    -- itself, and both once more after a status 401; and it never changes the API key.
    pub get-Within : (path : Text) (c : Controller) → Within 4 c (get network decode path c).1
    unfolding get
    get-Within path = Runs-then requests_cost 1 3 _ _ Runs-maybe_login (
        Runs-bind requests_cost 1 2 _ _ (Runs-do_request path)
          λ first. Runs-bind requests_cost 2 0 _ _ (Runs-reauthorize _ path first) Runs-read_body)
