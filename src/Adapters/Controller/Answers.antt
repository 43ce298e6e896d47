-- ===== src/Adapters/Controller/Answers.antt =====
-- internal/adapters/unifi.go: when a GET succeeds.
use homelab_api.Base.{
  ℕ, ◌≤◌, ◌<◌, Text, Bool, true, false, not, Option, some, none, ◌∷◌, ◌≡◌, ap, subst, ◌∙◌, arith,
}
use homelab_api.Base.Result.{Error, Result, ok, err}
use homelab_api.Base.Action.{good, pure}
use homelab_api.Base.Action.Inversion.{
  Succeeds, bind_inv, then_inv, mapping_inv, test_inv, from_result_inv,
}
use homelab_api.Adapters.Controller.{
  Request, Response, Network, Controller, attempt, attempt_unless, invalidate_session, do_request,
  unauthorized, reauthorize, read_body, get, is_failure, received,
}

module _ (network : Network) where
  -- The newest request was answered with `r`.
  abbrev pub IsAnswered : Controller → Response → Type 0
  IsAnswered c r = network.fetch c.requests ≡ ok r

  received_inv : (r : Result Response) (a : Response) → received r ≡ good a → r ≡ ok a
  received_inv (ok x) a h = cc
  received_inv (err e) a h = cc

  IsAnswered-attempt_unless :
      (o : Option Error) (refuse : Error → Error) (request : Request) (c : Controller)
      (r : Response) (d : Controller)
      → Succeeds (attempt_unless network o refuse request) c r d
      → IsAnswered d r
  unfolding attempt_unless
  IsAnswered-attempt_unless (some e) refuse request c r d h = cc
  IsAnswered-attempt_unless none refuse request c r d h =
      let same : request ∷ c.requests ≡ d.requests = ap (λ p. p.1.requests) h in
      let good_answer : received (network.fetch (request ∷ c.requests)) ≡ good r =
        ap (λ p. p.0) h in
      subst (λ requests. network.fetch requests ≡ ok r) same (received_inv _ r good_answer)

  IsAnswered-attempt :
      (refuse : Error → Error) (request : Request) (c : Controller) (r : Response) (d : Controller)
      → Succeeds (attempt network refuse request) c r d
      → IsAnswered d r
  unfolding attempt
  IsAnswered-attempt refuse request c r d h =
      IsAnswered-attempt_unless (network.invalid request) refuse request c r d h

  IsAnswered-do_request :
      (path : Text) (c : Controller) (r : Response) (d : Controller)
      → Succeeds (do_request network path) c r d
      → IsAnswered d r
  unfolding do_request
  IsAnswered-do_request path c r d h = IsAnswered-attempt _ _ c r d (mapping_inv _ _ c r d h)

  pure_inv :
      {A : Type 0} (a b : A) (c d : Controller)
      → Succeeds {E = Error} (pure a) c b d
      → (a ≡ b) × (c ≡ d)
  unfolding pure
  pure_inv a b c d h = (cc, cc)

  IsAnswered-unauthorized :
      (b : Bool) (path : Text) (c : Controller) (r : Response) (d : Controller)
      → Succeeds (unauthorized network b path) c r d
      → IsAnswered d r
  unfolding unauthorized
  IsAnswered-unauthorized true path c r d h = cc
  IsAnswered-unauthorized false path c r d h =
      let (u, c1, login, rest) = then_inv _ _ (invalidate_session c) r d h in
      let (r', c2, asked, rest2) = bind_inv _ _ c1 r d rest in
      let (u', c3, allowed, rest3) = then_inv _ _ c2 r d rest2 in
      let same = (test_inv _ _ c2 u' c3 allowed).1 in
      let (er, ed) = pure_inv r' r c3 d rest3 in
      subst (λ x. IsAnswered x r) (same ∙ ed)
        (subst (λ x. IsAnswered c2 x) er (IsAnswered-do_request path c1 r' c2 asked))

  IsAnswered-reauthorize :
      (b : Bool) (path : Text) (first : Response) (c : Controller) (r : Response) (d : Controller)
      → IsAnswered c first
      → Succeeds (reauthorize network b path first) c r d
      → IsAnswered d r
  unfolding reauthorize
  IsAnswered-reauthorize true path first c r d i h = IsAnswered-unauthorized _ path c r d h
  IsAnswered-reauthorize false path first c r d i h =
      let same : c ≡ d = ap (λ p. p.1) h in
      let kept : first ≡ r = cc in
      subst (λ x. IsAnswered x r) same (subst (λ x. IsAnswered c x) kept i)

  status_inv : (status : ℕ) → not (is_failure status) ≡ true → (200 ≤ status) × (status < 300)
  status_inv status h = ground arith

  module _ {A : Type 0} (decode : Text → Result A) where
    -- A GET that succeeds returns what its last request was answered with: a status from 200 to
    -- 299, and a body that decodes to the result.
    pub get_good :
        (path : Text) (c : Controller) (a : A) (d : Controller)
        → get network decode path c ≡ (good a, d)
        → (r : Response) × (text : Text) × IsAnswered d r
          × (200 ≤ r.status)
          × (r.status < 300)
          × (r.body ≡ ok text)
          × (decode text ≡ ok a)
    unfolding get read_body
    get_good path c a d h =
        let (u, c1, login, rest) = then_inv _ _ c a d h in
        let (first, c2, asked, rest2) = bind_inv _ _ c1 a d rest in
        let (r, c3, settled, rest3) = bind_inv _ _ c2 a d rest2 in
        let (u', c4, status, rest4) = then_inv _ _ c3 a d rest3 in
        let (text, c5, read, rest5) = bind_inv _ _ c4 a d rest4 in
        let (fine, e34) = test_inv _ _ c3 u' c4 status in
        let (body, e45) = from_result_inv _ _ c4 text c5 read in
        let (parsed, e5d) = from_result_inv _ _ c5 a d rest5 in
        let answered =
          IsAnswered-reauthorize _ path first c2 r c3 (IsAnswered-do_request path c1 first c2 asked)
            settled in
        let (low, high) = status_inv r.status fine in
        (r, text, subst (λ x. IsAnswered x r) (e34 ∙ e45 ∙ e5d) answered, low, high, body, parsed)
