-- ===== src/ApiErrors/Tests.antt =====
-- Composite IDs with and without a suffix.
use homelab_api.Base.{lit, ◌≡◌, refl, ◌↔◌, [], ◌∷◌}
use homelab_api.Base.Strings.{split_n}
use homelab_api.Base.Result.{plain, quoted, Error, ok, err, wrap, err_not_found}
use homelab_api.ApiErrors.{parse_composite_id}
use homelab_api.ApiErrors.Laws.{IsCompositeId, parse_composite_id_iff}

parse_composite_id_iff_example :
    (parse_composite_id (lit "nas.web.1") (lit "ID") (lit "device.name")
      ≡ ok (lit "nas", lit "web.1"))
    ↔ IsCompositeId (lit "nas.web.1") (lit "nas") (lit "web.1")
parse_composite_id_iff_example =
    parse_composite_id_iff (lit "ID") (lit "device.name") (lit "nas.web.1") (lit "nas")
      (lit "web.1")

abbrev no_suffix : Error
no_suffix =
    wrap
      (plain (lit "invalid ")
        ∷ plain (lit "ID")
        ∷ plain (lit " ")
        ∷ quoted (lit "nas")
        ∷ plain (lit ": expected format ")
        ∷ plain (lit "device.name")
        ∷ [])
      err_not_found

no_suffix_parsed : parse_composite_id (lit "nas") (lit "ID") (lit "device.name") ≡ err no_suffix
unfolding parse_composite_id lit wrap err_not_found split_n
no_suffix_parsed = refl
