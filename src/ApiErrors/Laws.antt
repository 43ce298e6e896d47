-- ===== src/ApiErrors/Laws.antt =====
-- ParseCompositeID accepts exactly the texts "device.suffix".
use homelab_api.Base.{
  Text, ==_iff, ==-false, ◌≡◌, ◌≢◌, ◌↔◌, refl, ap, ◌∙◌, subst, inl, inr, [], ◌∷◌, ◌++◌, arith,
  Option-cases, some,
}
use homelab_api.Base.Strings.{cut}
use homelab_api.Base.Strings.Cut.{Lacks, cut-append, cut_parts, split_two_found, split_two_whole}
use homelab_api.Base.Result.{ok}
use homelab_api.ApiErrors.{parse_composite_id, invalid_id, checked_parts}

-- `id` is "device.suffix", cut at its first dot, with nothing empty.
pub record IsCompositeId (id device suffix : Text) : Type 0 where
  pub spelled : id ≡ device ++ b'.' ∷ suffix
  pub no_dot : Lacks b'.' device
  pub device_given : device ≢ []
  pub suffix_given : suffix ≢ []

module _ (what format : Text) where
  parse_composite_id_complete :
      (id device suffix : Text)
      → IsCompositeId id device suffix
      → parse_composite_id id what format ≡ ok (device, suffix)
  unfolding parse_composite_id
  parse_composite_id_complete id device suffix c =
      let e = ap (cut b'.') c.spelled ∙ cut-append b'.' device suffix c.no_dot in
      rw (split_two_found b'.' id device suffix e)
        (rw (==-false device [] c.device_given, ==-false suffix [] c.suffix_given) refl)

  checked-IsCompositeId :
      (id a b device suffix : Text)
      → cut b'.' id ≡ some (a, b)
      → checked_parts (a ∷ b ∷ []) (invalid_id id what format) ≡ ok (device, suffix)
      → IsCompositeId id device suffix
  unfolding checked_parts invalid_id
  checked-IsCompositeId id a b device suffix e h =
      let (spelled, lacks) = cut_parts b'.' id a b e in
      let ea : a ≡ device = ground arith in
      let eb : b ≡ suffix = ground arith in
      record {
        spelled = rw (← ea, ← eb) spelled;
        no_dot = subst (Lacks b'.') ea lacks;
        device_given = λ z. ground (arith, ==_iff a []);
        suffix_given = λ z. ground (arith, ==_iff b []);
      }

  parse_composite_id_sound :
      (id device suffix : Text)
      → parse_composite_id id what format ≡ ok (device, suffix)
      → IsCompositeId id device suffix
  unfolding parse_composite_id
  parse_composite_id_sound id device suffix h = elim (Option-cases (cut b'.' id)) [
    | inl e ↦ cc (rw (split_two_whole b'.' id e) at h)
    | inr (p, e) ↦
        checked-IsCompositeId id p.0 p.1 device suffix e
          (rw (split_two_found b'.' id p.0 p.1 e) at h)
  ]

  -- ParseCompositeID returns a device and a suffix exactly when the ID is the device, a dot and the
  -- suffix, where the device holds no dot and neither is empty.
  pub parse_composite_id_iff :
      (id device suffix : Text)
      → (parse_composite_id id what format ≡ ok (device, suffix)) ↔ IsCompositeId id device suffix
  parse_composite_id_iff id device suffix =
      (parse_composite_id_sound id device suffix, parse_composite_id_complete id device suffix)
