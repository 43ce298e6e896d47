-- ===== src/Adapters/Listing.antt =====
-- What the list operations of every domain do with one backend before they read its answer: the
-- device filter, the availability check (internal/adapters/adapters.go), and the treatment of an
-- error, which the filter decides.
use homelab_api.Base.{Text, ◌==◌, Bool, false, not, Option, some, none, List, ◌≡◌, refl}
use homelab_api.Base.Result.{Part, Result, ok, err, wrap}
use homelab_api.Base.Loop.{Round, stop, or_warn, Appended, Appended-or_warn}

-- `s.monitor != nil && !s.monitor.Available(name)`
abbrev pub is_unavailable : Option (Text → Bool) → Text → Bool
is_unavailable none name = false
is_unavailable (some available) name = not (available name)

-- `device != nil && *device != name`
abbrev pub is_filtered_out : Option Text → Text → Bool
is_filtered_out none name = false
is_filtered_out (some device) name = not (device == name)

module _ {X A : Type 0} where
  -- `if err != nil { if device != nil { return …, fmt.Errorf(…) }; logger.Warn(…); continue }`
  abbrev pub or_fail : Option Text → List Part → Text → Text → Result X → (X → Round A) → Round A
  or_fail none prefix message subject r body = or_warn message subject r body
  or_fail (some device) prefix message subject (ok x) body = body x
  or_fail (some device) prefix message subject (err e) body = stop (wrap prefix e)

  pub Appended-or_fail :
      (a : A) (device : Option Text) (prefix : List Part) (message subject : Text) (r : Result X)
      (body : X → Round A)
      → Appended (or_fail device prefix message subject r body) a
      → (x : X) × (r ≡ ok x) × Appended (body x) a
  Appended-or_fail a none prefix message subject r body h =
      Appended-or_warn a message subject r body h
  Appended-or_fail a (some device) prefix message subject (ok x) body h = (x, refl, h)
  Appended-or_fail a (some device) prefix message subject (err e) body (new, log, bad, i) = cc
