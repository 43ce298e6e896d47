-- ===== src/Network/Kebab/Tests.antt =====
-- A name with blanks.
use homelab_api.Base.{lit}
use homelab_api.Base.Strings.Lower.{Unicode}
use homelab_api.Network.Kebab.{to_kebab}
use homelab_api.Network.Kebab.Laws.{IsSlug, to_kebab-IsSlug}

-- Nothing outside ASCII is lowered.
abbrev ascii_only : Unicode
ascii_only = record { lower = λ s. s }

to_kebab-IsSlug_example : IsSlug (to_kebab ⦃u = ascii_only⦄ (lit "Living Room (TV)"))
to_kebab-IsSlug_example = to_kebab-IsSlug ⦃u = ascii_only⦄ (lit "Living Room (TV)")
