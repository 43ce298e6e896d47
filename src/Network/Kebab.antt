-- ===== src/Network/Kebab.antt =====
-- toKebab and normalizeMac of internal/network/service.go.
pub mod Laws
mod Tests
use homelab_api.Base.{Text, ℕ, Bool, false, not, ◌&&◌, ◌||◌, if◌then◌else◌, [], ◌∷◌, leb, eqb}
use homelab_api.Base.Strings.Lower.{Unicode, to_lower}

-- The class [a-z0-9].
is_alnum : ℕ → Bool
is_alnum b = (leb b'a' b && leb b b'z') || (leb b'0' b && leb b b'9')

-- nonAlphanumRe.ReplaceAllString(lower, "-"): each longest run of other bytes becomes one hyphen.
-- All bytes of a character beyond ASCII are such bytes. `in_run`: the run has its hyphen already.
replace_runs : Bool → Text → Text
unfolding is_alnum
replace_runs in_run [] = []
replace_runs in_run (b ∷ s) =
    let rest = replace_runs (not (is_alnum b)) s in
    if is_alnum b then b ∷ rest else if in_run then rest else b'-' ∷ rest

trim_left : Text → Text
trim_left [] = []
trim_left (b ∷ s) = let rest = trim_left s in if eqb b b'-' then rest else b ∷ s

drop_hyphen : ℕ → Text → Text
drop_hyphen b [] = if eqb b b'-' then [] else b ∷ []
drop_hyphen b (c ∷ s) = b ∷ c ∷ s

trim_right : Text → Text
unfolding drop_hyphen
trim_right [] = []
trim_right (b ∷ s) = drop_hyphen b (trim_right s)

-- strings.Trim(kebab, "-")
trim_hyphens : Text → Text
unfolding trim_left trim_right
trim_hyphens s = trim_right (trim_left s)

unfoldable pub to_kebab : ⦃u : Unicode⦄ → Text → Text
unfolding replace_runs trim_hyphens
to_kebab name = trim_hyphens (replace_runs false (to_lower name))

unfoldable pub normalize_mac : ⦃u : Unicode⦄ → Text → Text
normalize_mac mac = to_lower mac
