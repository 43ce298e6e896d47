-- ===== src/Network/Kebab/Laws.antt =====
-- What toKebab returns: words of [a-z0-9] joined by single hyphens.
use homelab_api.Base.{
  Text, ℕ, ◌≤◌, Bool, true, false, [], ◌∷◌, ◌≡◌, ◌≢◌, ◌⊎◌, inl, inr, refl, arith, Bool-cases,
}
use homelab_api.Base.Strings.Lower.{Unicode, to_lower}
use homelab_api.Network.Kebab.{
  is_alnum, replace_runs, trim_left, trim_right, drop_hyphen, trim_hyphens, to_kebab,
}

abbrev pub IsAlnum : ℕ → Type 0
IsAlnum b = ((b'a' ≤ b) × (b ≤ b'z')) ⊎ ((b'0' ≤ b) × (b ≤ b'9'))

is_alnum-IsAlnum : (b : ℕ) → is_alnum b ≡ true → IsAlnum b
unfolding is_alnum
is_alnum-IsAlnum b h = ground arith

-- What may follow a letter or digit of a slug: the end, another one, or a hyphen and another one.
abbrev pub IsRest : Text → Type 0
IsRest [] = Unit
IsRest (b ∷ []) = IsAlnum b
IsRest (b ∷ c ∷ s) = (IsAlnum b × IsRest (c ∷ s)) ⊎ ((b ≡ b'-') × IsAlnum c × IsRest s)

-- Words of letters and digits, joined by single hyphens; or nothing.
abbrev pub IsSlug : Text → Type 0
IsSlug [] = Unit
IsSlug (b ∷ s) = IsAlnum b × IsRest s

-- No two hyphens in a row, and none at the head if `after` says that one went before.
abbrev Runs : Bool → Text → Type 0
Runs after [] = Unit
Runs after (b ∷ s) = (IsAlnum b × Runs false s) ⊎ ((b ≡ b'-') × (after ≡ false) × Runs true s)

replace_runs-Runs : (in_run : Bool) (s : Text) → Runs in_run (replace_runs in_run s)
unfolding replace_runs
replace_runs-Runs in_run [] = tt
replace_runs-Runs true (b ∷ s) = elim (Bool-cases (is_alnum b)) [
  | inl y ↦ rw y (inl (is_alnum-IsAlnum b y, replace_runs-Runs false s))
  | inr n ↦ rw n (replace_runs-Runs true s)
]
replace_runs-Runs false (b ∷ s) = elim (Bool-cases (is_alnum b)) [
  | inl y ↦ rw y (inl (is_alnum-IsAlnum b y, replace_runs-Runs false s))
  | inr n ↦ rw n (inr (refl, refl, replace_runs-Runs true s))
]

not_hyphen : (b : ℕ) → IsAlnum b → b ≢ b'-'
not_hyphen b h e = ground arith

drop_hyphen-IsAlnum : (b : ℕ) (s : Text) → IsAlnum b → drop_hyphen b s ≡ b ∷ s
unfolding drop_hyphen
drop_hyphen-IsAlnum b [] h = ground (arith, not_hyphen b h)
drop_hyphen-IsAlnum b (c ∷ s) h = refl

IsRest-cons : (b : ℕ) (s : Text) → IsAlnum b → IsRest s → IsRest (b ∷ s)
IsRest-cons b [] h r = h
IsRest-cons b (c ∷ s) h r = inl (h, r)

trim_right-IsRest : (s : Text) → Runs false s → IsRest (trim_right s)
unfolding trim_right
trim_right-IsRest [] r = tt
trim_right-IsRest (b ∷ s) (inl (h, r)) =
    rw (drop_hyphen-IsAlnum b (trim_right s) h)
      (IsRest-cons b (trim_right s) h (trim_right-IsRest s r))
trim_right-IsRest (b ∷ []) (inr (e, f, r)) = rw e tt
trim_right-IsRest (b ∷ c ∷ s) (inr (e, f, inl (h, r))) =
    rw (drop_hyphen-IsAlnum c (trim_right s) h) (inr (e, h, trim_right-IsRest s r))
trim_right-IsRest (b ∷ c ∷ s) (inr (e, f, inr (e', f', r))) = cc

trim_left-IsAlnum : (b : ℕ) (s : Text) → IsAlnum b → trim_left (b ∷ s) ≡ b ∷ s
unfolding trim_left
trim_left-IsAlnum b s h = ground arith

trim_left-hyphen : (s : Text) → trim_left (b'-' ∷ s) ≡ trim_left s
unfolding trim_left
trim_left-hyphen s = refl

trim_left-Runs : (s : Text) → Runs false s → Runs true (trim_left s)
trim_left-Runs [] r = unfold trim_left in tt
trim_left-Runs (b ∷ s) (inl (h, r)) = rw (trim_left-IsAlnum b s h) (inl (h, r))
trim_left-Runs (b ∷ []) (inr (e, f, r)) = rw (e, trim_left-hyphen) (unfold trim_left in tt)
trim_left-Runs (b ∷ c ∷ s) (inr (e, f, inl (h, r))) =
    rw (e, trim_left-hyphen, trim_left-IsAlnum c s h) (inl (h, r))
trim_left-Runs (b ∷ c ∷ s) (inr (e, f, inr (e', f', r))) = cc

trim_right-IsSlug : (s : Text) → Runs true s → IsSlug (trim_right s)
unfolding trim_right
trim_right-IsSlug [] r = tt
trim_right-IsSlug (b ∷ s) (inl (h, r)) =
    rw (drop_hyphen-IsAlnum b (trim_right s) h) (h, trim_right-IsRest s r)
trim_right-IsSlug (b ∷ s) (inr (e, f, r)) = cc

-- Whatever the name, toKebab returns words of [a-z0-9] joined by single hyphens, with no hyphen at
-- either end, or the empty text.
pub to_kebab-IsSlug : ⦃u : Unicode⦄ (name : Text) → IsSlug (to_kebab name)
unfolding to_kebab trim_hyphens
to_kebab-IsSlug name =
    trim_right-IsSlug (trim_left (replace_runs false (to_lower name))) (
      trim_left-Runs (replace_runs false (to_lower name)) (replace_runs-Runs false (to_lower name)))
