-- ===== src/Base/Strings/Cut.antt =====
-- Cutting a text at the first separator.
use mathlib.Core.Option
use homelab_api.Base.Tests.{Bool-cases, eqb, eqb_iff}
use homelab_api.Base.Lists.{All}
use homelab_api.Base.Strings.{Text, cut, split_n, split, extend}
use Prim.Native.Nat.{ℕ}
use mathlib.Core.Path.{◌≡◌, refl, ap}
use mathlib.Core.Logic.{◌≢◌, inl, inr}
use mathlib.Core.Option.{Option, none, some}
use mathlib.Core.List.{[], ◌∷◌, ◌++◌}
use native.Mathlib.Omega.{arith}

-- No byte of the text is the separator.
abbrev pub Lacks : ℕ → Text → Type 0
Lacks sep = All (λ c. c ≢ sep)

pub cut-append : (sep : ℕ) (a b : Text) → Lacks sep a → cut sep (a ++ sep ∷ b) ≡ some (a, b)
unfolding cut
cut-append sep [] b h = ground arith
cut-append sep (c ∷ a) b (n, h) = ground (arith, cut-append sep a b h)

pub cut_parts :
    (sep : ℕ) (s a b : Text) → cut sep s ≡ some (a, b) → (s ≡ a ++ sep ∷ b) × Lacks sep a
unfolding cut
cut_parts sep [] a b h = cc
cut_parts sep (c ∷ s) a b h = elim (Bool-cases (eqb c sep)) [
  | inl y ↦
      let e : ◌≡◌ {A = Option (Text × Text)} (some ([], s)) (some (a, b)) = rw y at h in
      let ea : a ≡ [] = ground arith in
      let eb : b ≡ s = ground arith in
      (rw (ea, eb) (ap (λ (x : ℕ). x ∷ s) ((eqb_iff c sep).0 y)), rw ea tt)
  | inr n ↦
      let (p, e, q) = (Option.map-eq-some_iff _ _).0 (rw n at h) in
      let (i, l) = cut_parts sep s p.0 p.1 e in
      let ea : a ≡ c ∷ p.0 = ground arith in
      let eb : b ≡ p.1 = ground arith in
      (rw (ea, eb) (ap (λ (x : Text). c ∷ x) i), rw ea (ground arith, l))
]

pub split_two_found :
    (sep : ℕ) (s a b : Text) → cut sep s ≡ some (a, b) → split_n 2 sep s ≡ a ∷ b ∷ []
unfolding split_n
split_two_found sep s a b h = rw (h, split_n) refl

pub split_two_whole : (sep : ℕ) (s : Text) → cut sep s ≡ none → split_n 2 sep s ≡ s ∷ []
unfolding split_n
split_two_whole sep s h = rw (h, split_n) refl

-- The first part ends at the first separator.
pub split-append : (sep : ℕ) (a s : Text) → Lacks sep a → split sep (a ++ sep ∷ s) ≡ a ∷ split sep s
unfolding split extend
split-append sep [] s h = ground arith
split-append sep (c ∷ a) s (n, h) = ground (arith, split-append sep a s h)

pub split-whole : (sep : ℕ) (a : Text) → Lacks sep a → split sep a ≡ a ∷ []
unfolding split extend
split-whole sep [] h = refl
split-whole sep (c ∷ a) (n, h) = ground (arith, split-whole sep a h)
