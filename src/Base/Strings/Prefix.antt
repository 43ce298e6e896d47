-- ===== src/Base/Strings/Prefix.antt =====
-- Prefixes of a given length, and texts behind a common prefix.
use Prim.Native.Nat.{ℕ, zero, suc, ◌≤◌}
use mathlib.Core.Path.{◌≡◌, refl, ap, sym, ◌∙◌}
use mathlib.Core.Bool.{true}
use mathlib.Core.List.{[], ◌∷◌, ◌++◌, append_assoc}
use native.Mathlib.Omega.{arith}
use homelab_api.Base.Lists.{length, take, drop}
use homelab_api.Base.Strings.{Text, has_prefix, has_prefix-append, prefix_split, drop-append}

pub take-drop : (n : ℕ) (s : Text) → take n s ++ drop n s ≡ s
take-drop zero s = refl
take-drop (suc n) [] = refl
take-drop (suc n) (c ∷ s) = ap (λ (t : Text). c ∷ t) (take-drop n s)

pub take_all : (n : ℕ) (s : Text) → length s ≤ n → take n s ≡ s
take_all zero [] h = refl
take_all zero (c ∷ s) h = absurd (omega arith)
take_all (suc n) [] h = refl
take_all (suc n) (c ∷ s) h = ap (λ (t : Text). c ∷ t) (take_all n s (omega arith))

-- A prefix taken off a longer text is also the one of every text that it begins.
pub take-append_take : (n : ℕ) (s r : Text) → n ≤ length s → take n (take n s ++ r) ≡ take n s
take-append_take zero s r h = refl
take-append_take (suc n) [] r h = absurd (omega arith)
take-append_take (suc n) (c ∷ s) r h =
    ap (λ (t : Text). c ∷ t) (take-append_take n s r (omega arith))

pub has_prefix-take : (p : Text) (n : ℕ) (s : Text) → has_prefix (p ++ s) (p ++ take n s) ≡ true
has_prefix-take p n s =
    ap (λ (t : Text). has_prefix t (p ++ take n s))
      (sym (append_assoc p (take n s) (drop n s) ∙ ap (λ (t : Text). p ++ t) (take-drop n s)))
    ∙ has_prefix-append (p ++ take n s) (drop n s)

-- What stands behind a common prefix begins with the rest of the longer one.
pub prefix-cancel :
    (p t s : Text) → has_prefix (p ++ s) (p ++ t) ≡ true → s ≡ t ++ drop (length (p ++ t)) (p ++ s)
prefix-cancel p t s h =
    sym (drop-append p s)
    ∙ ap (drop (length p))
        (prefix_split (p ++ s) (p ++ t) h ∙ append_assoc p t (drop (length (p ++ t)) (p ++ s)))
    ∙ drop-append p (t ++ drop (length (p ++ t)) (p ++ s))
