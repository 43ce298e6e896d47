-- ===== src/Base/Loop.antt =====
-- The loop `for _, entry := range backends { … }` of the list operations: a round skips its entry,
-- appends to the items, logs warnings, or returns an error.
pub mod Selection
use mathlib.Core.Path.{◌≡◌, refl, subst}
use mathlib.Core.Bool.{Bool, true, false}
use mathlib.Core.Logic.{◌⊎◌, inl, inr}
use mathlib.Core.List.{List, [], ◌∷◌, ◌++◌}
use native.Mathlib.Omega.{arith}
use homelab_api.Base.Lists.{In, In-append_cases}
use homelab_api.Base.Tests.{if◌then◌else◌}
use homelab_api.Base.Strings.{Text}
use homelab_api.Base.Result.{Error, Result, ok, err, Result-cases}

-- A call of logger.Warn: the message, the backend or other subject, and the error.
pub record Warning : Type 0 where
  pub message : Text
  pub subject : Text
  pub error : Error

pub data Round (A : Type 0) : Type 0 where
  next : List A → List Warning → Round A
  stop : Error → Round A

-- The result of an operation, and what it logged.
pub record Logged (A : Type 0) : Type 0 where
  pub result : Result A
  pub log : List Warning

module _ {A : Type 0} where
  -- `continue`
  abbrev pub skip : Round A
  skip = next [] []

  abbrev pub prepend : List A → List Warning → Logged (List A) → Logged (List A)
  prepend items log rest = record {
    result = elim rest.result [ ok more ↦ ok (items ++ more) | err e ↦ err e ];
    log = log ++ rest.log;
  }

  -- One round in front of the rest of the loop.
  abbrev pub step : Round A → Logged (List A) → Logged (List A)
  step (next items log) rest = prepend items log rest
  step (stop e) rest = record { result = err e; log = [] }

  abbrev pub Appended : Round A → A → Type 0
  Appended r a = (new : List A) × (log : List Warning) × (r ≡ next new log) × In a new

  step_inv :
      (r : Round A) (rest : Logged (List A)) (items : List A) (a : A)
      → (step r rest).result ≡ ok items
      → In a items
      → Appended r a ⊎ ((more : List A) × (rest.result ≡ ok more) × In a more)
  step_inv (stop e) rest items a h i = cc
  step_inv (next new log) rest items a h i = elim (Result-cases rest.result) [
    | inr (e, bad) ↦ cc (rw bad at h)
    | inl (more, good) ↦
        let e : items ≡ new ++ more = ground (arith, rw good at h) in
        elim (In-append_cases a new more (subst (In a) e i)) [
          | inl l ↦ inl (new, log, refl, l)
          | inr l ↦ inr (more, good, l)
        ]
  ]

  module _ {E : Type 0} (body : E → Round A) where
    unfoldable pub for_each : List E → Logged (List A)
    for_each [] = record { result = ok []; log = [] }
    for_each (entry ∷ entries) = let rest = for_each entries in step (body entry) rest

    -- An item of the result was appended in the round of some entry.
    pub for_each_inv :
        (entries : List E) (items : List A) (a : A)
        → (for_each entries).result ≡ ok items
        → In a items
        → (entry : E) × In entry entries × Appended (body entry) a
    unfolding for_each
    for_each_inv [] items a h i = let e : items ≡ [] = ground arith in absurd (subst (In a) e i)
    for_each_inv (entry ∷ entries) items a h i =
        elim (step_inv (body entry) (for_each entries) items a h i) [
          | inl new ↦ (entry, inl refl, new)
          | inr (more, good, l) ↦
              let (found, j, new) = for_each_inv entries more a good l in (found, inr j, new)
        ]

-- `if err != nil { logger.Warn(…); continue }`
abbrev pub or_warn : {X A : Type 0} → Text → Text → Result X → (X → Round A) → Round A
or_warn message subject (ok x) body = body x
or_warn message subject (err e) body =
    next [] (record { message = message; subject = subject; error = e } ∷ [])

module _ {A : Type 0} (a : A) where
  pub Appended-next :
      {items : List A} {log : List Warning} → Appended (next items log) a → In a items
  Appended-next (new, log', e, i) = subst (In a) (ground arith) i

  -- `if skipped { continue }`
  pub Appended-guard :
      (skipped : Bool) (r : Round A)
      → Appended (if skipped then skip else r) a
      → (skipped ≡ false) × Appended r a
  Appended-guard true r h = absurd (Appended-next h)
  Appended-guard false r h = (refl, h)

  pub Appended-or_warn :
      {X : Type 0} (message subject : Text) (r : Result X) (body : X → Round A)
      → Appended (or_warn message subject r body) a
      → (x : X) × (r ≡ ok x) × Appended (body x) a
  Appended-or_warn message subject (ok x) body h = (x, refl, h)
  Appended-or_warn message subject (err e) body h = absurd (Appended-next h)
