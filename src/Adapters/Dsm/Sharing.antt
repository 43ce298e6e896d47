-- ===== src/Adapters/Dsm/Sharing.antt =====
-- internal/adapters/synology.go: several goroutines in Call on one client. Each reads the SID under
-- the read lock, and logs in or invalidates under the write lock; between two such sections another
-- goroutine may run. A login is one step, since it holds the write lock throughout.
mod Example
use homelab_api.Base.{
  ℕ, Text, Bool, true, false, if◌then◌else◌, Bool-cases, ==_sound, ◌==◌, List, [], ◌∷◌, In, ◌≡◌,
  ◌≢◌, ◌⊎◌, inl, inr, refl, sym, subst, ◌∙◌, eqb,
}
use homelab_api.Adapters.Dsm.Session.{invalidated}

-- Where a goroutine stands in Call, with the SID that it holds; `first` until it has invalidated one.
pub data Pc : Type 0 where
  ensuring : (first : Bool) → Pc  -- before the read lock of ensureSession
  logging_in : (first : Bool) → Pc  -- before the write lock of ensureSession
  requesting : (first : Bool) → (sid : Text) → Pc  -- before the answer to callWithSID
  invalidating : (sid : Text) → Pc  -- before the write lock of invalidateSession
  finished : Pc

-- The SID of the client. `issued` are the SIDs that logins have returned, and `rejected` those that
-- the DSM has answered to with an expired session: both are history, which no code reads.
pub record Shared : Type 0 where
  pub sid : Text
  pub issued : List Text
  pub rejected : List Text

-- A step of one goroutine.
pub data Move (s : Shared) : Pc → Shared → Pc → Type 0 where
  cached : {first : Bool} → s.sid ≢ [] → Move s (ensuring first) s (requesting first s.sid)
  missing : {first : Bool} → s.sid ≡ [] → Move s (ensuring first) s (logging_in first)
  seen : {first : Bool} → s.sid ≢ [] → Move s (logging_in first) s (requesting first s.sid)
  login :
      {first : Bool} (fresh : Text)
      → s.sid ≡ []
      → Move s
          (logging_in first)
          (record s { sid = fresh; issued = fresh ∷ s.issued })
          (requesting first fresh)
  login_failed : {first : Bool} → s.sid ≡ [] → Move s (logging_in first) s finished
  answered : {first : Bool} {sid : Text} → Move s (requesting first sid) s finished
  expired :
      {sid : Text}
      → Move s (requesting true sid) (record s { rejected = sid ∷ s.rejected }) (invalidating sid)
  expired_again :
      {sid : Text}
      → Move s (requesting false sid) (record s { rejected = sid ∷ s.rejected }) finished
  invalidate :
      {sid : Text}
      → Move s (invalidating sid) (record s { sid = invalidated sid s.sid }) (ensuring false)
  again : Move s finished s (ensuring true)

pub record System : Type 0 where
  pub shared : Shared
  pub pc : ℕ → Pc

abbrev pub update : (ℕ → Pc) → ℕ → Pc → ℕ → Pc
update f i p j = if eqb i j then p else f j

pub data Step (s : System) : System → Type 0 where
  pick :
      (i : ℕ) {m : Shared} {p : Pc}
      → Move s.shared (s.pc i) m p
      → Step s (record { shared = m; pc = update s.pc i p })

abbrev pub init : System
init = record { shared = record { sid = []; issued = []; rejected = [] }; pc = λ _. ensuring true }

pub data Reach : System → Type 0 where
  start : Reach init
  later : {s t : System} → Reach s → Step s t → Reach t

-- A goroutine that is about to invalidate a SID has seen it rejected.
abbrev Justified : List Text → Pc → Type 0
Justified rejected (invalidating sid) = In sid rejected
Justified rejected (ensuring first) = Unit
Justified rejected (logging_in first) = Unit
Justified rejected (requesting first sid) = Unit
Justified rejected finished = Unit

-- Every SID ever issued, unless it is empty, is the cached one or was rejected.
abbrev pub IsKept : Shared → Type 0
IsKept s = (sid : Text) → In sid s.issued → sid ≢ [] → (sid ≡ s.sid) ⊎ In sid s.rejected

record Inv (s : System) : Type 0 where
  kept : IsKept s.shared
  justified : (i : ℕ) → Justified s.shared.rejected (s.pc i)

Justified-more : (sid : Text) (l : List Text) (p : Pc) → Justified l p → Justified (sid ∷ l) p
Justified-more sid l (invalidating other) h = inr h
Justified-more sid l (ensuring first) h = tt
Justified-more sid l (logging_in first) h = tt
Justified-more sid l (requesting first other) h = tt
Justified-more sid l finished h = tt

-- The rejected SIDs only grow, so what other goroutines hold stays justified.
Move-others :
    {s t : Shared} {p q : Pc} (other : Pc)
    → Move s p t q
    → Justified s.rejected other
    → Justified t.rejected other
Move-others other (cached h) j = j
Move-others other (missing h) j = j
Move-others other (seen h) j = j
Move-others other (login fresh h) j = j
Move-others other (login_failed h) j = j
Move-others other answered j = j
Move-others {s} other (expired {sid = sid}) j = Justified-more sid s.rejected other j
Move-others {s} other (expired_again {sid = sid}) j = Justified-more sid s.rejected other j
Move-others other invalidate j = j
Move-others other again j = j

Move-self : {s t : Shared} {p q : Pc} → Move s p t q → Justified t.rejected q
Move-self (cached h) = tt
Move-self (missing h) = tt
Move-self (seen h) = tt
Move-self (login fresh h) = tt
Move-self (login_failed h) = tt
Move-self answered = tt
Move-self expired = inl refl
Move-self expired_again = tt
Move-self invalidate = tt
Move-self again = tt

invalidate-IsKept :
    (s : Shared) (used : Text)
    → In used s.rejected
    → IsKept s
    → IsKept (record s { sid = invalidated used s.sid })
unfolding invalidated
invalidate-IsKept s used r kept sid i filled = elim (kept sid i filled) [
  | inr rejected ↦ inr rejected
  | inl e ↦ elim (Bool-cases (s.sid == used)) [
    | inr n ↦ inl (rw n e)
    | inl y ↦ inr (subst (λ x. In x s.rejected) (sym (e ∙ ==_sound s.sid used y)) r)
  ]
]

rejected_more :
    {A : Type 0} {sid : Text} (new : Text) (l : List Text) → A ⊎ In sid l → A ⊎ In sid (new ∷ l)
rejected_more new l (inl e) = inl e
rejected_more new l (inr i) = inr (inr i)

Move-IsKept :
    {s t : Shared} {p q : Pc} → Move s p t q → Justified s.rejected p → IsKept s → IsKept t
Move-IsKept (cached h) j kept = kept
Move-IsKept (missing h) j kept = kept
Move-IsKept (seen h) j kept = kept
Move-IsKept {s} (login fresh h) j kept = λ sid i filled. elim i [
  | inl e ↦ inl (sym e)
  | inr old ↦ elim (kept sid old filled) [
    | inr rejected ↦ inr rejected
    | inl e ↦ absurd (filled (e ∙ h))
  ]
]
Move-IsKept (login_failed h) j kept = kept
Move-IsKept answered j kept = kept
Move-IsKept expired j kept = λ sid i filled. rejected_more _ _ (kept sid i filled)
Move-IsKept expired_again j kept = λ sid i filled. rejected_more _ _ (kept sid i filled)
Move-IsKept {s} (invalidate {sid = used}) j kept = invalidate-IsKept s used j kept
Move-IsKept again j kept = kept

Step-Inv : {s t : System} → Step s t → Inv s → Inv t
Step-Inv {s} (pick i {m} {p} move) inv = record {
  kept = Move-IsKept move (inv.justified i) inv.kept;
  justified = λ j. held j (eqb i j);
}
  where
    held : (j : ℕ) (mine : Bool) → Justified m.rejected (if mine then p else s.pc j)
    held j true = Move-self move
    held j false = Move-others (s.pc j) move (inv.justified j)

-- However many goroutines share the client, and however they interleave, a session that the DSM
-- has issued and not yet rejected is the cached one: no goroutine clears or replaces it.
pub Reach-IsKept : {s : System} → Reach s → IsKept s.shared
Reach-IsKept r = (invariant r).kept
  where
    invariant : {s : System} → Reach s → Inv s
    invariant start = record { kept = λ sid i. absurd i; justified = λ i. tt }
    invariant (later r step) = Step-Inv step (invariant r)
