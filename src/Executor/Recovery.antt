-- ===== src/Executor/Recovery.antt =====
-- Recovery by `rollback_applied` (src/executor.rs).
use cc_switch_core.Base.{
  All-reverse, All-of_reverse, nat_eq, list_eq, option_eq, string_eq, eq_or_ne, ℕ, ◌≡◌, refl, sym,
  ap, subst, ◌∙◌, ◌≢◌, inl, inr, Option, none, some, List, [], ◌∷◌, ◌++◌, reverse, append-nil,
  append_assoc, Eq, All,
}
use cc_switch_core.Executor.Rollback.{restore, push, rollback_one, rollback_loop, rollback_applied}
use cc_switch_core.Executor.Restore.{Restores, restore-Restores}
use cc_switch_core.Executor.Types.{
  OperationRollbackFailure, blocked, AppliedWrite, RollbackBehavior, best_effort,
  dependency_ordered,
}
use cc_switch_core.Executor.Host.{OperationHost, IsHost}
use cc_switch_core.Text.{Bytes}

-- No applied write has this resource.
abbrev pub Apart : {Target R : Type 0} → R → List (AppliedWrite R Target) → Type 0
Apart q = All λ a. a.resource ≢ q

append-eq-nil {ℓ} : {A : Type ℓ} (xs ys : List A) → xs ++ ys ≡ [] → xs ≡ []
append-eq-nil [] ys h = refl
append-eq-nil (x ∷ xs) ys h = cc

module _ {Target R E S : Type 0} (host : OperationHost Target R E S) (maximum : ℕ) where
  abbrev Failures : Type 0
  Failures = List (OperationRollbackFailure E Target)

  push-grows :
      (fs : Failures) (f : Option (OperationRollbackFailure E Target))
      → (more : Failures) × (push host maximum fs f ≡ fs ++ more)
  push-grows fs none = ([], sym (append-nil fs))
  push-grows fs (some f) = (f ∷ [], refl)

  -- Failures are only ever added, at the end.
  rollback_one-grows :
      (behavior : RollbackBehavior) (a : AppliedWrite R Target) (fs : Failures) (b : Option Target)
      (s : S)
      → (more : Failures) × ((rollback_one host maximum behavior a fs b s).0 ≡ fs ++ more)
  unfolding rollback_one
  rollback_one-grows best_effort a fs b s = push-grows fs (restore host maximum a s).0
  rollback_one-grows dependency_ordered a fs (some d) s = (blocked a.target d ∷ [], refl)
  rollback_one-grows dependency_ordered a fs none s = push-grows fs (restore host maximum a s).0

  rollback_loop-grows :
      (behavior : RollbackBehavior) (l : List (AppliedWrite R Target)) (fs : Failures)
      (b : Option Target) (s : S)
      → (more : Failures) × ((rollback_loop host maximum behavior l fs b s).0 ≡ fs ++ more)
  unfolding rollback_loop
  rollback_loop-grows behavior [] fs b s = ([], sym (append-nil fs))
  rollback_loop-grows behavior (a ∷ l) fs b s =
      let r = rollback_one host maximum behavior a fs b s in
      let (now, e) = rollback_one-grows behavior a fs b s in
      let (later, e') = rollback_loop-grows behavior l r.0 r.1 r.2 in
      (now ++ later, e' ∙ (ap (λ l. l ++ later) e ∙ append_assoc fs now later))

  push-eq-nil :
      (fs : Failures) (f : Option (OperationRollbackFailure E Target))
      → push host maximum fs f ≡ []
      → f ≡ none
  push-eq-nil fs none h = refl
  push-eq-nil [] (some f) h = cc
  push-eq-nil (g ∷ fs) (some f) h = cc

module _ {Target R E S : Type 0} ⦃same_resource : Eq R⦄ (host : OperationHost Target R E S)
    (maximum : ℕ) {docs : S → R → Option Bytes} {locate : Target → R}
    (law : IsHost host docs locate) (before : R → Option Bytes) where
  -- The writes still to be restored account for every document that differs from `before`.
  pub record Recoverable (l : List (AppliedWrite R Target)) (s : S) : Type 0 where
    pub originals : All (λ a. before a.resource ≡ a.original) l
    pub others : (q : R) → Apart q l → docs s q ≡ before q

  restored-Recoverable :
      (a : AppliedWrite R Target) (l : List (AppliedWrite R Target)) (s : S)
      (r : Option (OperationRollbackFailure E Target) × S)
      → Restores host maximum law a s r
      → r.0 ≡ none
      → Recoverable (a ∷ l) s
      → Recoverable l r.1
  restored-Recoverable a l s r step clean v = record {
    originals = v.originals.1;
    others = λ q apart. elim (eq_or_ne a.resource q) [
      | inl e ↦ subst (λ p. docs r.1 p ≡ before p) e (step.confirmed clean ∙ sym v.originals.0)
      | inr ne ↦ step.others q ne ∙ v.others q (ne, apart)
    ];
  }

  rollback_one-Recoverable :
      (behavior : RollbackBehavior) (a : AppliedWrite R Target) (l : List (AppliedWrite R Target))
      (fs : List (OperationRollbackFailure E Target)) (b : Option Target) (s : S)
      → Recoverable (a ∷ l) s
      → (rollback_one host maximum behavior a fs b s).0 ≡ []
      → Recoverable l (rollback_one host maximum behavior a fs b s).2
  unfolding rollback_one
  rollback_one-Recoverable best_effort a l fs b s v h =
      restored-Recoverable a l s (restore host maximum a s) (restore-Restores host maximum law a s)
        (push-eq-nil host maximum fs _ h) v
  rollback_one-Recoverable dependency_ordered a l [] (some d) s v h = cc
  rollback_one-Recoverable dependency_ordered a l (f ∷ fs) (some d) s v h = cc
  rollback_one-Recoverable dependency_ordered a l fs none s v h =
      restored-Recoverable a l s (restore host maximum a s) (restore-Restores host maximum law a s)
        (push-eq-nil host maximum fs _ h) v

  rollback_loop-recovers :
      (behavior : RollbackBehavior) (l : List (AppliedWrite R Target))
      (fs : List (OperationRollbackFailure E Target)) (b : Option Target) (s : S)
      → Recoverable l s
      → (rollback_loop host maximum behavior l fs b s).0 ≡ []
      → (q : R) → docs (rollback_loop host maximum behavior l fs b s).1 q ≡ before q
  unfolding rollback_loop
  rollback_loop-recovers behavior [] fs b s v h q = v.others q tt
  rollback_loop-recovers behavior (a ∷ l) fs b s v h q =
      let r = rollback_one host maximum behavior a fs b s in
      let (more, e) = rollback_loop-grows host maximum behavior l r.0 r.1 r.2 in
      let clean = append-eq-nil r.0 more (sym e ∙ h) in
      rollback_loop-recovers behavior l r.0 r.1 r.2
        (rollback_one-Recoverable behavior a l fs b s v clean) h q

  -- If `before` differs from the documents at most where a write was applied, and every applied
  -- write recorded what `before` holds, then a rollback that reports no failure leaves every
  -- document as in `before`, whatever its behavior and whatever blocked it.
  pub rollback_applied-recovers :
      (done : List (AppliedWrite R Target)) (behavior : RollbackBehavior) (b : Option Target)
      (s : S)
      → Recoverable done s
      → (rollback_applied host maximum done behavior b s).0 ≡ []
      → (q : R) → docs (rollback_applied host maximum done behavior b s).1 q ≡ before q
  unfolding rollback_applied
  rollback_applied-recovers done behavior b s v h q =
      rollback_loop-recovers behavior (reverse done) [] b s
        (record {
          originals = All-reverse _ done v.originals;
          others = λ p apart. v.others p (All-of_reverse _ done apart);
        })
        h q
