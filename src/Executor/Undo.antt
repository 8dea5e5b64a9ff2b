-- ===== src/Executor/Undo.antt =====
-- When the rollback of a receipt succeeds (src/executor.rs).
use cc_switch_core.Base.{
  nat_eq, list_eq, option_eq, string_eq, ℕ, ◌≡◌, refl, sym, ap, subst, ◌∙◌, ◌≢◌, Option, none, List,
  [], ◌∷◌, map, reverse, ok, Eq, All,
}
use mathlib.Core.List.{reverse-cons, map-append}
use cc_switch_core.Base.{All-mono, All-map, All-of_map, All-reverse}
use cc_switch_core.Text.{Bytes}
use cc_switch_core.Executor.Host.{OperationHost, IsHost}
use cc_switch_core.Executor.Types.{
  AppliedWrite, RollbackBehavior, best_effort, dependency_ordered, OperationReceipt,
}
use cc_switch_core.Executor.Rollback.{
  restore, after_restore, rollback_one, rollback_loop, rollback_applied,
}
use cc_switch_core.Executor.Receipt.{rollback, unless_failed}
use cc_switch_core.Executor.Preflight.{Distinct, Distinct-snoc}
use cc_switch_core.Executor.Recovery.{rollback_applied-recovers}
use cc_switch_core.Executor.Success.{IsReliable}
use cc_switch_core.Executor.Coalesce.{IsRestorable}

module _ {Target R : Type 0} where
  abbrev names : List (AppliedWrite R Target) → List R
  names = map λ a. a.resource

  Distinct-reverse :
      (l : List (AppliedWrite R Target)) → Distinct (names l) → Distinct (names (reverse l))
  Distinct-reverse [] d = tt
  Distinct-reverse (a ∷ l) d =
      let others : All (λ b. b.resource ≢ a.resource) l =
        All-mono (λ b. a.resource ≢ b.resource) (λ b. b.resource ≢ a.resource) l
          (λ b ne e. ne (sym e)) (All-of_map (λ r. a.resource ≢ r) (λ b. b.resource) l d.0) in
      subst Distinct
        (sym (ap names (reverse-cons a l) ∙ map-append (λ b. b.resource) (reverse l) (a ∷ [])))
        (Distinct-snoc (names (reverse l)) a.resource (Distinct-reverse l d.1)
          (All-map (λ r. r ≢ a.resource) (λ b. b.resource) (reverse l) (All-reverse _ l others)))

module _ {Target R E S : Type 0} ⦃same_resource : Eq R⦄ (host : OperationHost Target R E S)
    (docs : S → R → Option Bytes) (locate : Target → R) (law : IsHost host docs locate)
    (maximum : ℕ) (reliable : IsReliable host docs locate maximum) where
  -- A write whose contents are still there is restored.
  restore-succeeds :
      (bound : ℕ) (a : AppliedWrite R Target) (s : S)
      → docs s a.resource ≡ a.written
      → (s' : S) × (restore host bound a s ≡ (none, s'))
        × ((q : R) → a.resource ≢ q → docs s' q ≡ docs s q)
  unfolding restore
  restore-succeeds bound a s current =
      let (s', swap, kept) = reliable.exchanges a.resource a.written a.original s current in
      (s', ap (after_restore host bound a) swap, kept)

  rollback_one-succeeds :
      (bound : ℕ) (behavior : RollbackBehavior) (a : AppliedWrite R Target) (s s' : S)
      → restore host bound a s ≡ (none, s')
      → rollback_one host bound behavior a [] none s ≡ ([], none, s')
  unfolding rollback_one
  rollback_one-succeeds bound best_effort a s s' e = rw e refl
  rollback_one-succeeds bound dependency_ordered a s s' e = rw e refl

  still :
      (r : R) (l : List (AppliedWrite R Target)) (s s' : S)
      → ((q : R) → r ≢ q → docs s' q ≡ docs s q)
      → All (λ q. r ≢ q) (names l)
      → All (λ a. docs s a.resource ≡ a.written) l
      → All (λ a. docs s' a.resource ≡ a.written) l
  still r [] s s' kept d h = tt
  still r (a ∷ l) s s' kept d h = (kept a.resource d.0 ∙ h.0, still r l s s' kept d.1 h.1)

  rollback_loop-succeeds :
      (bound : ℕ) (behavior : RollbackBehavior) (l : List (AppliedWrite R Target)) (s : S)
      → Distinct (names l)
      → All (λ a. docs s a.resource ≡ a.written) l
      → (s' : S) × (rollback_loop host bound behavior l [] none s ≡ ([], s'))
  unfolding rollback_loop
  rollback_loop-succeeds bound behavior [] s d h = (s, refl)
  rollback_loop-succeeds bound behavior (a ∷ l) s d h =
      let (s₁, restored, kept) = restore-succeeds bound a s h.0 in
      let (s', rest) =
        rollback_loop-succeeds bound behavior l s₁ d.1 (still a.resource l s s₁ kept d.0 h.1) in
      (s', rw (rollback_one-succeeds bound behavior a s s₁ restored) rest)

  -- On a host that keeps the trait's contract and does not fail, from a state in which what the
  -- receipt's rollback relies on holds, the rollback succeeds and brings every document back.
  pub rollback-succeeds :
      (before : R → Option Bytes) (receipt : OperationReceipt R Target) (s : S)
      → IsRestorable before (docs s) receipt
      → (s' : S) × (rollback host receipt s ≡ (ok tt, s')) × ((q : R) → docs s' q ≡ before q)
  unfolding rollback rollback_applied
  rollback-succeeds before receipt s v =
      let bound = receipt.maximum_content_bytes in
      let (s', run) =
        rollback_loop-succeeds bound receipt.rollback_behavior (reverse receipt.applied) s
          (Distinct-reverse receipt.applied v.distinct) (All-reverse _ receipt.applied v.current) in
      let back =
        rollback_applied-recovers host bound law before receipt.applied receipt.rollback_behavior
          none s (record { originals = v.originals; others = v.others }) (ap (λ p. p.0) run) in
      (s', ap (unless_failed host) run, λ q. sym (ap (λ p. docs p.1 q) run) ∙ back q)
