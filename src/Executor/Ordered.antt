-- ===== src/Executor/Ordered.antt =====
-- Laws of the dependency-ordered rollback (src/executor.rs).
use cc_switch_core.Base.{
  nat_eq, list_eq, option_eq, string_eq, ℕ, ◌≡◌, refl, sym, ap, ◌∙◌, ◌⊎◌, inl, inr, Option, none,
  some, List, [], ◌∷◌, ◌++◌, map, reverse, append-nil, append_assoc,
}
use cc_switch_core.Executor.Host.{OperationHost}
use cc_switch_core.Executor.Types.{
  OperationRollbackFailure, blocked, AppliedWrite, dependency_ordered,
}
use cc_switch_core.Executor.Rollback.{
  restore, push, block, rollback_one, rollback_loop, rollback_applied,
}

module _ {Target R E S : Type 0} (host : OperationHost Target R E S) (maximum : ℕ) where
  -- The failures that report each of these writes as blocked by one dependency.
  abbrev pub blocked_by :
      Target → List (AppliedWrite R Target) → List (OperationRollbackFailure E Target)
  blocked_by dependency = map λ a. blocked a.target dependency

  -- Behind an unconfirmed restoration nothing is done.
  loop_blocked :
      (l : List (AppliedWrite R Target)) (fs : List (OperationRollbackFailure E Target))
      (d : Target) (s : S)
      → rollback_loop host maximum dependency_ordered l fs (some d) s ≡ (fs ++ blocked_by d l, s)
  unfolding rollback_loop rollback_one
  loop_blocked [] fs d s = ap (λ l. (l, s)) (sym (append-nil fs))
  loop_blocked (a ∷ l) fs d s =
      loop_blocked l (fs ++ (blocked a.target d ∷ [])) d s
      ∙ ap (λ l. (l, s)) (append_assoc fs (blocked a.target d ∷ []) (blocked_by d l))

  -- A rollback, newest write first, that stopped: the writes restored before it, the write whose
  -- restoration failed, and those that were left.
  pub record StopsAt (l : List (AppliedWrite R Target)) (s : S)
      (r : List (OperationRollbackFailure E Target) × S) : Type 0 where
    pub restored : List (AppliedWrite R Target)
    pub stuck : AppliedWrite R Target
    pub left : List (AppliedWrite R Target)
    pub reached : S
    pub failure : OperationRollbackFailure E Target
    pub split : l ≡ restored ++ (stuck ∷ left)
    pub confirmed : rollback_loop host maximum dependency_ordered restored [] none s ≡ ([], reached)
    pub attempted : restore host maximum stuck reached ≡ (some failure, r.1)
    pub failures : r.0 ≡ failure ∷ blocked_by stuck.target left

  prepend_restored :
      (a : AppliedWrite R Target) (l : List (AppliedWrite R Target)) (s s₁ : S)
      (r : List (OperationRollbackFailure E Target) × S)
      → restore host maximum a s ≡ (none, s₁)
      → StopsAt l s₁ r
      → StopsAt (a ∷ l) s r
  unfolding rollback_loop rollback_one
  prepend_restored a l s s₁ r e v = record {
    restored = a ∷ v.restored;
    stuck = v.stuck;
    left = v.left;
    reached = v.reached;
    failure = v.failure;
    split = ap (λ l. a ∷ l) v.split;
    confirmed = rw e v.confirmed;
    attempted = v.attempted;
    failures = v.failures;
  }

  stops_after :
      (a : AppliedWrite R Target) (l : List (AppliedWrite R Target)) (s : S)
      (step : Option (OperationRollbackFailure E Target) × S)
      → restore host maximum a s ≡ step
      → ((s₁ : S)
          → ((rollback_loop host maximum dependency_ordered l [] none s₁).0 ≡ [])
            ⊎ StopsAt l s₁ (rollback_loop host maximum dependency_ordered l [] none s₁))
      → let r =
          rollback_loop host maximum dependency_ordered l
            (push host maximum [] step.0)
            (block host maximum a.target step.0)
            step.1 in
        (r.0 ≡ []) ⊎ StopsAt (a ∷ l) s r
  stops_after a l s (none, s₁) e rest = elim (rest s₁) [
    | inl clean ↦ inl clean
    | inr stop ↦ inr (prepend_restored a l s s₁ _ e stop)
  ]
  stops_after a l s (some f, s₁) e rest = rw (loop_blocked l (f ∷ []) a.target s₁) (
      inr (record {
        restored = [];
        stuck = a;
        left = l;
        reached = s;
        failure = f;
        split = refl;
        confirmed = unfold rollback_loop in refl;
        attempted = e;
        failures = refl;
      }))

  loop_stops :
      (l : List (AppliedWrite R Target)) (s : S)
      → ((rollback_loop host maximum dependency_ordered l [] none s).0 ≡ [])
        ⊎ StopsAt l s (rollback_loop host maximum dependency_ordered l [] none s)
  unfolding rollback_loop rollback_one
  loop_stops [] s = inl refl
  loop_stops (a ∷ l) s = stops_after a l s (restore host maximum a s) refl (loop_stops l)

  -- What a dependency-ordered rollback of these writes gives, from a state and with what blocks it.
  abbrev pub Ordered :
      Option Target
      → List (AppliedWrite R Target)
      → S
      → List (OperationRollbackFailure E Target) × S
      → Type 0
  Ordered none l s r = (r.0 ≡ []) ⊎ StopsAt l s r
  Ordered (some dependency) l s r = r ≡ (blocked_by dependency l, s)

  -- A dependency-ordered rollback that nothing blocks at first reports nothing, or it stops: the
  -- writes newer than some write were confirmed restored, that write's restoration failed, every
  -- older write is reported as blocked by it, and the host was not asked to do anything after that
  -- attempt. One that a target blocks from the start reports every write as blocked by it, newest
  -- first, and does not ask the host at all.
  pub rollback_applied-stops :
      (done : List (AppliedWrite R Target)) (blocker : Option Target) (s : S)
      → Ordered blocker
          (reverse done)
          s
          (rollback_applied host maximum done dependency_ordered blocker s)
  unfolding rollback_applied
  rollback_applied-stops done none s = loop_stops (reverse done) s
  rollback_applied-stops done (some dependency) s = loop_blocked (reverse done) [] dependency s
