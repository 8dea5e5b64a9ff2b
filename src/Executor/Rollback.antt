-- ===== src/Executor/Rollback.antt =====
-- `rollback_applied` and `failure_with_rollback` (src/executor.rs): each applied write is restored,
-- the last one first, on the condition that the resource still holds what was written.
use cc_switch_core.Base.{
  nat_eq, list_eq, option_eq, string_eq, ℕ, ◌&&◌, Option, none, some, List, [], ◌∷◌, ◌++◌, reverse,
  Result, ok, err, ◌==◌, if◌then◌else◌, length, ltb, leb,
}
use cc_switch_core.Executor.Host.{
  OperationRead, absent, contents, too_large, CompareExchangeOutcome, applied, conflict,
  OperationHost,
}
use cc_switch_core.Executor.Types.{
  OperationFailure, OperationRollbackFailure, changed, blocked, OperationExecutionError,
  AppliedWrite, RollbackBehavior, best_effort, dependency_ordered, is_none, write_failed,
  observed_content_too_large, read_failed,
}

module _ {Target R E S : Type 0} (host : OperationHost Target R E S) (maximum : ℕ) where
  -- What `rollback_applied` makes of the read after a conflicting restoration.
  unfoldable pub after_conflict :
      AppliedWrite R Target → Result E OperationRead → Option (OperationRollbackFailure E Target)
  after_conflict a (ok absent) = if is_none a.original then none else some (changed a.target)
  after_conflict a (ok (contents c)) =
      if leb (length c) maximum && a.original == some c
      then none
      else if ltb maximum (length c)
      then some (observed_content_too_large a.target maximum)
      else some (changed a.target)
  after_conflict a (ok too_large) = some (observed_content_too_large a.target maximum)
  after_conflict a (err e) = some (read_failed a.target e)

  abbrev pub after_restore :
      AppliedWrite R Target
      → Result E CompareExchangeOutcome × S
      → Option (OperationRollbackFailure E Target) × S
  after_restore a (ok applied, s) = (none, s)
  after_restore a (ok conflict, s) =
      let (r, s') = host.read a.resource maximum s in (after_conflict a r, s')
  after_restore a (err e, s) = (some (write_failed a.target e), s)

  -- The restoration of one applied write, with the failure that it reports, if any.
  unfoldable pub restore :
      AppliedWrite R Target → S → Option (OperationRollbackFailure E Target) × S
  restore a s = after_restore a (host.compare_exchange a.resource a.written a.original s)

  abbrev pub push :
      List (OperationRollbackFailure E Target)
      → Option (OperationRollbackFailure E Target)
      → List (OperationRollbackFailure E Target)
  push failures none = failures
  push failures (some f) = failures ++ (f ∷ [])

  abbrev pub block : Target → Option (OperationRollbackFailure E Target) → Option Target
  block target none = none
  block target (some f) = some target

  -- The body of the loop in `rollback_applied`: the failures so far, and the target whose
  -- restoration could not be confirmed.
  unfoldable pub rollback_one :
      RollbackBehavior
      → AppliedWrite R Target
      → List (OperationRollbackFailure E Target)
      → Option Target
      → S
      → List (OperationRollbackFailure E Target) × Option Target × S
  rollback_one best_effort a failures blocked_by s =
      let (f, s') = restore a s in (push failures f, blocked_by, s')
  rollback_one dependency_ordered a failures (some dependency) s =
      (failures ++ (blocked a.target dependency ∷ []), some dependency, s)
  rollback_one dependency_ordered a failures none s =
      let (f, s') = restore a s in (push failures f, block a.target f, s')

  unfoldable pub rollback_loop :
      RollbackBehavior
      → List (AppliedWrite R Target)
      → List (OperationRollbackFailure E Target)
      → Option Target
      → S
      → List (OperationRollbackFailure E Target) × S
  rollback_loop behavior [] failures blocked_by s = (failures, s)
  rollback_loop behavior (a ∷ rest) failures blocked_by s =
      let (failures', blocked', s') = rollback_one behavior a failures blocked_by s in
      rollback_loop behavior rest failures' blocked' s'

  -- `rollback_applied`: the last applied write first.
  unfoldable pub rollback_applied :
      List (AppliedWrite R Target)
      → RollbackBehavior
      → Option Target
      → S
      → List (OperationRollbackFailure E Target) × S
  rollback_applied done behavior blocked_by s =
      rollback_loop behavior (reverse done) [] blocked_by s

  -- `failure_with_rollback`
  unfoldable pub failure_with_rollback :
      OperationFailure E Target
      → List (AppliedWrite R Target)
      → RollbackBehavior
      → Option Target
      → S
      → OperationExecutionError E Target × S
  failure_with_rollback failure done behavior blocked_by s =
      let (failures, s') = rollback_applied done behavior blocked_by s in
      (record { failure = failure; rollback_failures = failures }, s')
