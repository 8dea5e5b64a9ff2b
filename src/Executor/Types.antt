-- ===== src/Executor/Types.antt =====
-- The executor's errors, its records of writes in progress, and its receipts (src/executor.rs).
use cc_switch_core.Base.{
  nat_eq, list_eq, option_eq, string_eq, ℕ, Bool, true, false, Option, none, some, List, [],
}
use cc_switch_core.Text.{Bytes}
use cc_switch_core.Operation.Digest.{ContentExpectation}
use cc_switch_core.Operation.Plan.{OperationPlanError}

pub data OperationFailure (E Target : Type 0) : Type 0 where
  invalid_plan : OperationPlanError → OperationFailure E Target
  invalid_expectation : Target → OperationFailure E Target
  planned_content_too_large : Target → ℕ → OperationFailure E Target
  resolve_failed : Target → E → OperationFailure E Target
  aliased_targets : Target → Target → OperationFailure E Target
  read_failed : Target → E → OperationFailure E Target
  observed_content_too_large : Target → ℕ → OperationFailure E Target
  conflicting : Target → OperationFailure E Target
  write_failed : Target → E → OperationFailure E Target

pub data OperationRollbackFailure (E Target : Type 0) : Type 0 where
  read_failed : Target → E → OperationRollbackFailure E Target
  observed_content_too_large : Target → ℕ → OperationRollbackFailure E Target
  changed : Target → OperationRollbackFailure E Target
  write_failed : Target → E → OperationRollbackFailure E Target
  blocked : Target → Target → OperationRollbackFailure E Target

pub record OperationExecutionError (E Target : Type 0) : Type 0 where
  pub failure : OperationFailure E Target
  pub rollback_failures : List (OperationRollbackFailure E Target)

pub record WriteView (Target : Type 0) : Type 0 where
  pub target : Target
  pub expected : ContentExpectation
  pub contents : Option Bytes

pub record PreparedWrite (R Target : Type 0) : Type 0 where
  pub write : WriteView Target
  pub resource : R
  pub original : Option Bytes

pub record AppliedWrite (R Target : Type 0) : Type 0 where
  pub target : Target
  pub resource : R
  pub original : Option Bytes
  pub written : Option Bytes

pub data RollbackBehavior : Type 0 where
  best_effort dependency_ordered : RollbackBehavior

pub record OperationReceipt (R Target : Type 0) : Type 0 where
  pub applied : List (AppliedWrite R Target)
  pub rollback_behavior : RollbackBehavior
  pub maximum_content_bytes : ℕ

-- `execution_error`
abbrev pub execution_error :
    {E Target : Type 0} → OperationFailure E Target → OperationExecutionError E Target
execution_error failure = record { failure = failure; rollback_failures = [] }

abbrev pub is_none : Option Bytes → Bool
is_none none = true
is_none (some c) = false

-- Whether neither the write nor the observation has contents.
unfoldable pub is_noop : Option Bytes → Option Bytes → Bool
is_noop none none = true
is_noop _ _ = false
