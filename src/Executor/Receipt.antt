-- ===== src/Executor/Receipt.antt =====
-- Receipts and the publication of one MCP document (src/executor.rs).
use cc_switch_core.Base.{
  nat_eq, list_eq, option_eq, string_eq, ℕ, max, Bool, ◌&&◌, Option, none, some, List, [], ◌∷◌,
  Result, ok, err, ◌==◌, Eq, if◌then◌else◌, length, ltb,
}
use cc_switch_core.Text.{Bytes}
use cc_switch_core.Operation.Digest.{ContentExpectation}
use cc_switch_core.Operation.Plan.{is_malformed}
use cc_switch_core.Executor.Host.{OperationHost}
use cc_switch_core.Executor.Types.{
  OperationExecutionError, OperationRollbackFailure, OperationReceipt, AppliedWrite, best_effort,
  execution_error, invalid_expectation, planned_content_too_large,
}
use cc_switch_core.Executor.Rollback.{rollback_applied}
use cc_switch_core.Executor.Run.{execute_writes}

-- `execute_mcp_write_with_content_limit`
module _ {Target R E S : Type 0} ⦃same_resource : Eq R⦄ (digest : Bytes → Bytes)
    (host : OperationHost Target R E S) (maximum : ℕ) where
  unfoldable pub execute_mcp_write :
      Target
      → ContentExpectation
      → Bytes
      → S
      → Result (OperationExecutionError E Target) (OperationReceipt R Target) × S
  execute_mcp_write target expected new s =
      if is_malformed expected
      then (err (execution_error (invalid_expectation target)), s)
      else if ltb maximum (length new)
      then (err (execution_error (planned_content_too_large target maximum)), s)
      else execute_writes digest host best_effort maximum
          (record { target = target; expected = expected; contents = some new } ∷ []) s

module _ {Target R : Type 0} where
  -- The last element of a list, and the list with another one there.
  abbrev pub last? : List (AppliedWrite R Target) → Option (AppliedWrite R Target)
  last? [] = none
  last? (x ∷ []) = some x
  last? (x ∷ y ∷ l) = last? (y ∷ l)

  abbrev pub set_last :
      List (AppliedWrite R Target) → AppliedWrite R Target → List (AppliedWrite R Target)
  set_last [] a = []
  set_last (x ∷ []) a = a ∷ []
  set_last (x ∷ y ∷ l) a = x ∷ set_last (y ∷ l) a

module _ {Target R : Type 0} ⦃same_target : Eq Target⦄ ⦃same_resource : Eq R⦄ where
  unfoldable pub continues : AppliedWrite R Target → AppliedWrite R Target → Bool
  continues previous next =
      previous.target == next.target
      && previous.resource == next.resource
      && previous.written == next.original

  abbrev pub coalesce_pair :
      OperationReceipt R Target
      → OperationReceipt R Target
      → AppliedWrite R Target
      → Option (AppliedWrite R Target)
      → OperationReceipt R Target × Result (OperationReceipt R Target) (Unit {0})
  coalesce_pair receipt followup next none = (receipt, err followup)
  coalesce_pair receipt followup next (some previous) =
      if continues previous next
      then (
        record receipt {
          applied = set_last receipt.applied (record previous { written = next.written });
          maximum_content_bytes = max receipt.maximum_content_bytes followup.maximum_content_bytes;
        },
        ok tt,
      )
      else (receipt, err followup)

  abbrev pub coalesce_writes :
      OperationReceipt R Target
      → OperationReceipt R Target
      → List (AppliedWrite R Target)
      → OperationReceipt R Target × Result (OperationReceipt R Target) (Unit {0})
  coalesce_writes receipt followup [] = (receipt, ok tt)
  coalesce_writes receipt followup (next ∷ []) =
      coalesce_pair receipt followup next (last? receipt.applied)
  coalesce_writes receipt followup (next ∷ other ∷ rest) = (receipt, err followup)

  -- `OperationReceipt::try_coalesce_last_write`: the receipt afterwards, and the result, whose
  -- error hands the follow-up back.
  unfoldable pub try_coalesce_last_write :
      OperationReceipt R Target
      → OperationReceipt R Target
      → OperationReceipt R Target × Result (OperationReceipt R Target) (Unit {0})
  unfolding continues
  try_coalesce_last_write receipt followup = coalesce_writes receipt followup followup.applied

module _ {Target R E S : Type 0} (host : OperationHost Target R E S) where
  abbrev pub unless_failed :
      List (OperationRollbackFailure E Target) × S
      → Result (List (OperationRollbackFailure E Target)) (Unit {0}) × S
  unless_failed ([], s) = (ok tt, s)
  unless_failed (f ∷ fs, s) = (err (f ∷ fs), s)

  -- `OperationReceipt::rollback`
  unfoldable pub rollback :
      OperationReceipt R Target
      → S
      → Result (List (OperationRollbackFailure E Target)) (Unit {0}) × S
  rollback receipt s = unless_failed (
      rollback_applied host receipt.maximum_content_bytes receipt.applied receipt.rollback_behavior
        none s)
