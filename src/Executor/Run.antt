-- ===== src/Executor/Run.antt =====
-- The applying loop, the entry points and the receipts of src/executor.rs. `digest` stands for the
-- SHA-256 hash.
use cc_switch_core.Base.{
  nat_eq, list_eq, option_eq, string_eq, ℕ, true, false, none, some, List, [], ◌∷◌, ◌++◌, map,
  Result, ok, err, Eq,
}
use cc_switch_core.Base.{continue, fail_with}
use cc_switch_core.Text.{Bytes}
use cc_switch_core.App.Target.{LogicalTarget}
use cc_switch_core.Operation.Plan.{
  OperationPlan, PlannedWrite, OperationPlanError, validate_with_content_limit,
  max_operation_content_bytes,
}
use cc_switch_core.Executor.Prepare.{resolve_writes, observe_writes}
use cc_switch_core.Executor.Rollback.{failure_with_rollback}
use cc_switch_core.Executor.Host.{CompareExchangeOutcome, applied, conflict, OperationHost}
use cc_switch_core.Executor.Types.{
  invalid_plan, conflicting, OperationExecutionError, WriteView, PreparedWrite, AppliedWrite,
  RollbackBehavior, best_effort, dependency_ordered, OperationReceipt, execution_error, is_noop,
  write_failed,
}

-- The record of a write that is exchanged.
abbrev pub attempt : {Target R : Type 0} → PreparedWrite R Target → AppliedWrite R Target
attempt p = record {
  target = p.write.target;
  resource = p.resource;
  original = p.original;
  written = p.write.contents;
}

module _ {Target R E S : Type 0} (host : OperationHost Target R E S) (behavior : RollbackBehavior)
    (maximum : ℕ) where
  abbrev pub failing :
      {A : Type 0}
      → OperationExecutionError E Target × S
      → Result (OperationExecutionError E Target) A × S
  failing (e, s) = (err e, s)

  -- What follows the exchange of an attempted write: `done` holds the writes applied before it, and
  -- `next` is the rest of the loop.
  unfoldable pub after_exchange :
      AppliedWrite R Target
      → List (AppliedWrite R Target)
      → (List (AppliedWrite R Target)
          → S
          → Result (OperationExecutionError E Target) (List (AppliedWrite R Target)) × S)
      → Result E CompareExchangeOutcome × S
      → Result (OperationExecutionError E Target) (List (AppliedWrite R Target)) × S
  after_exchange a done next (ok applied, s) = next (done ++ (a ∷ [])) s
  after_exchange a done next (ok conflict, s) =
      failing
        (failure_with_rollback host maximum (conflicting a.target) done behavior (some a.target) s)
  after_exchange a done next (err e, s) = failing (
      failure_with_rollback host maximum (write_failed a.target e) (done ++ (a ∷ [])) behavior none
        s)

  -- The third loop of `execute_writes`.
  unfoldable pub apply_writes :
      List (PreparedWrite R Target)
      → List (AppliedWrite R Target)
      → S
      → Result (OperationExecutionError E Target) (List (AppliedWrite R Target)) × S
  apply_writes [] done s = (ok done, s)
  apply_writes (p ∷ ps) done s = elim (is_noop p.write.contents p.original) [
    | true ↦ apply_writes ps done s
    | false ↦
        after_exchange (attempt p) done (apply_writes ps)
          (host.compare_exchange p.resource p.original p.write.contents s)
  ]

-- `execute_writes`
module _ {Target R E S : Type 0} ⦃same_resource : Eq R⦄ (digest : Bytes → Bytes)
    (host : OperationHost Target R E S) (behavior : RollbackBehavior) (maximum : ℕ) where
  unfoldable pub execute_writes :
      List (WriteView Target)
      → S
      → Result (OperationExecutionError E Target) (OperationReceipt R Target) × S
  execute_writes writes s =
      continue (fail_with execution_error (resolve_writes host writes [] s)) λ prepared s₁.
        continue (fail_with execution_error (observe_writes host maximum digest prepared s₁))
          λ ready s₂. continue (apply_writes host behavior maximum ready [] s₂) λ done s₃. (
            ok (record {
              applied = done;
              rollback_behavior = behavior;
              maximum_content_bytes = maximum;
            }),
            s₃,
          )

module _ {R E S : Type 0} ⦃same_resource : Eq R⦄ (digest : Bytes → Bytes)
    (host : OperationHost LogicalTarget R E S) (plan : OperationPlan) where
  abbrev pub view : PlannedWrite → WriteView LogicalTarget
  view w = record { target = w.target; expected = w.expected; contents = w.contents }

  abbrev pub validated :
      Result OperationPlanError (Unit {0})
      → S
      → Result (OperationExecutionError E LogicalTarget) (Unit {0}) × S
  validated (ok u) s = (ok u, s)
  validated (err e) s = (err (execution_error (invalid_plan e)), s)

  unfoldable pub execute_operation_plan_with_rollback :
      RollbackBehavior
      → ℕ
      → S
      → Result (OperationExecutionError E LogicalTarget) (OperationReceipt R LogicalTarget) × S
  execute_operation_plan_with_rollback behavior maximum s =
      continue (validated (validate_with_content_limit plan maximum) s)
        λ _ s₁. execute_writes digest host behavior maximum (map view plan.writes) s₁

  unfoldable pub execute_operation_plan_with_content_limit :
      ℕ
      → S
      → Result (OperationExecutionError E LogicalTarget) (OperationReceipt R LogicalTarget) × S
  execute_operation_plan_with_content_limit = execute_operation_plan_with_rollback best_effort

  unfoldable pub execute_operation_plan :
      S → Result (OperationExecutionError E LogicalTarget) (OperationReceipt R LogicalTarget) × S
  execute_operation_plan = execute_operation_plan_with_content_limit max_operation_content_bytes

  unfoldable pub execute_dependency_ordered_plan_with_content_limit :
      ℕ
      → S
      → Result (OperationExecutionError E LogicalTarget) (OperationReceipt R LogicalTarget) × S
  execute_dependency_ordered_plan_with_content_limit =
      execute_operation_plan_with_rollback dependency_ordered

  unfoldable pub execute_dependency_ordered_plan :
      S → Result (OperationExecutionError E LogicalTarget) (OperationReceipt R LogicalTarget) × S
  execute_dependency_ordered_plan =
      execute_dependency_ordered_plan_with_content_limit max_operation_content_bytes
