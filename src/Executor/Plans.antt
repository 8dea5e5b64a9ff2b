-- ===== src/Executor/Plans.antt =====
-- The entry points that execute an operation plan (src/executor.rs), from validation to the last
-- write.
mod Examples
use cc_switch_core.Base.{
  nat_eq, list_eq, option_eq, string_eq, ℕ, ◌≡◌, refl, sym, ap, Option, List, [], map, Result, ok,
  err, Eq,
}
use cc_switch_core.Base.{continue}
use cc_switch_core.Text.{Bytes}
use cc_switch_core.App.{AppType}
use cc_switch_core.App.Target.{LogicalTarget}
use cc_switch_core.Operation.Plan.{OperationPlan, OperationPlanError, validate_with_content_limit}
use cc_switch_core.Operation.Validation.{IsValidFor}
use cc_switch_core.Operation.Acceptance.{validate_with_content_limit_iff}
use cc_switch_core.Executor.Host.{OperationHost, IsHost}
use cc_switch_core.Executor.Types.{
  OperationExecutionError, WriteView, RollbackBehavior, OperationReceipt,
}
use cc_switch_core.Executor.Run.{
  execute_writes, validated, view, execute_operation_plan_with_rollback,
}
use cc_switch_core.Executor.Receipt.{rollback}
use cc_switch_core.Executor.Atomic.{Committed}
use cc_switch_core.Executor.Transaction.{
  rollback-undoes, execute_writes-atomic, execute_writes-commits,
}

module _ {R E S : Type 0} ⦃same_resource : Eq R⦄ (digest : Bytes → Bytes)
    (host : OperationHost LogicalTarget R E S) (behavior : RollbackBehavior) (maximum : ℕ)
    (docs : S → R → Option Bytes) (locate : LogicalTarget → R) (law : IsHost host docs locate)
    (plan : OperationPlan) (s s' : S) where
  abbrev writes : List (WriteView LogicalTarget)
  writes = map (view digest host plan) plan.writes

  abbrev after_validation :
      Result OperationPlanError (Unit {0})
      → Result (OperationExecutionError E LogicalTarget) (OperationReceipt R LogicalTarget) × S
  after_validation v =
      continue (validated digest host plan v s)
        λ _ s₁. execute_writes digest host behavior maximum writes s₁

  failed :
      (v : Result OperationPlanError (Unit {0})) (e : OperationExecutionError E LogicalTarget)
      → after_validation v ≡ (err e, s')
      → e.rollback_failures ≡ []
      → (q : R) → docs s' q ≡ docs s q
  failed (ok u) e run clean =
      execute_writes-atomic digest host behavior maximum docs locate law writes s s' e run clean
  failed (err x) e run clean = λ q. ap (λ p. docs p.1 q) (sym run)

  succeeded :
      (v : Result OperationPlanError (Unit {0})) (receipt : OperationReceipt R LogicalTarget)
      → after_validation v ≡ (ok receipt, s')
      → (v ≡ ok tt)
        × Committed digest host behavior maximum docs locate law writes s receipt.applied s'
  succeeded (ok u) receipt run = (
    refl,
    (execute_writes-commits digest host behavior maximum docs locate law writes s s' receipt run).0,
  )
  succeeded (err x) receipt run = cc (ap (λ p. p.0) run)

  -- Executing a plan that is refused, or that fails and reports no rollback failure, leaves every
  -- document as it was.
  pub execute_plan-atomic :
      (e : OperationExecutionError E LogicalTarget)
      → execute_operation_plan_with_rollback digest host plan behavior maximum s ≡ (err e, s')
      → e.rollback_failures ≡ []
      → (q : R) → docs s' q ≡ docs s q
  unfolding execute_operation_plan_with_rollback
  execute_plan-atomic = failed (validate_with_content_limit plan maximum)

  -- A plan that is executed was a valid plan of some application, and all its writes are done.
  pub execute_plan-commits :
      (receipt : OperationReceipt R LogicalTarget)
      → execute_operation_plan_with_rollback digest host plan behavior maximum s ≡ (ok receipt, s')
      → ((a : AppType) × IsValidFor a maximum plan)
        × Committed digest host behavior maximum docs locate law writes s receipt.applied s'
  unfolding execute_operation_plan_with_rollback
  execute_plan-commits receipt run =
      let (valid, done) = succeeded (validate_with_content_limit plan maximum) receipt run in
      ((validate_with_content_limit_iff plan maximum).0 valid, done)

  executed :
      (v : Result OperationPlanError (Unit {0})) (receipt : OperationReceipt R LogicalTarget)
      → after_validation v ≡ (ok receipt, s')
      → execute_writes digest host behavior maximum writes s ≡ (ok receipt, s')
  executed (ok u) receipt run = run
  executed (err x) receipt run = cc (ap (λ p. p.0) run)

  -- Rolling back the receipt of a plan, from any later state with the documents that it left, brings
  -- every document back if it reports success.
  pub execute_plan-undoes :
      (receipt : OperationReceipt R LogicalTarget) (t t' : S)
      → execute_operation_plan_with_rollback digest host plan behavior maximum s ≡ (ok receipt, s')
      → ((q : R) → docs t q ≡ docs s' q)
      → rollback host receipt t ≡ (ok tt, t')
      → (q : R) → docs t' q ≡ docs s q
  unfolding execute_operation_plan_with_rollback
  execute_plan-undoes receipt t t' run =
      rollback-undoes digest host behavior maximum docs locate law writes s s' receipt t t'
        (executed (validate_with_content_limit plan maximum) receipt run)
