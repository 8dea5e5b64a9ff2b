-- ===== src/Executor/Plans/Examples.antt =====
-- The theorems on plans, at a plan that fails at its second write and is undone, and at one that is
-- executed.
use cc_switch_core.Base.{
  nat_eq, list_eq, option_eq, string_eq, ℕ, ◌≡◌, refl, none, some, [], ◌∷◌, map, Result,
}
use cc_switch_core.Text.{Bytes, codes}
use cc_switch_core.App.{app_beq, app_eq, AppType}
use cc_switch_core.App.Target.{
  LogicalTarget, codex_auth, codex_config, app, allows_removal, target_beq, target_eq, target_index,
}
use cc_switch_core.Registry.Catalog.{as_str}
use cc_switch_core.Registry.Targets.{targets_of}
use cc_switch_core.Operation.Digest.{missing, matches}
use cc_switch_core.Operation.Plan.{
  OperationPlan, validate_with_content_limit, validate_plan_with_content_limit, validate_for,
  check_writes, check_write, exceeds, is_removal, is_malformed,
}
use cc_switch_core.Executor.Types.{
  OperationExecutionError, OperationFailure, OperationReceipt, best_effort, is_noop,
}
use cc_switch_core.Executor.Prepare.{resolve_writes, observe_writes, read_for_execution}
use cc_switch_core.Executor.Rollback.{
  after_conflict, restore, rollback_one, rollback_loop, rollback_applied, failure_with_rollback,
}
use cc_switch_core.Executor.Run.{
  after_exchange, apply_writes, execute_writes, execute_operation_plan_with_rollback,
}
use cc_switch_core.Executor.Memory.{Memory, plan_host, plan_host-IsHost}
use cc_switch_core.Executor.Atomic.{Committed}
use cc_switch_core.Executor.Run.{view}
use cc_switch_core.Executor.Plans.{execute_plan-atomic, IsValidFor, execute_plan-commits}

abbrev no_documents : Memory
no_documents = record { documents = λ r. none; exchanges = 0 }

abbrev same_bytes : Bytes → Bytes
same_bytes c = c

-- Creates Codex's credentials and its configuration.
abbrev creating : OperationPlan
creating = record {
  contract_major = 1;
  app_id = codes "codex";
  writes =
      record { target = codex_auth; expected = missing; contents = some (codes "{}") }
      ∷ record { target = codex_config; expected = missing; contents = some (codes "m = 1") }
      ∷ [];
}

abbrev run_failing_at :
    ℕ
    → Result (OperationExecutionError (Unit {0}) LogicalTarget) (OperationReceipt ℕ LogicalTarget)
      × Memory
run_failing_at n =
    execute_operation_plan_with_rollback same_bytes (plan_host n) creating best_effort 100
      no_documents

abbrev config_failed : OperationExecutionError (Unit {0}) LogicalTarget
config_failed = record {
  failure = OperationFailure.write_failed codex_config tt;
  rollback_failures = [];
}

execute_plan-atomic_example : (run_failing_at 2).1.documents 5 ≡ none
unfolding execute_operation_plan_with_rollback validate_with_content_limit
    validate_plan_with_content_limit validate_for check_writes check_write exceeds is_removal
    is_malformed as_str app allows_removal target_beq app_beq targets_of execute_writes
    resolve_writes observe_writes read_for_execution apply_writes after_exchange
    failure_with_rollback rollback_applied rollback_loop rollback_one restore after_conflict matches
    is_noop target_index
execute_plan-atomic_example =
    execute_plan-atomic same_bytes (plan_host 2) best_effort 100 (λ s. s.documents) target_index
      (plan_host-IsHost 2) creating no_documents (run_failing_at 2).1 config_failed refl refl 5

abbrev both_created : OperationReceipt ℕ LogicalTarget
both_created = record {
  applied =
      record { target = codex_auth; resource = 5; original = none; written = some (codes "{}") }
      ∷ record {
        target = codex_config;
        resource = 6;
        original = none;
        written = some (codes "m = 1");
      }
      ∷ [];
  rollback_behavior = best_effort;
  maximum_content_bytes = 100;
}

execute_plan-commits_example :
    ((a : AppType) × IsValidFor a 100 creating)
    × Committed same_bytes
        (plan_host 0)
        best_effort
        100
        (λ s. s.documents)
        target_index
        (plan_host-IsHost 0)
        (map (view same_bytes (plan_host 0) creating) creating.writes)
        no_documents
        both_created.applied
        (run_failing_at 0).1
unfolding execute_operation_plan_with_rollback validate_with_content_limit
    validate_plan_with_content_limit validate_for check_writes check_write exceeds is_removal
    is_malformed as_str app allows_removal target_beq app_beq targets_of execute_writes
    resolve_writes observe_writes read_for_execution apply_writes after_exchange matches is_noop
    target_index
execute_plan-commits_example =
    execute_plan-commits same_bytes (plan_host 0) best_effort 100 (λ s. s.documents) target_index
      (plan_host-IsHost 0) creating no_documents (run_failing_at 0).1 both_created refl
