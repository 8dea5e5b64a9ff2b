-- ===== src/Skill/Live.antt =====
-- The execution of a skill's live changes and their rollback (src/skill/write.rs). The references to
-- skill directories (src/skill/reference.rs) are used through the interface `References`; `host` and
-- `digest` are those of the executor.
use cc_switch_core.Base.{
  nat_eq, list_eq, option_eq, string_eq, Bool, not, ◌&&◌, Option, none, some, List, [], ◌∷◌, ◌++◌,
  Result, ok, err, Eq,
}
use cc_switch_core.Base.{continue}
use cc_switch_core.Text.{Bytes}
use cc_switch_core.App.Target.{LogicalTarget}
use cc_switch_core.Operation.Plan.{OperationPlan}
use cc_switch_core.Executor.Host.{OperationHost}
use cc_switch_core.Executor.Types.{
  OperationExecutionError, OperationReceipt, OperationRollbackFailure,
}
use cc_switch_core.Executor.Run.{execute_operation_plan}
use cc_switch_core.Executor.Receipt.{rollback}
use cc_switch_core.Skill.Switch.{SkillWriteOrder, SkillSwitchPlan, is_present}

-- `apply_skill_reference`, and `rollback` and `commit` of its receipt, on the file system's state
pub record References (Plan Receipt Error Files : Type 0) : Type 0 where
  pub apply : Plan → Files → Result Error Receipt × Files
  pub restore : Receipt → Files → Result Error (Unit {0}) × Files
  pub verify : Receipt → Files → Result Error (Unit {0}) × Files

pub data SkillLiveFailure (ReferenceError E : Type 0) : Type 0 where
  of_reference : ReferenceError → SkillLiveFailure ReferenceError E
  of_configuration : OperationExecutionError E LogicalTarget → SkillLiveFailure ReferenceError E

pub data SkillLiveRollbackFailure (ReferenceError E : Type 0) : Type 0 where
  reference_kept : ReferenceError → SkillLiveRollbackFailure ReferenceError E
  configuration_kept :
      List (OperationRollbackFailure E LogicalTarget) → SkillLiveRollbackFailure ReferenceError E

pub record SkillLiveExecutionError (ReferenceError E : Type 0) : Type 0 where
  pub failure : SkillLiveFailure ReferenceError E
  pub rollback_failures : List (SkillLiveRollbackFailure ReferenceError E)

pub record SkillLiveReceipt (Receipt R : Type 0) : Type 0 where
  pub write_order : SkillWriteOrder
  pub reference : Option Receipt
  pub configuration : Option (OperationReceipt R LogicalTarget)

-- `Option::map` with a fallible step, and `transpose`
abbrev pub try_each {ℓ κ μ ν} :
    {A : Type ℓ} {B : Type κ} {F : Type μ} {S : Type ν}
    → (A → S → Result F B × S)
    → Option A
    → S
    → Result F (Option B) × S
try_each f none s = (ok none, s)
try_each f (some a) s = continue (f a s) λ b s'. (ok (some b), s')

module _ {Plan Receipt ReferenceError Files R E S : Type 0} ⦃same_resource : Eq R⦄
    (digest : Bytes → Bytes) (host : OperationHost LogicalTarget R E S)
    (references : References Plan Receipt ReferenceError Files) where
  abbrev pub Failure : Type 0
  Failure = SkillLiveRollbackFailure ReferenceError E

  abbrev pub note_reference :
      List Failure → Result ReferenceError (Unit {0}) × Files → List Failure × Files
  note_reference failures (ok u, files) = (failures, files)
  note_reference failures (err e, files) =
      (failures ++ (SkillLiveRollbackFailure.reference_kept e ∷ []), files)

  -- `rollback_reference`
  unfoldable pub rollback_reference : Option Receipt → List Failure → Files → List Failure × Files
  rollback_reference none failures files = (failures, files)
  rollback_reference (some receipt) failures files =
      note_reference failures (references.restore receipt files)

  abbrev pub note_configuration :
      List Failure
      → Result (List (OperationRollbackFailure E LogicalTarget)) (Unit {0}) × S
      → List Failure × S
  note_configuration failures (ok u, s) = (failures, s)
  note_configuration failures (err kept, s) =
      (failures ++ (SkillLiveRollbackFailure.configuration_kept kept ∷ []), s)

  -- `rollback_configuration`
  unfoldable pub rollback_configuration :
      Option (OperationReceipt R LogicalTarget) → List Failure → S → List Failure × S
  unfolding rollback
  rollback_configuration none failures s = (failures, s)
  rollback_configuration (some receipt) failures s =
      note_configuration failures (rollback host receipt s)

  -- `rollback_parts`
  unfoldable pub rollback_parts :
      SkillWriteOrder
      → Option Receipt
      → Option (OperationReceipt R LogicalTarget)
      → S
      → Files
      → List Failure × S × Files
  unfolding rollback_reference rollback_configuration
  rollback_parts SkillWriteOrder.reference_then_configuration reference configuration s files =
      let (failures, s') = rollback_configuration configuration [] s in
      let (all, files') = rollback_reference reference failures files in (all, s', files')
  rollback_parts SkillWriteOrder.configuration_then_reference reference configuration s files =
      let (failures, files') = rollback_reference reference [] files in
      let (all, s') = rollback_configuration configuration failures s in (all, s', files')

  abbrev pub unless_kept : List Failure × S × Files → Result (List Failure) (Unit {0}) × S × Files
  unless_kept ([], s, files) = (ok tt, s, files)
  unless_kept (failure ∷ failures, s, files) = (err (failure ∷ failures), s, files)

  -- `SkillLiveReceipt::rollback`
  unfoldable pub rollback_live :
      SkillLiveReceipt Receipt R → S → Files → Result (List Failure) (Unit {0}) × S × Files
  unfolding rollback_parts
  rollback_live receipt s files =
      unless_kept
        (rollback_parts receipt.write_order receipt.reference receipt.configuration s files)

  abbrev commit_reference : Option Receipt → Files → Result ReferenceError (Unit {0}) × Files
  commit_reference none files = (ok tt, files)
  commit_reference (some receipt) files = references.verify receipt files

  -- `SkillLiveReceipt::commit`
  unfoldable pub commit_live :
      SkillLiveReceipt Receipt R → Files → Result ReferenceError (Unit {0}) × Files
  commit_live receipt files = commit_reference receipt.reference files

  -- `SkillLiveReceipt::is_empty`
  unfoldable pub is_empty_receipt : SkillLiveReceipt Receipt R → Bool
  is_empty_receipt receipt =
      not (is_present receipt.reference) && not (is_present receipt.configuration)

  abbrev pub LiveResult : Type 0
  LiveResult =
      Result (SkillLiveExecutionError ReferenceError E) (SkillLiveReceipt Receipt R) × S × Files

  abbrev pub live_error :
      SkillLiveFailure ReferenceError E
      → List Failure
      → Result (SkillLiveExecutionError ReferenceError E) (SkillLiveReceipt Receipt R)
  live_error failure failures = err (record { failure = failure; rollback_failures = failures })

  -- The configuration after the reference: a failure rolls the reference back.
  unfoldable pub then_configuration :
      Option Receipt
      → Files
      → Result (OperationExecutionError E LogicalTarget) (Option (OperationReceipt R LogicalTarget))
        × S
      → LiveResult
  unfolding rollback_reference
  then_configuration reference files (ok configuration, s) = (
    ok (record {
      write_order = SkillWriteOrder.reference_then_configuration;
      reference = reference;
      configuration = configuration;
    }),
    s,
    files,
  )
  then_configuration reference files (err failure, s) =
      let (failures, files') = rollback_reference reference [] files in
      (live_error (SkillLiveFailure.of_configuration failure) failures, s, files')

  -- The reference after the configuration: a failure rolls the configuration back.
  unfoldable pub then_reference :
      Option (OperationReceipt R LogicalTarget)
      → S
      → Result ReferenceError (Option Receipt) × Files
      → LiveResult
  unfolding rollback_configuration
  then_reference configuration s (ok reference, files) = (
    ok (record {
      write_order = SkillWriteOrder.configuration_then_reference;
      reference = reference;
      configuration = configuration;
    }),
    s,
    files,
  )
  then_reference configuration s (err failure, files) =
      let (failures, s') = rollback_configuration configuration [] s in
      (live_error (SkillLiveFailure.of_reference failure) failures, s', files)

  abbrev pub run_configuration :
      Option OperationPlan
      → S
      → Result (OperationExecutionError E LogicalTarget) (Option (OperationReceipt R LogicalTarget))
        × S
  run_configuration = try_each (execute_operation_plan digest host)

  abbrev pub reference_first :
      SkillSwitchPlan Plan → S → Result ReferenceError (Option Receipt) × Files → LiveResult
  reference_first plan s (ok reference, files) =
      then_configuration reference files (run_configuration plan.configuration s)
  reference_first plan s (err failure, files) =
      (live_error (SkillLiveFailure.of_reference failure) [], s, files)

  abbrev pub configuration_first :
      SkillSwitchPlan Plan
      → Files
      → Result (OperationExecutionError E LogicalTarget) (Option (OperationReceipt R LogicalTarget))
        × S
      → LiveResult
  configuration_first plan files (ok configuration, s) =
      then_reference configuration s (try_each references.apply plan.reference files)
  configuration_first plan files (err failure, s) =
      (live_error (SkillLiveFailure.of_configuration failure) [], s, files)

  abbrev pub live_in_order : SkillWriteOrder → SkillSwitchPlan Plan → S → Files → LiveResult
  live_in_order SkillWriteOrder.reference_then_configuration plan s files =
      reference_first plan s (try_each references.apply plan.reference files)
  live_in_order SkillWriteOrder.configuration_then_reference plan s files =
      configuration_first plan files (run_configuration plan.configuration s)

  unfoldable pub execute_skill_live_plan : SkillSwitchPlan Plan → S → Files → LiveResult
  unfolding then_configuration then_reference execute_operation_plan
  execute_skill_live_plan plan s files = live_in_order plan.write_order plan s files
