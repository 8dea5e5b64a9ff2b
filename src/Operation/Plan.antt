-- ===== src/Operation/Plan.antt =====
-- `OperationPlan`, its validation and its bounded decoding (src/operation.rs), with the adapter's
-- part of the validation (src/adapter.rs).
use cc_switch_core.Base.{
  nat_eq, list_eq, option_eq, string_eq, ℕ, ◌+◌, ◌*◌, Bool, true, false, not, ◌&&◌, Option, none,
  some, List, [], ◌∷◌, map, Result, ok, err, ◌>>=◌, ◌==◌, if◌then◌else◌, length, ltb, contains,
  is_empty, find,
}
use cc_switch_core.Text.{Text, Bytes}
use cc_switch_core.App.{AppType, app_eq}
use cc_switch_core.App.Target.{LogicalTarget, app, allows_removal, target_eq}
use cc_switch_core.Registry.Catalog.{AppDescriptor, descriptors, as_str}
use cc_switch_core.Registry.Targets.{targets_of}
use cc_switch_core.Operation.Digest.{ContentExpectation, missing, sha256_digest, valid_sha256}

abbrev pub operation_contract_major : ℕ
operation_contract_major = 1

abbrev pub max_operation_writes : ℕ
max_operation_writes = 4

abbrev pub max_operation_content_bytes : ℕ
max_operation_content_bytes = 1024 * 1024

abbrev pub max_operation_plan_wire_bytes : ℕ
max_operation_plan_wire_bytes = max_operation_writes * (max_operation_content_bytes * 6 + 4096)

pub record PlannedWrite : Type 0 where
  pub target : LogicalTarget
  pub expected : ContentExpectation
  pub contents : Option Bytes

pub record OperationPlan : Type 0 where
  pub contract_major : ℕ
  pub app_id : Text
  pub writes : List PlannedWrite

pub data OperationPlanError : Type 0 where
  unsupported_contract : ℕ → OperationPlanError
  unknown_app : Text → OperationPlanError
  wrong_app : Text → Text → OperationPlanError
  empty : OperationPlanError
  too_many_writes : ℕ → OperationPlanError
  cross_app_target : LogicalTarget → OperationPlanError
  duplicate_target : LogicalTarget → OperationPlanError
  undeclared_target : LogicalTarget → OperationPlanError
  content_too_large : LogicalTarget → ℕ → OperationPlanError
  removal_not_allowed : LogicalTarget → OperationPlanError
  malformed_digest : LogicalTarget → OperationPlanError

unfoldable pub exceeds : ℕ → Option Bytes → Bool
exceeds maximum (some contents) = ltb maximum (length contents)
exceeds maximum none = false

unfoldable pub is_removal : Option Bytes → Bool
is_removal (some contents) = false
is_removal none = true

unfoldable pub is_malformed : ContentExpectation → Bool
is_malformed (sha256_digest digest) = not (valid_sha256 digest)
is_malformed missing = false

-- The body of the loop in `validate_for`; `seen` holds the targets of the earlier writes.
unfoldable pub check_write :
    AppType → ℕ → List LogicalTarget → PlannedWrite → Result OperationPlanError (Unit {0})
check_write a maximum seen w =
    if not (app w.target == a)
    then err (cross_app_target w.target)
    else if contains seen w.target
    then err (duplicate_target w.target)
    else if exceeds maximum w.contents
    then err (content_too_large w.target maximum)
    else if is_removal w.contents && not (allows_removal w.target)
    then err (removal_not_allowed w.target)
    else if is_malformed w.expected
    then err (malformed_digest w.target)
    else ok tt

unfoldable pub check_writes :
    AppType → ℕ → List LogicalTarget → List PlannedWrite → Result OperationPlanError (Unit {0})
check_writes a maximum seen [] = ok tt
check_writes a maximum seen (w ∷ ws) =
    check_write a maximum seen w >>= λ _. check_writes a maximum (w.target ∷ seen) ws

-- `OperationPlan::validate_for`
unfoldable pub validate_for : OperationPlan → AppType → ℕ → Result OperationPlanError (Unit {0})
validate_for plan a maximum =
    if not (plan.contract_major == operation_contract_major)
    then err (unsupported_contract plan.contract_major)
    else if not (plan.app_id == as_str a)
    then err (wrong_app (as_str a) plan.app_id)
    else if is_empty plan.writes
    then err empty
    else if ltb max_operation_writes (length plan.writes)
    then err (too_many_writes max_operation_writes)
    else check_writes a maximum [] plan.writes

abbrev pub reject_undeclared : Option LogicalTarget → Result OperationPlanError (Unit {0})
reject_undeclared (some target) = err (undeclared_target target)
reject_undeclared none = ok tt

-- `AppAdapter::validate_plan_with_content_limit`
unfoldable pub validate_plan_with_content_limit :
    AppType → OperationPlan → ℕ → Result OperationPlanError (Unit {0})
validate_plan_with_content_limit a plan maximum = validate_for plan a maximum >>= λ _.
    reject_undeclared
      (find (λ target. not (contains (targets_of a) target)) (map (λ w. w.target) plan.writes))

abbrev pub with_descriptor :
    OperationPlan → ℕ → Option AppDescriptor → Result OperationPlanError (Unit {0})
with_descriptor plan maximum (some descriptor) =
    validate_plan_with_content_limit descriptor.app plan maximum
with_descriptor plan maximum none = err (unknown_app plan.app_id)

-- `OperationPlan::validate_with_content_limit`
unfoldable pub validate_with_content_limit :
    OperationPlan → ℕ → Result OperationPlanError (Unit {0})
validate_with_content_limit plan maximum =
    with_descriptor plan maximum (find (λ descriptor. descriptor.id == plan.app_id) descriptors)

-- `OperationPlan::validate`
unfoldable pub validate : OperationPlan → Result OperationPlanError (Unit {0})
validate plan = validate_with_content_limit plan max_operation_content_bytes
