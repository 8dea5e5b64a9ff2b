-- ===== src/Operation/Acceptance.antt =====
-- Validation of a plan by its own application identifier (src/operation.rs).
use cc_switch_core.Base.{
  nat_eq, list_eq, option_eq, string_eq, ℕ, ◌≡◌, refl, sym, ap, ◌∙◌, ◌↔◌, Option, none, some, ok,
  ◌==◌, find,
}
use cc_switch_core.App.{AppType, claude}
use cc_switch_core.Registry.Catalog.{AppDescriptor, descriptors, descriptor_for, as_str}
use cc_switch_core.Registry.Lookup.{integration_in_bounds}
use cc_switch_core.Operation.Plan.{
  OperationPlan, validate_plan_with_content_limit, validate_with_content_limit, with_descriptor,
}
use cc_switch_core.Operation.Validation.{
  IsValidFor, validate_for_iff, validate_plan-eq-validate_for,
}

-- The identifier of an application leads to its descriptor.
find_id : (a : AppType) → find (λ d. d.id == as_str a) descriptors ≡ some (descriptor_for a)
unfolding as_str
find_id claude = refl
find_id _ = refl

by_descriptor :
    (plan : OperationPlan) (maximum : ℕ) (o : Option AppDescriptor)
    → with_descriptor plan maximum o ≡ ok tt
    → (d : AppDescriptor) × (o ≡ some d) × IsValidFor d.app maximum plan
by_descriptor plan maximum none h = cc
by_descriptor plan maximum (some d) h = (
  d,
  refl,
  (validate_for_iff plan d.app maximum).0
      (sym (validate_plan-eq-validate_for d.app plan maximum) ∙ h),
)

-- A plan is accepted exactly when it is a valid plan of some built-in application.
pub validate_with_content_limit_iff :
    (plan : OperationPlan) (maximum : ℕ)
    → (validate_with_content_limit plan maximum ≡ ok tt)
      ↔ ((a : AppType) × IsValidFor a maximum plan)
unfolding validate_with_content_limit
validate_with_content_limit_iff plan maximum = (
  λ h.
      let (d, e, v) = by_descriptor plan maximum (find (λ d. d.id == plan.app_id) descriptors) h in
      (d.app, v),
  λ (a, v).
      let found : find (λ d. d.id == plan.app_id) descriptors ≡ some (descriptor_for a) =
        ap (λ id. find (λ d. d.id == id) descriptors) v.owner ∙ find_id a in
      ap (with_descriptor plan maximum) found
      ∙ (ap (λ b. validate_plan_with_content_limit b plan maximum) (integration_in_bounds a).1
          ∙ (validate_plan-eq-validate_for a plan maximum ∙ (validate_for_iff plan a maximum).1 v)),
)
