-- ===== src/Skill/Switch.antt =====
-- The plan that switches a skill for an application, and the decision on its live changes from the
-- catalog's row (src/skill/write.rs).
use cc_switch_core.Base.{
  nat_eq, list_eq, option_eq, string_eq, Bool, true, false, not, ◌&&◌, Option, none, some, ◌==◌,
  if◌then◌else◌,
}
use cc_switch_core.Text.{Text}
use cc_switch_core.App.{AppType}
use cc_switch_core.Operation.Plan.{OperationPlan}
use cc_switch_core.Skill.Catalog.{Column, SkillCatalogEntry, selected_column}

pub data SkillWriteOrder : Type 0 where
  reference_then_configuration configuration_then_reference : SkillWriteOrder

pub record SkillCatalogGuard : Type 0 where
  pub skill_id : Text
  pub expected_name : Text
  pub expected_directory : Text
  pub expected_selection : Option (Column × Bool)

pub record SkillCatalogChange : Type 0 where
  pub skill_id : Text
  pub column : Column
  pub expected : Bool
  pub replacement : Bool

-- The type of a reference's plan is an argument: src/skill/reference.rs declares it.
pub record SkillSwitchPlan (ReferencePlan : Type 0) : Type 0 where
  pub app : AppType
  pub target_enabled : Bool
  pub write_order : SkillWriteOrder
  pub catalog_guard : SkillCatalogGuard
  pub reference : Option ReferencePlan
  pub configuration : Option OperationPlan
  pub catalog_change : Option SkillCatalogChange

pub data SkillCatalogDecision : Type 0 where
  keep_live restore_live conflict : SkillCatalogDecision

abbrev pub bool_beq : Bool → Bool → Bool
bool_beq true b = b
bool_beq false b = not b

-- `selected == Some(expected)`
abbrev pub is_selection : Option Bool → Bool → Bool
is_selection none expected = false
is_selection (some selected) expected = bool_beq selected expected

-- `SkillCatalogGuard::identity_matches`
unfoldable pub identity_matches : SkillCatalogGuard → SkillCatalogEntry → Bool
identity_matches guard entry =
    entry.id == guard.skill_id
    && entry.name == guard.expected_name
    && entry.directory == guard.expected_directory

abbrev pub selection_matches : Option (Column × Bool) → SkillCatalogEntry → Bool
selection_matches none entry = true
selection_matches (some (column, expected)) entry =
    is_selection (selected_column entry.selections column) expected

-- `SkillCatalogGuard::matches`
unfoldable pub guard_matches : SkillCatalogGuard → SkillCatalogEntry → Bool
unfolding identity_matches
guard_matches guard entry =
    identity_matches guard entry && selection_matches guard.expected_selection entry

abbrev pub is_present {ℓ} : {A : Type ℓ} → Option A → Bool
is_present none = false
is_present (some a) = true

-- What a row with the guarded identity says of a change, or of none.
abbrev pub decide_change :
    SkillCatalogGuard → SkillCatalogEntry → Option SkillCatalogChange → SkillCatalogDecision
decide_change guard entry (some change) =
    let selected = selected_column entry.selections change.column in
    if is_selection selected change.replacement
    then SkillCatalogDecision.keep_live
    else if is_selection selected change.expected
    then SkillCatalogDecision.restore_live
    else SkillCatalogDecision.conflict
decide_change guard entry none =
    if guard_matches guard entry
    then SkillCatalogDecision.keep_live
    else SkillCatalogDecision.conflict

module _ {ReferencePlan : Type 0} where
  -- `SkillSwitchPlan::is_live_noop`
  unfoldable pub is_live_noop : SkillSwitchPlan ReferencePlan → Bool
  is_live_noop plan = not (is_present plan.reference) && not (is_present plan.configuration)

  -- `SkillSwitchPlan::decide_catalog`
  unfoldable pub decide_catalog :
      SkillSwitchPlan ReferencePlan → Option SkillCatalogEntry → SkillCatalogDecision
  unfolding identity_matches guard_matches
  decide_catalog plan none = SkillCatalogDecision.conflict
  decide_catalog plan (some entry) =
      if identity_matches plan.catalog_guard entry
      then decide_change plan.catalog_guard entry plan.catalog_change
      else SkillCatalogDecision.conflict
