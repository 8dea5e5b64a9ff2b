-- ===== src/Skill/Examples.antt =====
-- Tests of the models of src/skill/catalog.rs and src/skill/write.rs, and their theorems at concrete
-- inputs, on hosts in memory.
use cc_switch_core.Base.{
  nat_eq, list_eq, option_eq, string_eq, ℕ, ◌≡◌, refl, ◌↔◌, Bool, true, false, none, some, List, [],
  ◌∷◌, map, ok, if◌then◌else◌,
}
use cc_switch_core.Base.{contains}
use cc_switch_core.Text.{Bytes, codes, trim, trim_start, trim_end, is_whitespace}
use cc_switch_core.Text.Search.{starts_with, ends_with, strip_prefix}
use cc_switch_core.App.{app_beq, app_eq, AppType}
use cc_switch_core.App.Target.{
  codex_config, app, allows_removal, target_beq, target_eq, target_index,
}
use cc_switch_core.Registry.Catalog.{as_str}
use cc_switch_core.Registry.Targets.{targets_of}
use cc_switch_core.Operation.Digest.{missing, matches}
use cc_switch_core.Operation.Plan.{
  OperationPlan, validate_with_content_limit, validate_plan_with_content_limit, validate_for,
  check_writes, check_write, exceeds, is_removal, is_malformed,
}
use cc_switch_core.Executor.Types.{OperationFailure, best_effort, is_noop}
use cc_switch_core.Executor.Prepare.{resolve_writes, observe_writes, read_for_execution}
use cc_switch_core.Executor.Rollback.{
  after_conflict, restore, rollback_one, rollback_loop, rollback_applied, failure_with_rollback,
}
use cc_switch_core.Executor.Receipt.{rollback}
use cc_switch_core.Executor.Run.{
  after_exchange, apply_writes, execute_writes, execute_operation_plan_with_rollback,
  execute_operation_plan, execute_operation_plan_with_content_limit,
}
use cc_switch_core.Executor.Memory.{Memory, plan_host, plan_host-IsHost}
use cc_switch_core.Skill.Catalog.{
  Column, SkillCatalogEntry, selected_column, supply_columns, order_columns, try_new_entry,
  skill_catalog_columns, is_refused_directory, validate_text, validate_directory,
  is_single_component, byte_length, is_windows_reserved_directory, columns_of, catalog_column,
}
use cc_switch_core.Skill.Switch.{
  SkillWriteOrder, SkillSwitchPlan, SkillCatalogDecision, identity_matches, decide_catalog,
}
use cc_switch_core.Skill.CatalogLaws.{
  try_new_entry-ok, decide_catalog_iff, IsRow, ShowsDone, ShowsUndone,
}
use cc_switch_core.Skill.Live.{
  References, SkillLiveFailure, SkillLiveExecutionError, SkillLiveReceipt, then_configuration,
  then_reference, execute_skill_live_plan, rollback_parts, rollback_live, rollback_reference,
  rollback_configuration, LiveResult,
}
use cc_switch_core.Skill.LiveLaws.{RolledBack}
use cc_switch_core.Skill.Atomic.{
  FilesAfter, Applied, execute_skill_live_plan-atomic, rollback_live-undoes,
}

refused :
    (is_refused_directory (codes "a/b") ≡ true)
    × (is_refused_directory (codes "com1.txt") ≡ true)
    × (is_refused_directory (codes "..") ≡ true)
    × (is_refused_directory (codes "review-code") ≡ false)
unfolding is_refused_directory is_single_component byte_length is_windows_reserved_directory trim
    trim_start trim_end is_whitespace starts_with ends_with strip_prefix
refused = (refl, refl, refl, refl)

abbrev selections : List (Column × Bool)
selections =
    (codes "enabled_pi", true)
    ∷ (codes "enabled_claude", true)
    ∷ (codes "enabled_codex", false)
    ∷ (codes "enabled_gemini", false)
    ∷ (codes "enabled_grokbuild", false)
    ∷ (codes "enabled_opencode", false)
    ∷ (codes "enabled_hermes", false)
    ∷ []

abbrev row : SkillCatalogEntry
row = record {
  id = codes "s1";
  name = codes "Review";
  description = none;
  directory = codes "review";
  selections =
      (codes "enabled_claude", true)
      ∷ (codes "enabled_codex", false)
      ∷ (codes "enabled_gemini", false)
      ∷ (codes "enabled_grokbuild", false)
      ∷ (codes "enabled_opencode", false)
      ∷ (codes "enabled_hermes", false)
      ∷ (codes "enabled_pi", true)
      ∷ [];
}

row_accepted : try_new_entry (codes "s1") (codes "Review") none (codes "review") selections ≡ ok row
unfolding try_new_entry validate_text validate_directory supply_columns order_columns
    skill_catalog_columns columns_of catalog_column is_refused_directory is_single_component
    byte_length is_windows_reserved_directory trim trim_start trim_end is_whitespace starts_with
    ends_with strip_prefix
row_accepted = refl

-- References that remember only whether the skill is shown
abbrev references : References Bool Bool (Unit {0}) Bool
references = record {
  apply = λ plan shown. (ok shown, plan);
  restore = λ receipt shown. (ok tt, receipt);
  verify = λ receipt shown. (ok tt, shown);
}

abbrev same_bytes : Bytes → Bytes
same_bytes c = c

abbrev no_documents : Memory
no_documents = record { documents = λ r. none; exchanges = 0 }

abbrev creating : OperationPlan
creating = record {
  contract_major = 1;
  app_id = codes "codex";
  writes =
      record { target = codex_config; expected = missing; contents = some (codes "m = 1") } ∷ [];
}

abbrev switching : SkillSwitchPlan Bool
switching = record {
  app = AppType.codex;
  target_enabled = true;
  write_order = SkillWriteOrder.reference_then_configuration;
  catalog_guard = record {
    skill_id = codes "s1";
    expected_name = codes "Review";
    expected_directory = codes "review";
    expected_selection = some (codes "enabled_codex", true);
  };
  reference = some true;
  configuration = some creating;
  catalog_change = some (record {
    skill_id = codes "s1";
    column = codes "enabled_codex";
    expected = true;
    replacement = false;
  });
}

abbrev run : ℕ → LiveResult same_bytes (plan_host 0) references
run fail_at =
    execute_skill_live_plan same_bytes (plan_host fail_at) references switching no_documents false

abbrev failed : SkillLiveExecutionError (Unit {0}) (Unit {0})
failed = record {
  failure =
      SkillLiveFailure.of_configuration (record {
        failure = OperationFailure.write_failed codex_config tt;
        rollback_failures = [];
      });
  rollback_failures = [];
}

abbrev applied : SkillLiveReceipt Bool ℕ
applied = record {
  write_order = SkillWriteOrder.reference_then_configuration;
  reference = some false;
  configuration = some (record {
    applied =
        record {
          target = codex_config;
          resource = 6;
          original = none;
          written = some (codes "m = 1");
        }
        ∷ [];
    rollback_behavior = best_effort;
    maximum_content_bytes = 1048576;
  });
}

try_new_entry-ok_example :
    (map (λ s. s.0) row.selections ≡ skill_catalog_columns)
    × ((column : Column)
        → selected_column row.selections column ≡ (
            if contains skill_catalog_columns column
            then selected_column selections column
            else none))
    × (is_refused_directory (codes "review") ≡ false)
    × (row.id ≡ codes "s1")
    × (row.name ≡ codes "Review")
    × (row.directory ≡ codes "review")
try_new_entry-ok_example =
    try_new_entry-ok (codes "s1") (codes "Review") none (codes "review") selections row row_accepted

decide_catalog_iff_example :
    ((decide_catalog switching (some row) ≡ SkillCatalogDecision.keep_live)
      ↔ IsRow switching
          (some row)
          (λ entry. ShowsDone switching.catalog_guard entry switching.catalog_change))
    × ((decide_catalog switching (some row) ≡ SkillCatalogDecision.restore_live)
        ↔ IsRow switching (some row) (λ entry. ShowsUndone entry switching.catalog_change))
decide_catalog_iff_example = decide_catalog_iff switching (some row)

decided : decide_catalog switching (some row) ≡ SkillCatalogDecision.keep_live
unfolding decide_catalog identity_matches
decided = refl

execute_skill_live_plan-atomic_example :
    ((q : ℕ) → (run 1).1.documents q ≡ none)
    × FilesAfter same_bytes
        (plan_host 1)
        (λ s. s.documents)
        target_index
        (plan_host-IsHost 1)
        references
        switching
        failed.failure
        false
        (run 1).2
unfolding execute_skill_live_plan then_configuration then_reference execute_operation_plan
    execute_operation_plan_with_content_limit rollback_live rollback_parts rollback_reference
    rollback_configuration rollback execute_operation_plan_with_rollback validate_with_content_limit
    validate_plan_with_content_limit validate_for check_writes check_write exceeds is_removal
    is_malformed as_str app allows_removal target_beq app_beq targets_of execute_writes
    resolve_writes observe_writes read_for_execution apply_writes after_exchange
    failure_with_rollback rollback_applied rollback_loop rollback_one restore after_conflict matches
    is_noop target_index
execute_skill_live_plan-atomic_example =
    execute_skill_live_plan-atomic same_bytes (plan_host 1) (λ s. s.documents) target_index
      (plan_host-IsHost 1) references switching no_documents (run 1).1 false (run 1).2 failed refl
      refl refl

rollback_live-undoes_example :
    ((q : ℕ)
      → (rollback_live same_bytes (plan_host 0) references applied (run 0).1 (run 0).2).1.documents
          q
        ≡ none)
    × Applied same_bytes
        (plan_host 0)
        (λ s. s.documents)
        target_index
        (plan_host-IsHost 0)
        references
        switching.reference
        applied.reference
        false
        (run 0).2
    × RolledBack same_bytes
        (plan_host 0)
        (λ s. s.documents)
        target_index
        (plan_host-IsHost 0)
        references
        applied.reference
        (run 0).2
        (rollback_live same_bytes (plan_host 0) references applied (run 0).1 (run 0).2).2
unfolding execute_skill_live_plan then_configuration then_reference execute_operation_plan
    execute_operation_plan_with_content_limit rollback_live rollback_parts rollback_reference
    rollback_configuration rollback execute_operation_plan_with_rollback validate_with_content_limit
    validate_plan_with_content_limit validate_for check_writes check_write exceeds is_removal
    is_malformed as_str app allows_removal target_beq app_beq targets_of execute_writes
    resolve_writes observe_writes read_for_execution apply_writes after_exchange
    failure_with_rollback rollback_applied rollback_loop rollback_one restore after_conflict matches
    is_noop target_index
rollback_live-undoes_example =
    rollback_live-undoes same_bytes (plan_host 0) (λ s. s.documents) target_index
      (plan_host-IsHost 0) references switching no_documents (run 0).1 (run 0).1
      (rollback_live same_bytes (plan_host 0) references applied (run 0).1 (run 0).2).1 false
      (run 0).2 (run 0).2
      (rollback_live same_bytes (plan_host 0) references applied (run 0).1 (run 0).2).2 applied refl
      (λ q. refl) refl
