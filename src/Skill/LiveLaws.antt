-- ===== src/Skill/LiveLaws.antt =====
-- The parts of the rollback of a skill's live changes (src/skill/write.rs).
use cc_switch_core.Base.{
  nat_eq, list_eq, option_eq, string_eq, ◌≡◌, refl, ap, ◌∙◌, inl, inr, Option, none, some, List, [],
  ◌∷◌, ◌++◌, Result, ok, err, Eq, some-injective,
}
use cc_switch_core.Text.{Bytes}
use cc_switch_core.App.Target.{LogicalTarget}
use cc_switch_core.Operation.Plan.{OperationPlan, max_operation_content_bytes}
use cc_switch_core.Executor.Host.{OperationHost, IsHost}
use cc_switch_core.Executor.Types.{OperationReceipt, OperationRollbackFailure, best_effort}
use cc_switch_core.Executor.Run.{execute_operation_plan, execute_operation_plan_with_content_limit}
use cc_switch_core.Executor.Receipt.{rollback}
use cc_switch_core.Executor.Plans.{execute_plan-undoes}
use cc_switch_core.Skill.Steps.{Done}
use cc_switch_core.Skill.Live.{
  References, SkillLiveRollbackFailure, rollback_reference, note_reference, note_configuration,
  rollback_configuration,
}

append-ne-nil {ℓ} : {A : Type ℓ} (l : List A) (x : A) → ¬ (l ++ (x ∷ []) ≡ [])
append-ne-nil [] x h = cc h
append-ne-nil (y ∷ l) x h = cc h

module _ {Plan Receipt ReferenceError Files R E S : Type 0} ⦃same_resource : Eq R⦄
    (digest : Bytes → Bytes) (host : OperationHost LogicalTarget R E S)
    (docs : S → R → Option Bytes) (locate : LogicalTarget → R) (law : IsHost host docs locate)
    (references : References Plan Receipt ReferenceError Files) where
  abbrev Failures : Type 0
  Failures = List (SkillLiveRollbackFailure ReferenceError E)

  noted_reference :
      (failures : Failures) (r : Result ReferenceError (Unit {0}) × Files)
      → (note_reference digest host references failures r).0 ≡ []
      → (failures ≡ []) × (r ≡ (ok tt, (note_reference digest host references failures r).1))
  noted_reference failures (ok u, files) h = (h, refl)
  noted_reference failures (err e, files) h = absurd (append-ne-nil failures _ h)

  -- The receipt's own rollback succeeded, from these files to those; without a reference, nothing
  -- was done.
  abbrev pub RolledBack : Option Receipt → Files → Files → Type 0
  RolledBack none before after = after ≡ before
  RolledBack (some receipt) before after = references.restore receipt before ≡ (ok tt, after)

  pub rollback_reference-RolledBack :
      (reference : Option Receipt) (failures : Failures) (files : Files)
      → (rollback_reference digest host references reference failures files).0 ≡ []
      → (failures ≡ [])
        × RolledBack reference files
            (rollback_reference digest host references reference failures files).1
  unfolding rollback_reference
  rollback_reference-RolledBack none failures files h = (h, refl)
  rollback_reference-RolledBack (some receipt) failures files h =
      noted_reference failures (references.restore receipt files) h

  noted_configuration :
      (failures : Failures)
      (r : Result (List (OperationRollbackFailure E LogicalTarget)) (Unit {0}) × S)
      → (note_configuration digest host references failures r).0 ≡ []
      → (failures ≡ []) × (r ≡ (ok tt, (note_configuration digest host references failures r).1))
  noted_configuration failures (ok u, s) h = (h, refl)
  noted_configuration failures (err e, s) h = absurd (append-ne-nil failures _ h)

  pub rollback_configuration-restores :
      (plan : Option OperationPlan) (configuration : Option (OperationReceipt R LogicalTarget))
      (failures : Failures) (before after later : S)
      → Done (execute_operation_plan digest host) plan before after configuration
      → ((q : R) → docs later q ≡ docs after q)
      → (rollback_configuration digest host references configuration failures later).0 ≡ []
      → (failures ≡ [])
        × ((q : R)
            → docs (rollback_configuration digest host references configuration failures later).1 q
              ≡ docs before q)
  unfolding rollback_configuration execute_operation_plan execute_operation_plan_with_content_limit
  rollback_configuration-restores asked none failures before after later (inl (_, e, same)) kept h =
      (h, λ q. kept q ∙ ap (λ s. docs s q) same)
  rollback_configuration-restores asked none failures before after later (inr (plan, b, _, run, e))
        kept h =
      cc e
  rollback_configuration-restores asked (some receipt) failures before after later
        (inl (_, e, same)) kept h =
      cc e
  rollback_configuration-restores asked (some receipt) failures before after later
        (inr (plan, b, _, run, e)) kept h =
      let (clean, restored) = noted_configuration failures (rollback host receipt later) h in
      (
        clean,
        execute_plan-undoes digest host best_effort max_operation_content_bytes docs locate law plan
            before after receipt later _ (rw (some-injective e) run) kept restored,
      )
