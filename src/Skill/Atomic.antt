-- ===== src/Skill/Atomic.antt =====
-- The execution of a skill's live changes and their rollback as a whole (src/skill/write.rs).
use cc_switch_core.Base.{
  nat_eq, list_eq, option_eq, string_eq, ◌≡◌, refl, sym, ap, subst, ◌∙◌, Option, List, [], ◌∷◌,
  Result, ok, err, Eq,
}
use cc_switch_core.Text.{Bytes}
use cc_switch_core.App.Target.{LogicalTarget}
use cc_switch_core.Operation.Plan.{max_operation_content_bytes, OperationPlan}
use cc_switch_core.Executor.Host.{OperationHost, IsHost}
use cc_switch_core.Executor.Types.{OperationReceipt, best_effort, OperationExecutionError}
use cc_switch_core.Executor.Run.{execute_operation_plan, execute_operation_plan_with_content_limit}
use cc_switch_core.Executor.Plans.{execute_plan-atomic}
use cc_switch_core.Skill.Steps.{Done, Failed, try_each-err, try_each-ok}
use cc_switch_core.Skill.Live.{
  rollback_reference, rollback_configuration, References, SkillLiveRollbackFailure,
  rollback_reference, rollback_configuration, SkillLiveExecutionError, SkillLiveReceipt,
  SkillLiveFailure, LiveResult, try_each, run_configuration, reference_first, configuration_first,
  then_configuration, then_reference, execute_skill_live_plan, live_in_order, rollback_parts,
  rollback_live, unless_kept,
}
use cc_switch_core.Skill.LiveLaws.{
  RolledBack, rollback_reference-RolledBack, rollback_configuration-restores,
}
use cc_switch_core.Skill.Switch.{SkillWriteOrder, SkillSwitchPlan}

module _ {Plan Receipt ReferenceError Files R E S : Type 0} ⦃same_resource : Eq R⦄
    (digest : Bytes → Bytes) (host : OperationHost LogicalTarget R E S)
    (docs : S → R → Option Bytes) (locate : LogicalTarget → R) (law : IsHost host docs locate)
    (references : References Plan Receipt ReferenceError Files) where
  -- A failed configuration left nothing of its own to repair.
  abbrev pub IsClean : SkillLiveFailure ReferenceError E → Type 0
  IsClean (SkillLiveFailure.of_reference e) = Unit
  IsClean (SkillLiveFailure.of_configuration e) = e.rollback_failures ≡ []

  abbrev Live : Type 0
  Live = LiveResult digest host references

  abbrev pub Applied : Option Plan → Option Receipt → Files → Files → Type 0
  Applied plan reference before after = Done references.apply plan before after reference

  abbrev Executed :
      Option OperationPlan → Option (OperationReceipt R LogicalTarget) → S → S → Type 0
  Executed plan configuration before after =
      Done (execute_operation_plan digest host) plan before after configuration

  -- A reference was applied, if one was asked for, and its own rollback succeeded.
  abbrev pub Reverted : Option Plan → Files → Files → Type 0
  Reverted plan before after =
      (reference : Option Receipt) × (middle : Files) × Applied plan reference before middle
      × RolledBack digest host docs locate law references reference middle after

  abbrev pub AfterConfiguration : SkillWriteOrder → Option Plan → Files → Files → Type 0
  AfterConfiguration SkillWriteOrder.reference_then_configuration plan before after =
      Reverted plan before after
  AfterConfiguration SkillWriteOrder.configuration_then_reference plan before after = after ≡ before

  -- The files after a failure: those that the failed reference left, or, if it was the configuration
  -- that failed, those before it, or those of the applied reference's rollback.
  abbrev pub FilesAfter :
      SkillSwitchPlan Plan → SkillLiveFailure ReferenceError E → Files → Files → Type 0
  FilesAfter plan (SkillLiveFailure.of_reference e) before after =
      Failed references.apply plan.reference before after e
  FilesAfter plan (SkillLiveFailure.of_configuration e) before after =
      AfterConfiguration plan.write_order plan.reference before after

  abbrev Outcome : SkillSwitchPlan Plan → S → Files → Live → Type 0
  Outcome plan s files (ok receipt, s', files') =
      Applied plan.reference receipt.reference files files'
      × Executed plan.configuration receipt.configuration s s'
  Outcome plan s files (err e, s', files') =
      e.rollback_failures ≡ []
      → IsClean e.failure
      → ((q : R) → docs s' q ≡ docs s q) × FilesAfter plan e.failure files files'

  configuration-kept :
      (plan : Option OperationPlan) (s s' : S) (e : OperationExecutionError E LogicalTarget)
      → run_configuration digest host references plan s ≡ (err e, s')
      → e.rollback_failures ≡ []
      → (q : R) → docs s' q ≡ docs s q
  unfolding execute_operation_plan execute_operation_plan_with_content_limit
  configuration-kept plan s s' e run =
      let (p, _, failed) = try_each-err (execute_operation_plan digest host) plan s s' e run in
      execute_plan-atomic digest host best_effort max_operation_content_bytes docs locate law p s s'
        e failed

  then_configuration-Outcome :
      (plan : SkillSwitchPlan Plan) (s : S) (before files : Files) (reference : Option Receipt)
      (r : Result
          (OperationExecutionError E LogicalTarget)
          (Option (OperationReceipt R LogicalTarget))
        × S)
      → plan.write_order ≡ SkillWriteOrder.reference_then_configuration
      → Applied plan.reference reference before files
      → run_configuration digest host references plan.configuration s ≡ r
      → Outcome plan s before (then_configuration digest host references reference files r)
  unfolding then_configuration
  then_configuration-Outcome plan s before files reference (ok configuration, s') order applied
        run =
      (
        applied,
        try_each-ok (execute_operation_plan digest host) plan.configuration s s' configuration run,
      )
  then_configuration-Outcome plan s before files reference (err e, s') order applied run =
      λ clean tidy. (
        configuration-kept plan.configuration s s' e run tidy,
        rw order (
          reference,
          files,
          applied,
          (rollback_reference-RolledBack digest host docs locate law references reference [] files
              clean).1,
        ),
      )

  then_reference-Outcome :
      (plan : SkillSwitchPlan Plan) (before s : S) (files : Files)
      (configuration : Option (OperationReceipt R LogicalTarget))
      (r : Result ReferenceError (Option Receipt) × Files)
      → Executed plan.configuration configuration before s
      → try_each references.apply plan.reference files ≡ r
      → Outcome plan before files (then_reference digest host references configuration s r)
  unfolding then_reference
  then_reference-Outcome plan before s files configuration (ok reference, files') executed run =
      (try_each-ok references.apply plan.reference files files' reference run, executed)
  then_reference-Outcome plan before s files configuration (err e, files') executed run =
      λ clean tidy. (
        (rollback_configuration-restores digest host docs locate law references plan.configuration
            configuration [] before s s executed (λ q. refl) clean).1,
        try_each-err references.apply plan.reference files files' e run,
      )

  reference_first-Outcome :
      (plan : SkillSwitchPlan Plan) (s : S) (files : Files)
      (r : Result ReferenceError (Option Receipt) × Files)
      → plan.write_order ≡ SkillWriteOrder.reference_then_configuration
      → try_each references.apply plan.reference files ≡ r
      → Outcome plan s files (reference_first digest host references plan s r)
  reference_first-Outcome plan s files (ok reference, files') order run =
      then_configuration-Outcome plan s files files' reference _ order
        (try_each-ok references.apply plan.reference files files' reference run) refl
  reference_first-Outcome plan s files (err e, files') order run =
      λ clean tidy. (λ q. refl, try_each-err references.apply plan.reference files files' e run)

  configuration_first-Outcome :
      (plan : SkillSwitchPlan Plan) (s : S) (files : Files)
      (r : Result
          (OperationExecutionError E LogicalTarget)
          (Option (OperationReceipt R LogicalTarget))
        × S)
      → plan.write_order ≡ SkillWriteOrder.configuration_then_reference
      → run_configuration digest host references plan.configuration s ≡ r
      → Outcome plan s files (configuration_first digest host references plan files r)
  configuration_first-Outcome plan s files (ok configuration, s') order run =
      then_reference-Outcome plan s s' files configuration _
        (try_each-ok (execute_operation_plan digest host) plan.configuration s s' configuration run)
        refl
  configuration_first-Outcome plan s files (err e, s') order run =
      λ clean tidy. (configuration-kept plan.configuration s s' e run tidy, rw order refl)

  in_order-Outcome :
      (order : SkillWriteOrder) (plan : SkillSwitchPlan Plan) (s : S) (files : Files)
      → plan.write_order ≡ order
      → Outcome plan s files (live_in_order digest host references order plan s files)
  in_order-Outcome SkillWriteOrder.reference_then_configuration plan s files e =
      reference_first-Outcome plan s files _ e refl
  in_order-Outcome SkillWriteOrder.configuration_then_reference plan s files e =
      configuration_first-Outcome plan s files _ e refl

  execute-Outcome :
      (plan : SkillSwitchPlan Plan) (s : S) (files : Files)
      → Outcome plan s files (execute_skill_live_plan digest host references plan s files)
  unfolding execute_skill_live_plan
  execute-Outcome plan s files = in_order-Outcome plan.write_order plan s files refl

  -- An execution that fails, with its rollbacks reported as complete, leaves every document as it
  -- was. If it is the reference that failed, the files are as its application left them; if it is
  -- the configuration, they are as they were if it came first, and otherwise as the applied
  -- reference's own rollback, which succeeded, left them.
  pub execute_skill_live_plan-atomic :
      (plan : SkillSwitchPlan Plan) (s s' : S) (files files' : Files)
      (e : SkillLiveExecutionError ReferenceError E)
      → execute_skill_live_plan digest host references plan s files ≡ (err e, s', files')
      → e.rollback_failures ≡ []
      → IsClean e.failure
      → ((q : R) → docs s' q ≡ docs s q) × FilesAfter plan e.failure files files'
  execute_skill_live_plan-atomic plan s s' files files' e run =
      subst (Outcome plan s files) run (execute-Outcome plan s files)

  parts-restored :
      (plan : Option OperationPlan) (order : SkillWriteOrder) (reference : Option Receipt)
      (configuration : Option (OperationReceipt R LogicalTarget)) (s s' t : S) (g : Files)
      → Executed plan configuration s s'
      → ((q : R) → docs t q ≡ docs s' q)
      → let parts = rollback_parts digest host references order reference configuration t g in
        parts.0 ≡ []
        → ((q : R) → docs parts.1 q ≡ docs s q)
          × RolledBack digest host docs locate law references reference g parts.2
  unfolding rollback_parts
  parts-restored plan SkillWriteOrder.reference_then_configuration reference configuration s s' t g
        executed docs_kept h =
      let first = rollback_configuration digest host references configuration [] t in
      let (clean, undone) =
        rollback_reference-RolledBack digest host docs locate law references reference first.0 g
          h in
      let (nothing, back) =
        rollback_configuration-restores digest host docs locate law references plan configuration []
          s s' t executed docs_kept clean in
      (back, undone)
  parts-restored plan SkillWriteOrder.configuration_then_reference reference configuration s s' t g
        executed docs_kept h =
      let first = rollback_reference digest host references reference [] g in
      let (clean, back) =
        rollback_configuration-restores digest host docs locate law references plan configuration
          first.0 s s' t executed docs_kept h in
      let (nothing, undone) =
        rollback_reference-RolledBack digest host docs locate law references reference [] g clean in
      (back, undone)

  unless_kept-ok :
      (parts : List (SkillLiveRollbackFailure ReferenceError E) × S × Files) (t : S) (g : Files)
      → unless_kept digest host references parts ≡ (ok tt, t, g)
      → (parts.0 ≡ []) × (parts.1 ≡ t) × (parts.2 ≡ g)
  unless_kept-ok ([], s, files) t g h = (refl, ap (λ p. p.1) h, ap (λ p. p.2) h)
  unless_kept-ok (f ∷ fs, s, files) t g h = cc (ap (λ p. p.0) h)

  -- Rolling back what an execution applied, from any later state with the documents that it left,
  -- brings every document back if it reports success; and then the rollback of the receipt that the
  -- plan's reference gave when it was applied, if there was one, succeeded on the files.
  pub rollback_live-undoes :
      (plan : SkillSwitchPlan Plan) (s s' t t' : S) (files files' g g' : Files)
      (receipt : SkillLiveReceipt Receipt R)
      → execute_skill_live_plan digest host references plan s files ≡ (ok receipt, s', files')
      → ((q : R) → docs t q ≡ docs s' q)
      → rollback_live digest host references receipt t g ≡ (ok tt, t', g')
      → ((q : R) → docs t' q ≡ docs s q)
        × Applied plan.reference receipt.reference files files'
        × RolledBack digest host docs locate law references receipt.reference g g'
  unfolding rollback_live
  rollback_live-undoes plan s s' t t' files files' g g' receipt run docs_kept back =
      let (applied, executed) = subst (Outcome plan s files) run (execute-Outcome plan s files) in
      let (clean, reached, shown) = unless_kept-ok _ t' g' back in
      let (documents, undone) =
        parts-restored plan.configuration receipt.write_order receipt.reference
          receipt.configuration s s' t g executed docs_kept clean in
      (
        λ q. sym (ap (λ u. docs u q) reached) ∙ documents q,
        applied,
        subst (RolledBack digest host docs locate law references receipt.reference g) shown undone,
      )
