-- ===== src/Skill/CatalogLaws.antt =====
-- What an accepted catalog row holds (src/skill/catalog.rs), and what a re-read row decides
-- (src/skill/write.rs).
use cc_switch_core.Base.{
  nat_eq, list_eq, option_eq, string_eq, list_beq_iff, ◌≡◌, refl, sym, ap, ◌∙◌, ◌↔◌, inl, inr, Bool,
  true, false, Option, none, some, List, [], ◌∷◌, map, arith, ok, ◌==◌, if◌then◌else◌, Bool-cases,
  Option-cases,
}
use cc_switch_core.Base.{contains, >>=-eq-ok, ok-injective}
use cc_switch_core.Text.{Text, codes}
use cc_switch_core.Skill.Catalog.{
  Column, SkillCatalogEntry, selected_column, has_column, supply_columns, remove_column,
  order_columns, try_new_entry, skill_catalog_columns, is_refused_directory, validate_text,
  validate_directory, description_fits, max_skill_id_bytes, max_skill_name_bytes,
}
use cc_switch_core.Skill.Switch.{
  SkillSwitchPlan, SkillCatalogChange, SkillCatalogDecision, SkillCatalogGuard, identity_matches,
  guard_matches, decide_catalog, is_selection, decide_change, selection_matches,
}

same_column : (a b c : Column) → (a == b) ≡ true → (a == c) ≡ (b == c)
same_column a b c h = ap (λ x. x == c) ((list_beq_iff a b).0 h)

selected_column-has_column :
    (supplied : List (Column × Bool)) (column : Column)
    → has_column supplied column ≡ false
    → selected_column supplied column ≡ none
selected_column-has_column [] column h = refl
selected_column-has_column ((candidate, selected) ∷ supplied) column h =
    elim (Bool-cases (candidate == column)) [
      | inl same ↦ cc (rw same at h)
      | inr other ↦ rw other (selected_column-has_column supplied column (rw other at h))
    ]

-- The map holds what was in it, and for every other column what was selected.
supply_columns-selected :
    (supplied selections result : List (Column × Bool)) (column : Column)
    → supply_columns supplied selections ≡ ok result
    → selected_column result column ≡ (
        if has_column supplied column
        then selected_column supplied column
        else selected_column selections column)
unfolding supply_columns
supply_columns-selected supplied [] result column h =
    elim (Bool-cases (has_column supplied column)) [
      | inl was ↦ rw was (ap (λ l. selected_column l column) (sym (ok-injective h)))
      | inr new ↦ rw new (
          ap (λ l. selected_column l column) (sym (ok-injective h))
          ∙ selected_column-has_column supplied column new)
    ]
supply_columns-selected supplied ((candidate, selected) ∷ selections) result column h =
    elim (Bool-cases (has_column supplied candidate)) [
      | inl twice ↦ cc (rw (twice, supply_columns) at h)
      | inr once ↦
          let later =
            supply_columns-selected ((candidate, selected) ∷ supplied) selections result column
              (rw (once, supply_columns) at h) in
          elim (Bool-cases (candidate == column)) [
            | inl same ↦
                let new : has_column supplied column ≡ false =
                  rw ((list_beq_iff candidate column).0 same) at once in
                rw (new, same) (later ∙ rw same refl)
            | inr other ↦ rw other (later ∙ rw other refl)
          ]
    ]

remove_column-other :
    (removed column : Column) (supplied : List (Column × Bool))
    → (removed == column) ≡ false
    → selected_column (remove_column removed supplied) column ≡ selected_column supplied column
remove_column-other removed column [] h = refl
remove_column-other removed column ((candidate, selected) ∷ supplied) h =
    elim (Bool-cases (candidate == removed)) [
      | inl same ↦
          let other : (candidate == column) ≡ false =
            same_column candidate removed column same ∙ h in
          rw (same, other) refl
      | inr kept ↦ rw kept (
          ap (λ o. if candidate == column then some selected else o)
            (remove_column-other removed column supplied h))
    ]

-- The ordered selections are of the columns, in their order, each as supplied.
order_columns-selected :
    (columns : List Column) (supplied ordered : List (Column × Bool))
    → order_columns columns supplied ≡ ok ordered
    → (map (λ s. s.0) ordered ≡ columns)
      × ((column : Column)
          → selected_column ordered column
            ≡ (if contains columns column then selected_column supplied column else none))
unfolding order_columns
order_columns-selected [] supplied ordered h = rw (← ok-injective h) (refl, λ column. refl)
order_columns-selected (first ∷ columns) supplied ordered h =
    elim (Option-cases (selected_column supplied first)) [
      | inl missing ↦ cc (rw (missing, order_columns) at h)
      | inr (selected, e) ↦
          let (rest, run, whole) =
            >>=-eq-ok (order_columns columns (remove_column first supplied)) _
              (rw (e, order_columns) at h) in
          let (names, each) =
            order_columns-selected columns (remove_column first supplied) rest run in
          rw (← ok-injective whole) (
            ap (λ l. first ∷ l) names,
            λ column. elim (Bool-cases (first == column)) [
              | inl same ↦
                  rw same
                    (sym e ∙ ap (selected_column supplied) ((list_beq_iff first column).0 same))
              | inr other ↦ rw other (
                  each column
                  ∙ ap (λ o. if contains columns column then o else none)
                      (remove_column-other first column supplied other))
            ],
          )
    ]

if_none {ℓ} :
    {A : Type ℓ} (b : Bool) (x y : Option A)
    → x ≡ y
    → (if b then x else none) ≡ (if b then y else none)
if_none b x y h = ap (λ o. if b then o else none) h

module _ (id name : Text) (description : Option Text) (directory : Text)
    (selections : List (Column × Bool)) (entry : SkillCatalogEntry) where
  -- An accepted row has a selection for every column of the registry, in its order, and each is the
  -- one supplied; its directory is not a refused one, and its id, name and directory are those supplied.
  pub try_new_entry-ok :
      try_new_entry id name description directory selections ≡ ok entry
      → (map (λ s. s.0) entry.selections ≡ skill_catalog_columns)
        × ((column : Column)
            → selected_column entry.selections column ≡ (
                if contains skill_catalog_columns column
                then selected_column selections column
                else none))
        × (is_refused_directory directory ≡ false)
        × (entry.id ≡ id)
        × (entry.name ≡ name)
        × (entry.directory ≡ directory)
  unfolding try_new_entry validate_directory
  try_new_entry-ok h =
      let (u1, v1, h1) = >>=-eq-ok (validate_text (codes "id") id max_skill_id_bytes) _ h in
      let (u2, v2, h2) = >>=-eq-ok (validate_text (codes "name") name max_skill_name_bytes) _ h1 in
      let (u3, v3, h3) = >>=-eq-ok (description_fits description) _ h2 in
      let (u4, v4, h4) = >>=-eq-ok (validate_directory directory) _ h3 in
      let (supplied, filled, h5) = >>=-eq-ok (supply_columns [] selections) _ h4 in
      let (ordered, found, whole) = >>=-eq-ok (order_columns skill_catalog_columns supplied) _ h5 in
      let (names, each) = order_columns-selected skill_catalog_columns supplied ordered found in
      let allowed : is_refused_directory directory ≡ false =
        elim (Bool-cases (is_refused_directory directory)) [
          | inl refused ↦ cc (rw refused at v4)
          | inr free ↦ free
        ] in
      rw (← ok-injective whole) (
        names,
        λ column.
            each column
            ∙ if_none (contains skill_catalog_columns column) _ _
                (supply_columns-selected [] selections supplied column filled),
        allowed,
        refl,
        refl,
        refl,
      )

is_selection_iff :
    (selected : Option Bool) (expected : Bool)
    → (is_selection selected expected ≡ true) ↔ (selected ≡ some expected)
is_selection_iff none expected = ground arith
is_selection_iff (some true) true = ground arith
is_selection_iff (some true) false = ground arith
is_selection_iff (some false) true = ground arith
is_selection_iff (some false) false = ground arith

-- The row has the identity that the guard expects.
pub record IsGuarded (guard : SkillCatalogGuard) (entry : SkillCatalogEntry) : Type 0 where
  pub id : entry.id ≡ guard.skill_id
  pub name : entry.name ≡ guard.expected_name
  pub directory : entry.directory ≡ guard.expected_directory

identity_matches_iff :
    (guard : SkillCatalogGuard) (entry : SkillCatalogEntry)
    → (identity_matches guard entry ≡ true) ↔ IsGuarded guard entry
unfolding identity_matches
identity_matches_iff guard entry =
    let (id_of, of_id) = list_beq_iff entry.id guard.skill_id in
    let (name_of, of_name) = list_beq_iff entry.name guard.expected_name in
    let (directory_of, of_directory) = list_beq_iff entry.directory guard.expected_directory in
    (
      λ h. record {
        id = id_of (ground (arith, h));
        name = name_of (ground (arith, h));
        directory = directory_of (ground (arith, h));
      },
      λ h. rw (of_id h.id, of_name h.name, of_directory h.directory) refl,
    )

-- The row has the selection that the guard expects, if it expects one.
abbrev pub ShowsExpected : Option (Column × Bool) → SkillCatalogEntry → Type 0
ShowsExpected none entry = Unit
ShowsExpected (some (column, expected)) entry =
    selected_column entry.selections column ≡ some expected

selection_matches_iff :
    (o : Option (Column × Bool)) (entry : SkillCatalogEntry)
    → (selection_matches o entry ≡ true) ↔ ShowsExpected o entry
selection_matches_iff none entry = (λ h. tt, λ h. refl)
selection_matches_iff (some (column, expected)) entry = is_selection_iff _ expected

-- The row shows the change done, or, if there was none to do, the selection that is expected.
abbrev pub ShowsDone : SkillCatalogGuard → SkillCatalogEntry → Option SkillCatalogChange → Type 0
ShowsDone guard entry none = ShowsExpected guard.expected_selection entry
ShowsDone guard entry (some change) =
    selected_column entry.selections change.column ≡ some change.replacement

-- The row shows what the change expects to find, and not what it makes of it.
abbrev pub ShowsUndone : SkillCatalogEntry → Option SkillCatalogChange → Type 0
ShowsUndone entry none = ⊥
ShowsUndone entry (some change) =
    (selected_column entry.selections change.column ≡ some change.expected)
    × ¬ (selected_column entry.selections change.column ≡ some change.replacement)

decide_change_iff :
    (guard : SkillCatalogGuard) (entry : SkillCatalogEntry) (change : Option SkillCatalogChange)
    → identity_matches guard entry ≡ true
    → ((decide_change guard entry change ≡ SkillCatalogDecision.keep_live)
        ↔ ShowsDone guard entry change)
      × ((decide_change guard entry change ≡ SkillCatalogDecision.restore_live)
          ↔ ShowsUndone entry change)
unfolding guard_matches
decide_change_iff guard entry none same =
    let (shown, of_shown) = selection_matches_iff guard.expected_selection entry in
    elim (Bool-cases (selection_matches guard.expected_selection entry)) [
      | inl e ↦ rw (same, e) ((λ h. shown e, λ h. refl), (λ h. cc h, λ h. absurd h))
      | inr e ↦ rw (same, e) ((λ h. cc h, λ h. cc (e, of_shown h)), (λ h. cc h, λ h. absurd h))
    ]
decide_change_iff guard entry (some change) same =
    let selected = selected_column entry.selections change.column in
    ground (
      arith,
      is_selection_iff selected change.replacement,
      is_selection_iff selected change.expected,
    )

-- The row was found, with the identity that the plan guards, and this holds of it.
abbrev pub IsRow :
    {ReferencePlan : Type 0}
    → SkillSwitchPlan ReferencePlan
    → Option SkillCatalogEntry
    → (SkillCatalogEntry → Type 0)
    → Type 0
IsRow plan none P = ⊥
IsRow plan (some entry) P = IsGuarded plan.catalog_guard entry × P entry

module _ {ReferencePlan : Type 0} (plan : SkillSwitchPlan ReferencePlan) where
  -- The live changes are kept exactly if the row has the identity that the guard expects and shows
  -- the change done, or, without a change, the selection that the guard expects; they are undone
  -- exactly if the row has that identity and shows what the change expects, and not what it makes.
  pub decide_catalog_iff :
      (row : Option SkillCatalogEntry)
      → ((decide_catalog plan row ≡ SkillCatalogDecision.keep_live)
          ↔ IsRow plan row (λ entry. ShowsDone plan.catalog_guard entry plan.catalog_change))
        × ((decide_catalog plan row ≡ SkillCatalogDecision.restore_live)
            ↔ IsRow plan row (λ entry. ShowsUndone entry plan.catalog_change))
  unfolding decide_catalog
  decide_catalog_iff none = ground arith
  decide_catalog_iff (some entry) =
      let (guarded, of_guarded) = identity_matches_iff plan.catalog_guard entry in
      elim (Bool-cases (identity_matches plan.catalog_guard entry)) [
        | inl same ↦
            let (keep, restore) =
              decide_change_iff plan.catalog_guard entry plan.catalog_change same in
            rw same (
              (λ h. (guarded same, keep.0 h), λ h. keep.1 h.1),
              (λ h. (guarded same, restore.0 h), λ h. restore.1 h.1),
            )
        | inr other ↦ rw other (
          (λ h. cc h, λ h. cc (other, of_guarded h.0)),
          (λ h. cc h, λ h. cc (other, of_guarded h.0)),
        )
      ]
