-- ===== src/JsonPatch/ReadBack.antt =====
-- Reading an object after an edit of src/mcp/json_patch.rs.
use cc_switch_core.Base.{
  nat_eq, list_eq, option_eq, string_eq, list_beq_iff, beq_refl, ◌≡◌, refl, sym, ap, ◌∙◌, inl, inr,
  true, false, Option, some, List, [], ◌∷◌, ◌++◌, map, append-nil, ok, ◌==◌, if◌then◌else◌,
  Bool-cases,
}
use cc_switch_core.Base.{>>=-eq-ok, ok-injective}
use cc_switch_core.Base.{>>=-eq-ok, ok-injective}
use cc_switch_core.Text.{Text, Bytes}
use cc_switch_core.JsonPatch.{Serde}
use cc_switch_core.JsonPatch.Syntax.{
  Item, JsonValue, print_value, print_string, Member, Fields, Document, print_document,
}
use cc_switch_core.JsonPatch.RootLaws.{IsDecoded}
use cc_switch_core.JsonPatch.FieldEdits.{values_of, set_value, add_field, compact_member}
use cc_switch_core.JsonPatch.Edit.{object_entry, replace_top_level_raw}
use cc_switch_core.JsonPatch.EditLaws.{
  object_entry-read_one, read_one, put_field, with_fields, replace_top_level_raw-put_in,
}

apart_key : (a b c : Text) → (a == b) ≡ true → ¬ (b ≡ c) → (a == c) ≡ false
apart_key a b c same apart = elim (Bool-cases (a == c)) [
  | inl e ↦ absurd (apart (sym ((list_beq_iff a b).0 same) ∙ (list_beq_iff a c).0 e))
  | inr e ↦ e
]

values_of-set_value_same :
    (key : Text) (v old : JsonValue) (values : List JsonValue) (fields : Fields)
    → values_of key fields ≡ old ∷ values
    → values_of key (set_value key v fields) ≡ v ∷ values
values_of-set_value_same key v old values (Fields.finish spaces) h = cc h
values_of-set_value_same key v old values (Fields.last m) h = elim (Bool-cases (m.key == key)) [
  | inl same ↦ let tail = rw same at h in rw (same, same) (cc tail)
  | inr other ↦ cc (rw other at h)
]
values_of-set_value_same key v old values (Fields.comma m fields) h =
    elim (Bool-cases (m.key == key)) [
      | inl same ↦ let tail = rw same at h in rw (same, same) (cc tail)
      | inr other ↦
          rw (other, other) (values_of-set_value_same key v old values fields (rw other at h))
    ]

values_of-set_value_other :
    (key other : Text) (v : JsonValue) (fields : Fields)
    → ¬ (key ≡ other)
    → values_of other (set_value key v fields) ≡ values_of other fields
values_of-set_value_other key other v (Fields.finish spaces) apart = refl
values_of-set_value_other key other v (Fields.last m) apart = elim (Bool-cases (m.key == key)) [
  | inl same ↦ rw (same, apart_key m.key key other same apart) refl
  | inr differs ↦ rw differs refl
]
values_of-set_value_other key other v (Fields.comma m fields) apart =
    elim (Bool-cases (m.key == key)) [
      | inl same ↦ rw (same, apart_key m.key key other same apart) refl
      | inr differs ↦ rw differs (
          ap (λ l. if m.key == other then m.value ∷ l else l)
            (values_of-set_value_other key other v fields apart))
    ]

abbrev single_value : Text → Member → List JsonValue
single_value key m = if m.key == key then m.value ∷ [] else []

values_of-add_field :
    (key : Text) (new : Member) (fields : Fields)
    → values_of key (add_field new fields) ≡ values_of key fields ++ single_value key new
values_of-add_field key new (Fields.finish spaces) = refl
values_of-add_field key new (Fields.last m) = elim (Bool-cases (m.key == key)) [
  | inl same ↦ rw same refl
  | inr other ↦ rw other refl
]
values_of-add_field key new (Fields.comma m (Fields.finish spaces)) =
    elim (Bool-cases (m.key == key)) [ inl same ↦ rw same refl | inr other ↦ rw other refl ]
values_of-add_field key new (Fields.comma m (Fields.last n)) =
    let later = values_of-add_field key new (Fields.last n) in
    elim (Bool-cases (m.key == key)) [
      | inl same ↦ rw same (ap (λ l. m.value ∷ l) later)
      | inr other ↦ rw other later
    ]
values_of-add_field key new (Fields.comma m (Fields.comma n fields)) =
    let later = values_of-add_field key new (Fields.comma n fields) in
    elim (Bool-cases (m.key == key)) [
      | inl same ↦ rw same (ap (λ l. m.value ∷ l) later)
      | inr other ↦ rw other later
    ]

module _ (decode_key : Bytes → Option Text) where
  IsDecoded-set_value :
      (key : Text) (v : JsonValue) (fields : Fields)
      → IsDecoded decode_key fields
      → IsDecoded decode_key (set_value key v fields)
  IsDecoded-set_value key v (Fields.finish spaces) h = tt
  IsDecoded-set_value key v (Fields.last m) h = elim (Bool-cases (m.key == key)) [
    | inl same ↦ rw same h
    | inr other ↦ rw other h
  ]
  IsDecoded-set_value key v (Fields.comma m fields) h = elim (Bool-cases (m.key == key)) [
    | inl same ↦ rw same h
    | inr other ↦ rw other (h.0, IsDecoded-set_value key v fields h.1)
  ]

  IsDecoded-add_field :
      (new : Member) (fields : Fields)
      → decode_key (print_string new.name) ≡ some new.key
      → IsDecoded decode_key fields
      → IsDecoded decode_key (add_field new fields)
  IsDecoded-add_field new (Fields.finish spaces) n h = n
  IsDecoded-add_field new (Fields.last m) n h = (h, n)
  IsDecoded-add_field new (Fields.comma m (Fields.finish spaces)) n h = (h.0, (n, tt))
  IsDecoded-add_field new (Fields.comma m (Fields.last x)) n h =
      (h.0, IsDecoded-add_field new (Fields.last x) n h.1)
  IsDecoded-add_field new (Fields.comma m (Fields.comma x fields)) n h =
      (h.0, IsDecoded-add_field new (Fields.comma x fields) n h.1)

module _ (name : List Item) (key : Text) (v : JsonValue) where
  -- After a value is put, the key has it alone, and every other key the values it had.
  values_of-put_field :
      (fields put : Fields) (values : List JsonValue)
      → values_of key fields ≡ values
      → put_field name key v fields values ≡ ok put
      → (values_of key put ≡ v ∷ [])
        × ((other : Text) → ¬ (key ≡ other) → values_of other put ≡ values_of other fields)
  values_of-put_field fields put [] e h = rw (← ok-injective h) (
    values_of-add_field key (compact_member name key v) fields ∙ rw (e, beq_refl key) refl,
    λ other apart.
        values_of-add_field other (compact_member name key v) fields
        ∙ rw (apart_key key key other (beq_refl key) apart) (append-nil (values_of other fields)),
  )
  values_of-put_field fields put (old ∷ []) e h = rw (← ok-injective h) (
    values_of-set_value_same key v old [] fields e,
    λ other apart. values_of-set_value_other key other v fields apart,
  )
  values_of-put_field fields put (old ∷ next ∷ values) e h = cc h

  IsDecoded-put_field :
      (decode_key : Bytes → Option Text) (fields put : Fields) (values : List JsonValue)
      → decode_key (print_string name) ≡ some key
      → IsDecoded decode_key fields
      → put_field name key v fields values ≡ ok put
      → IsDecoded decode_key put
  IsDecoded-put_field decode_key fields put [] n d h =
      rw (← ok-injective h) (IsDecoded-add_field decode_key (compact_member name key v) fields n d)
  IsDecoded-put_field decode_key fields put (old ∷ []) n d h =
      rw (← ok-injective h) (IsDecoded-set_value decode_key key v fields d)
  IsDecoded-put_field decode_key fields put (old ∷ next ∷ values) n d h = cc h

module _ {Value : Type 0} (serde : Serde Value) (d : Document) (name : List Item) (key : Text)
    (v : JsonValue) (encoded : serde.encode_key key ≡ ok (print_string name))
    (decodes : serde.decode_key (print_string name) ≡ some key)
    (decoded : IsDecoded serde.decode_key d.fields) (valid : serde.is_json (print_value v) ≡ true)
    (readable : serde.is_json (print_document d) ≡ true) where
  -- What `replace_top_level_raw` put, `object_entry` reads, and for every other key it reads what it
  -- read before.
  pub object_entry-replace_top_level_raw :
      (output : Bytes)
      → replace_top_level_raw serde (print_document d) key (print_value v) ≡ ok output
      → serde.is_json output ≡ true
      → (object_entry serde output key ≡ ok (some (print_value v)))
        × ((other : Text)
            → ¬ (key ≡ other)
            → object_entry serde output other ≡ object_entry serde (print_document d) other)
  object_entry-replace_top_level_raw output h written =
      let put_ok =
        sym (replace_top_level_raw-put_in serde d name key v encoded decoded valid) ∙ h in
      let (put, e, out) = >>=-eq-ok _ _ put_ok in
      let d' = with_fields d put in
      let printed : print_document d' ≡ output = ok-injective out in
      let decoded' =
        IsDecoded-put_field name key v serde.decode_key d.fields put _ decodes decoded e in
      let (this, others) = values_of-put_field name key v d.fields put _ refl e in
      let read = λ (k : Text). object_entry-read_one serde d' decoded' k (rw printed written) in
      (
        ap (λ text. object_entry serde text key) (sym printed)
            ∙ read key
            ∙ ap (λ values. read_one key (map print_value values)) this,
        λ other apart.
            ap (λ text. object_entry serde text other) (sym printed)
            ∙ read other
            ∙ ap (λ values. read_one other (map print_value values)) (others other apart)
            ∙ sym (object_entry-read_one serde d decoded other readable),
      )
