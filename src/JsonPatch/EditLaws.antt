-- ===== src/JsonPatch/EditLaws.antt =====
-- The operations of src/mcp/json_patch.rs on an object that is printed.
use cc_switch_core.Base.{
  nat_eq, list_eq, option_eq, string_eq, ℕ, suc, ◌+◌, ◌≤◌, ◌≡◌, refl, sym, ap, subst, ◌∙◌, inl, inr,
  true, Option, none, some, List, [], ◌∷◌, ◌++◌, map, append_assoc, arith, Result, ok, err, ◌>>=◌,
  ◌==◌, length, All, Bool-cases, leb,
}
use cc_switch_core.Base.{le→leb}
use cc_switch_core.Base.{head?, slice}
use cc_switch_core.Text.{Text, Bytes}
use cc_switch_core.JsonPatch.{Entry, Serde, JsonPatchError}
use cc_switch_core.JsonPatch.JsonPatchError.{duplicate_fields}
use cc_switch_core.JsonPatch.Syntax.{
  Item, print_spaces, JsonValue, print_value, print_string, Member, print_name, print_member,
  Fields, print_fields, Document, print_open, print_close, print_document,
}
use cc_switch_core.JsonPatch.Cursor.{At, At-suc, At-advance, At-prefix, slice-At}
use cc_switch_core.JsonPatch.MemberLaws.{entry_at}
use cc_switch_core.JsonPatch.RootLaws.{entries_at, IsDecoded, root_entries-print_document}
use cc_switch_core.JsonPatch.FieldEdits.{values_of, set_value, add_field, compact_member}
use cc_switch_core.JsonPatch.FieldTexts.{replace_range-set_value, insert_field-add_field, insertion}
use cc_switch_core.JsonPatch.Edit.{
  matching, object_entry, replace_top_level_raw, single, replace_range, insert_field, text_of,
  put_value, replace_top_level_value,
}

abbrev texts : Bytes → List Entry → List Bytes
texts text [] = []
texts text (entry ∷ entries) = slice entry.start entry.end text ∷ texts text entries

slice_value :
    (text : Bytes) (start : ℕ) (m : Member) (after : Bytes)
    → At text start (print_member m ++ after)
    → let entry = entry_at start m in slice entry.start entry.end text ≡ print_value m.value
slice_value text start m after h =
    let parts : print_member m ++ after
        ≡ print_name m ++ (print_value m.value ++ (print_spaces m.trailing ++ after)) =
      simp append_assoc refl in
    slice-At text (start + length (print_name m)) (print_value m.value) _
      (At-advance text start (print_name m) _ (h ∙ parts))

-- The entries that match are those of the values with the key.
texts-matching :
    (key : Text) (fields : Fields) (text : Bytes) (start : ℕ) (after : Bytes)
    → At text start (print_fields fields ++ after)
    → texts text (matching key (entries_at start fields)) ≡ map print_value (values_of key fields)
unfolding matching
texts-matching key (Fields.finish spaces) text start after h = refl
texts-matching key (Fields.last m) text start after h = elim (Bool-cases (m.key == key)) [
  | inl same ↦ rw same (ap (λ t. t ∷ []) (slice_value text start m after h))
  | inr other ↦ rw other refl
]
texts-matching key (Fields.comma m fields) text start after h =
    let here = h ∙ append_assoc (print_member m) (b',' ∷ print_fields fields) after in
    let next =
      At-suc text (start + length (print_member m)) b',' _
        (At-advance text start (print_member m) _ here) in
    let later = texts-matching key fields text (suc (start + length (print_member m))) after next in
    elim (Bool-cases (m.key == key)) [
      | inl same ↦ rw (same, slice_value text start m _ here, later) refl
      | inr other ↦ rw other later
    ]

-- What a read of a key gives whose values these are: none, the only one, or an error.
abbrev pub read_one : Text → List Bytes → Result JsonPatchError (Option Bytes)
read_one key [] = ok none
read_one key (value ∷ []) = ok (some value)
read_one key (value ∷ next ∷ values) = err (duplicate_fields key)

single-read_one :
    (key : Text) (text : Bytes) (entries : List Entry)
    → (single key entries >>= λ found. ok (text_of text found)) ≡ read_one key (texts text entries)
single-read_one key text [] = refl
single-read_one key text (entry ∷ []) = refl
single-read_one key text (entry ∷ next ∷ entries) = refl

module _ {Value : Type 0} (serde : Serde Value) (d : Document)
    (decoded : IsDecoded serde.decode_key d.fields) where
  -- Of a valid object, `object_entry` gives the text of the only value with the key, nothing if
  -- there is none, and an error if there are several.
  pub object_entry-read_one :
      (key : Text)
      → serde.is_json (print_document d) ≡ true
      → object_entry serde (print_document d) key
        ≡ read_one key (map print_value (values_of key d.fields))
  unfolding object_entry
  object_entry-read_one key valid =
      let start = length (print_open d) in
      let body : At (print_document d) start (print_fields d.fields ++ print_close d) =
        subst (λ text. At text start (print_fields d.fields ++ print_close d))
          (sym (append_assoc (print_open d) (print_fields d.fields) (print_close d)))
          (At-prefix (print_open d) (print_fields d.fields ++ print_close d)) in
      rw (valid, root_entries-print_document serde.decode_key d decoded)
        (single-read_one key (print_document d) (matching key (entries_at start d.fields))
          ∙ ap (read_one key) (texts-matching key d.fields (print_document d) start _ body))

abbrev pub with_fields : Document → Fields → Document
with_fields d fields = record { leading = d.leading; fields = fields; trailing = d.trailing }

-- The fields after a value is put, given the values that the key has.
abbrev pub put_field :
    List Item → Text → JsonValue → Fields → List JsonValue → Result JsonPatchError Fields
put_field name key v fields [] = ok (add_field (compact_member name key v) fields)
put_field name key v fields (old ∷ []) = ok (set_value key v fields)
put_field name key v fields (old ∷ next ∷ values) = err (duplicate_fields key)

abbrev pub put_in : List Item → Text → JsonValue → Document → Result JsonPatchError Bytes
put_in name key v d = put_field name key v d.fields (values_of key d.fields) >>= λ fields.
    ok (print_document (with_fields d fields))

-- No range of a printed field ends before it starts.
entries_at-ordered :
    (start : ℕ) (fields : Fields) → All (λ entry. entry.start ≤ entry.end) (entries_at start fields)
entries_at-ordered start (Fields.finish spaces) = tt
entries_at-ordered start (Fields.last m) = (omega arith, tt)
entries_at-ordered start (Fields.comma m fields) =
    (omega arith, entries_at-ordered (suc (start + length (print_member m))) fields)

matching-ordered :
    (key : Text) (entries : List Entry)
    → All (λ entry. entry.start ≤ entry.end) entries
    → (entry : Entry) → head? (matching key entries) ≡ some entry
    → entry.start ≤ entry.end
unfolding matching
matching-ordered key [] h entry first = cc first
matching-ordered key (other ∷ entries) h entry first = elim (Bool-cases (other.key == key)) [
  | inl same ↦
      subst (λ o. elim o as (λ o. Type 0) [ none ↦ Unit | some e ↦ e.start ≤ e.end ])
        (rw (same, matching) at first) h.0
  | inr new ↦ matching-ordered key entries h.1 entry (rw (new, matching) at first)
]

module _ {Value : Type 0} (serde : Serde Value) (d : Document) (name : List Item) (key : Text)
    (v : JsonValue) (encoded : serde.encode_key key ≡ ok (print_string name)) where
  put_value-put_field :
      (entries matched : List Entry) (root_close : ℕ) (values : List JsonValue)
      → texts (print_document d) matched ≡ map print_value values
      → ((entry : Entry)
          → head? matched ≡ some entry
          → (leb entry.start entry.end ≡ true)
            × (replace_range entry.start entry.end (print_value v) (print_document d)
                ≡ print_document (with_fields d (set_value key v d.fields))))
      → insert_field (print_document d) entries root_close (insertion name key v)
        ≡ print_document (with_fields d (add_field (compact_member name key v) d.fields))
      → (single key matched >>= λ found.
          put_value serde (print_document d) key (print_value v) entries root_close found)
        ≡ (put_field name key v d.fields values >>= λ fields.
            ok (print_document (with_fields d fields)))
  put_value-put_field entries [] root_close [] same set add = rw encoded (ap ok add)
  put_value-put_field entries (entry ∷ []) root_close (old ∷ []) same set add =
      let (ordered, text) = set entry refl in rw ordered (ap ok text)
  put_value-put_field entries (entry ∷ next ∷ matched) root_close (old ∷ another ∷ values) same set
        add =
      refl
  put_value-put_field entries [] root_close (old ∷ values) same set add = cc same
  put_value-put_field entries (entry ∷ matched) root_close [] same set add = cc same
  put_value-put_field entries (entry ∷ []) root_close (old ∷ another ∷ values) same set add =
      cc same
  put_value-put_field entries (entry ∷ next ∷ matched) root_close (old ∷ []) same set add = cc same

  put_value-document :
      IsDecoded serde.decode_key d.fields
      → let start = length (print_open d) in
        let entries = entries_at start d.fields in
        (single key (matching key entries) >>= λ found.
        put_value serde
          (print_document d)
          key
          (print_value v)
          entries
          (start + length (print_fields d.fields))
          found)
        ≡ put_in name key v d
  put_value-document decoded =
      let start = length (print_open d) in
      let entries = entries_at start d.fields in
      let close = start + length (print_fields d.fields) in
      let nested =
        λ (fields : Fields). append_assoc (print_open d) (print_fields fields) (print_close d) in
      let set = replace_range-set_value key v d.fields (print_open d) (print_close d) in
      let add = insert_field-add_field name key v d.fields (print_open d) (print_close d) in
      let body : At (print_document d) start (print_fields d.fields ++ print_close d) =
        rw (nested d.fields) (At-prefix (print_open d) (print_fields d.fields ++ print_close d)) in
      put_value-put_field entries (matching key entries) close (values_of key d.fields)
        (texts-matching key d.fields (print_document d) start _ body)
        (λ entry first. (
          le→leb entry.start entry.end
              (matching-ordered key entries (entries_at-ordered start d.fields) entry first),
          ap (replace_range entry.start entry.end (print_value v)) (nested d.fields)
              ∙ set entry first
              ∙ sym (nested (set_value key v d.fields)),
        ))
        (ap (λ text. insert_field text entries close (insertion name key v)) (nested d.fields)
          ∙ add
          ∙ sym (nested (add_field (compact_member name key v) d.fields)))

  -- `replace_top_level_raw` gives the print of the object in which the key's only value is
  -- replaced, or a field added if there is none; an error if there are several.
  pub replace_top_level_raw-put_in :
      IsDecoded serde.decode_key d.fields
      → serde.is_json (print_value v) ≡ true
      → replace_top_level_raw serde (print_document d) key (print_value v) ≡ put_in name key v d
  unfolding replace_top_level_raw
  replace_top_level_raw-put_in decoded valid =
      rw (valid, root_entries-print_document serde.decode_key d decoded)
        (put_value-document decoded)

  -- So does `replace_top_level_value`, with the value's rendering.
  pub replace_top_level_value-put_in :
      (value : Value)
      → IsDecoded serde.decode_key d.fields
      → serde.to_string value ≡ ok (print_value v)
      → replace_top_level_value serde (print_document d) key value ≡ put_in name key v d
  unfolding replace_top_level_value
  replace_top_level_value-put_in value decoded rendered =
      let put = put_value-document decoded in
      rw (root_entries-print_document serde.decode_key d decoded, rendered) put
