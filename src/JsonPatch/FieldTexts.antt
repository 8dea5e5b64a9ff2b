-- ===== src/JsonPatch/FieldTexts.antt =====
-- The edits of src/mcp/json_patch.rs on the print of an object's fields.
use cc_switch_core.Base.{
  nat_eq, list_eq, option_eq, string_eq, ℕ, suc, ◌+◌, ◌≡◌, refl, sym, ap, ◌∙◌, inl, inr, some, List,
  [], ◌∷◌, ◌++◌, append-nil, append_assoc, arith, ◌==◌, length, Bool-cases, head?,
}
use cc_switch_core.Base.{drop, take, length-append, drop-append, take-append}
use cc_switch_core.JsonPatch.{Entry}
use cc_switch_core.JsonPatch.RootLaws.{entries_at}
use cc_switch_core.Base.{some-injective}
use cc_switch_core.Text.{Text, Bytes}
use cc_switch_core.JsonPatch.Syntax.{
  Item, print_spaces, JsonValue, print_value, Member, print_name, print_member, Fields,
  print_fields, print_string,
}
use cc_switch_core.JsonPatch.MemberLaws.{entry_at}
use cc_switch_core.JsonPatch.Edit.{replace_range, insert_str, insert_field, matching}
use cc_switch_core.JsonPatch.FieldEdits.{
  set_value, add_field, compact_member, with_value, with_trailing,
}

-- What stands between two parts of a text is replaced, and the parts stay.
replace_range-between :
    (before old after new : Bytes) (start end : ℕ)
    → start ≡ length before
    → end ≡ length before + length old
    → replace_range start end new (before ++ (old ++ after)) ≡ before ++ (new ++ after)
replace_range-between before old after new start end s e =
    let whole : before ++ (old ++ after) ≡ before ++ old ++ after =
      sym (append_assoc before old after) in
    let size : end ≡ length (before ++ old) = omega (arith, e, length-append before old) in
    let tail : drop end (before ++ (old ++ after)) ≡ after =
      rw (whole, size) (drop-append (before ++ old) after) in
    let head : take start (before ++ (old ++ after)) ≡ before =
      rw s (take-append before (old ++ after)) in
    rw (head, tail) (append_assoc before new after)

insert_str-between :
    (before after new : Bytes) (position : ℕ)
    → position ≡ length before
    → insert_str position new (before ++ after) ≡ before ++ (new ++ after)
insert_str-between before after new position s =
    rw (s, take-append before after, drop-append before after) (append_assoc before new after)

-- The text of the fields, between what stands before and after them
abbrev pub around : Bytes → Fields → Bytes → Bytes
around before fields after = before ++ (print_fields fields ++ after)

around-comma :
    (before : Bytes) (m : Member) (fields : Fields) (after : Bytes)
    → around (before ++ (print_member m ++ b',' ∷ [])) fields after
      ≡ around before (Fields.comma m fields) after
around-comma before m fields after = simp append_assoc refl

length-before :
    (before : Bytes) (m : Member)
    → suc (length before + length (print_member m))
      ≡ length (before ++ (print_member m ++ b',' ∷ []))
length-before before m = omega (
  arith,
  length-append before (print_member m ++ b',' ∷ []),
  length-append (print_member m) (b',' ∷ []),
)

replace_range-member :
    (before : Bytes) (m : Member) (v : JsonValue) (after : Bytes)
    → let entry = entry_at (length before) m in
      replace_range entry.start entry.end (print_value v) (before ++ (print_member m ++ after))
      ≡ before ++ (print_member (with_value m v) ++ after)
replace_range-member before m v after =
    let start = length before + length (print_name m) in
    let parts : before ++ (print_member m ++ after)
        ≡ (before ++ print_name m) ++ (print_value m.value ++ (print_spaces m.trailing ++ after)) =
      simp append_assoc refl in
    let size = length-append before (print_name m) in
    rw
      (
        parts,
        replace_range-between (before ++ print_name m) (print_value m.value)
            (print_spaces m.trailing ++ after) (print_value v) start
            (start + length (print_value m.value)) (omega (arith, size)) (omega (arith, size)),
      )
      (simp append_assoc refl)

-- Replacing the first matching entry's bytes sets the field's value, in its text as in the fields.
pub replace_range-set_value :
    (key : Text) (v : JsonValue) (fields : Fields) (before after : Bytes) (entry : Entry)
    → head? (matching key (entries_at (length before) fields)) ≡ some entry
    → replace_range entry.start entry.end (print_value v) (around before fields after)
      ≡ around before (set_value key v fields) after
unfolding matching
replace_range-set_value key v (Fields.finish spaces) before after entry h = cc
replace_range-set_value key v (Fields.last m) before after entry h =
    elim (Bool-cases (m.key == key)) [
      | inl same ↦
          let first = some-injective (rw (same, matching) at h) in
          rw (same, ← first) (replace_range-member before m v after)
      | inr other ↦ cc (rw (other, matching) at h)
    ]
replace_range-set_value key v (Fields.comma m fields) before after entry h =
    elim (Bool-cases (m.key == key)) [
      | inl same ↦
          let first = some-injective (rw (same, matching) at h) in
          let parts : around before (Fields.comma m fields) after
              ≡ before ++ (print_member m ++ (b',' ∷ print_fields fields ++ after)) =
            simp append_assoc refl in
          rw (same, ← first, parts)
            (replace_range-member before m v (b',' ∷ print_fields fields ++ after)
              ∙ simp append_assoc refl)
      | inr other ↦
          let later = rw (other, matching, length-before before m) at h in
          rw (other, ← around-comma before m fields after)
            (replace_range-set_value key v fields (before ++ (print_member m ++ b',' ∷ [])) after
                entry later
              ∙ around-comma before m (set_value key v fields) after)
    ]

insert_after-member :
    (before : Bytes) (m : Member) (insertion after : Bytes)
    → insert_str (entry_at (length before) m).end insertion (before ++ (print_member m ++ after))
      ≡ before
        ++ (print_member (with_trailing m []) ++ (insertion ++ (print_spaces m.trailing ++ after)))
insert_after-member before m insertion after =
    let parts : before ++ (print_member m ++ after)
        ≡ (before ++ (print_name m ++ print_value m.value)) ++ (print_spaces m.trailing ++ after) =
      simp append_assoc refl in
    rw
      (
        parts,
        insert_str-between (before ++ (print_name m ++ print_value m.value))
            (print_spaces m.trailing ++ after) insertion
            (length before + length (print_name m) + length (print_value m.value))
            (omega (
              arith,
              length-append before (print_name m ++ print_value m.value),
              length-append (print_name m) (print_value m.value),
            )),
      )
      (simp (append_assoc, append-nil) refl)

module _ (name : List Item) (key : Text) (v : JsonValue) where
  -- The text of the new field
  abbrev pub insertion : Bytes
  insertion = print_string name ++ b':' ∷ print_value v

  -- A field after the first is added to the fields after the first.
  insert_later :
      (before : Bytes) (m : Member) (fields : Fields) (after : Bytes) (insert : Bytes → ℕ → Bytes)
      → let before' = before ++ (print_member m ++ b',' ∷ []) in
        let new = add_field (compact_member name key v) fields in
        insert (around before' fields after) (length before') ≡ around before' new after
        → insert
            (around before (Fields.comma m fields) after)
            (suc (length before + length (print_member m)))
          ≡ around before (Fields.comma m new) after
  insert_later before m fields after insert h =
      rw (← around-comma before m fields after, length-before before m)
        (h ∙ around-comma before m (add_field (compact_member name key v) fields) after)

  -- What `insert_field` inserts in the text is the new field of the fields.
  pub insert_field-add_field :
      (fields : Fields) (before after : Bytes)
      → insert_field
          (around before fields after)
          (entries_at (length before) fields)
          (length before + length (print_fields fields))
          insertion
        ≡ around before (add_field (compact_member name key v) fields) after
  insert_field-add_field (Fields.finish spaces) before after =
      let parts : around before (Fields.finish spaces) after
          ≡ (before ++ print_spaces spaces) ++ after =
        simp append_assoc refl in
      rw
        (
          parts,
          insert_str-between (before ++ print_spaces spaces) after insertion
              (length before + length (print_spaces spaces))
              (omega (arith, length-append before (print_spaces spaces))),
        )
        (simp (append_assoc, append-nil) refl)
  insert_field-add_field (Fields.last m) before after =
      insert_after-member before m (b',' ∷ insertion) after ∙ simp (append_assoc, append-nil) refl
  insert_field-add_field (Fields.comma m (Fields.finish spaces)) before after =
      let parts : around before (Fields.comma m (Fields.finish spaces)) after
          ≡ before ++ (print_member m ++ (b',' ∷ print_spaces spaces ++ after)) =
        simp append_assoc refl in
      rw
        (
          parts,
          insert_after-member before m (b',' ∷ insertion) (b',' ∷ print_spaces spaces ++ after),
        )
        (simp (append_assoc, append-nil) refl)
  insert_field-add_field (Fields.comma m (Fields.last n)) before after =
      insert_later before m (Fields.last n) after
        (λ text p. insert_field text (entries_at p (Fields.last n)) 0 insertion)
        (insert_field-add_field (Fields.last n) (before ++ (print_member m ++ b',' ∷ [])) after)
  insert_field-add_field (Fields.comma m (Fields.comma n fields)) before after =
      let rest = Fields.comma n fields in
      let before' = before ++ (print_member m ++ b',' ∷ []) in
      let close = length before' + length (print_fields rest) in
      let same : length before + length (print_fields (Fields.comma m rest)) ≡ close = omega (
        arith,
        length-before before m,
        length-append (print_member m) (b',' ∷ print_fields rest),
      ) in
      ap
        (λ c.
          insert_field (around before (Fields.comma m rest) after)
            (entries_at (length before) (Fields.comma m rest)) c insertion)
        same
      ∙ insert_later before m rest after
          (λ text p. insert_field text (entries_at p rest) close insertion)
          (insert_field-add_field (Fields.comma n fields) before' after)
