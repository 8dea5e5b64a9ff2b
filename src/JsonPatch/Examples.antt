-- ===== src/JsonPatch/Examples.antt =====
-- Tests of the model of src/mcp/json_patch.rs, and its theorems at a concrete text. The stand-in for
-- serde_json takes the bytes between the quotes for a key, and every text for valid.
use cc_switch_core.Base.{
  nat_eq, list_eq, option_eq, string_eq, ◌+◌, ◌≡◌, refl, ◌≢◌, true, Option, none, some, List, [],
  ◌∷◌, ◌++◌, map, ok, err, length,
}
use cc_switch_core.Text.{Text, Bytes, codes}
use cc_switch_core.JsonPatch.{Serde}
use cc_switch_core.JsonPatch.JsonPatchError.{unfinished, panicked}
use cc_switch_core.JsonPatch.Scan.{
  is_ascii_whitespace, skip_from, skip_whitespace, string_end_from, string_end, rposition,
  scalar_from, scalar_end, composite_step, composite_from, composite_end, value_end,
}
use cc_switch_core.JsonPatch.Entries.{
  value_step, colon_step, member_step, root_step, root_loop, root_entries,
}
use cc_switch_core.JsonPatch.Edit.{
  matching, validate_json, validate_object, object_entry, replace_top_level_raw,
  replace_top_level_value, render_fields, render_object, patch_fields, patch_object_entry,
  replace_nested_object_entry,
}
use cc_switch_core.JsonPatch.Merge.{merged_field, merge_entries, add_desired, merge_object_fields}
use cc_switch_core.JsonPatch.Syntax.{
  Space, Item, Inside, JsonValue, Fields, Document, print_document, print_value, print_fields,
  print_open,
}
use cc_switch_core.JsonPatch.ValueLaws.{value_end-print_value}
use cc_switch_core.JsonPatch.RootLaws.{entries_at, root_entries-print_document}
use cc_switch_core.JsonPatch.EditLaws.{
  read_one, object_entry-read_one, put_in, replace_top_level_raw-put_in,
  replace_top_level_value-put_in,
}
use cc_switch_core.JsonPatch.FieldEdits.{values_of}
use cc_switch_core.JsonPatch.ReadBack.{object_entry-replace_top_level_raw}
use cc_switch_core.JsonPatch.Finish.{root_entries-ends}

abbrev before_last : Bytes → Bytes
before_last [] = []
before_last (b ∷ []) = []
before_last (b ∷ c ∷ s) = b ∷ before_last (c ∷ s)

abbrev unquote : Bytes → Option Text
unquote [] = none
unquote (b ∷ s) = some (before_last s)

abbrev serde : Serde Bytes
serde = record {
  decode_key = unquote;
  encode_key = λ key. ok (b'"' ∷ key ++ b'"' ∷ []);
  to_string = λ v. ok v;
  is_json = λ text. true;
}

abbrev name_a : List Item
name_a = Item.byte b'a' refl ∷ []

abbrev name_b : List Item
name_b = Item.byte b'b' refl ∷ []

one : JsonValue
unfolding is_ascii_whitespace
one = JsonValue.scalar b'1' [] refl (refl, tt)

abbrev list_two : JsonValue
list_two = JsonValue.bracketed (Inside.plain b'2' refl Inside.nothing)

abbrev text_value : JsonValue
text_value = JsonValue.string_value (Item.escape b'"' ∷ [])

abbrev document : Document
unfolding one
document = record {
  leading = [];
  fields =
      Fields.comma
        (record {
          before = [];
          name = name_a;
          key = codes "a";
          between = [];
          after = Space.space ∷ [];
          value = one;
          trailing = [];
        })
        (Fields.last (record {
          before = Space.space ∷ [];
          name = name_b;
          key = codes "b";
          between = [];
          after = [];
          value = list_two;
          trailing = [];
        }));
  trailing = Space.newline ∷ [];
}

printed : print_document document ≡ codes "{\"a\": 1, \"b\":[2]}\n"
unfolding one document
printed = refl

abbrev replaced : Bytes
replaced = codes "{\"a\": 1, \"b\":\"\\\"\"}\n"

put_b :
    replace_top_level_raw serde (print_document document) (codes "b") (print_value text_value)
    ≡ ok replaced
unfolding replace_top_level_raw root_entries root_loop root_step member_step colon_step value_step
    skip_whitespace skip_from is_ascii_whitespace string_end string_end_from value_end scalar_end
    scalar_from rposition composite_end composite_from composite_step validate_json matching one
    document
put_b = refl

-- An empty value after whitespace is not noticed: the range that is found for it ends before it
-- starts.
empty_value :
    root_entries unquote (codes "{\"a\": ,\"b\":1}")
    ≡ ok (
      record { key = codes "a"; start = 6; end = 5 }
          ∷ record { key = codes "b"; start = 11; end = 12 }
          ∷ [],
      12,
    )
unfolding root_entries root_loop root_step member_step colon_step value_step skip_whitespace
    skip_from is_ascii_whitespace string_end string_end_from value_end scalar_end scalar_from
    rposition composite_end composite_from composite_step
empty_value = refl

nested :
    replace_nested_object_entry serde
      (codes "{\"s\":{\"x\":1, \"y\":2}}")
      (codes "s")
      (codes "x")
      none
    ≡ ok (some (codes "{\"s\":{\"y\":2}}"))
unfolding replace_nested_object_entry patch_object_entry patch_fields render_object render_fields
    object_entry validate_object replace_top_level_raw root_entries root_loop root_step member_step
    colon_step value_step skip_whitespace skip_from is_ascii_whitespace string_end string_end_from
    value_end scalar_end scalar_from rposition composite_end composite_from composite_step
    validate_json matching
nested = refl

-- Nothing checks that the text is JSON, so the replacement of that value panics.
empty_value_panics :
    replace_top_level_raw serde (codes "{\"a\": ,\"b\":1}") (codes "a") (codes "2") ≡ err panicked
unfolding replace_top_level_raw root_entries root_loop root_step member_step colon_step value_step
    skip_whitespace skip_from is_ascii_whitespace string_end string_end_from value_end scalar_end
    scalar_from rposition composite_end composite_from composite_step validate_json matching
empty_value_panics = refl

merged :
    merge_object_fields serde
      (some (codes "{\"x\":1,\"y\":2,\"z\":3}"))
      (codes "x" ∷ codes "y" ∷ [])
      ((codes "y", codes "7") ∷ (codes "w", codes "8") ∷ [])
    ≡ ok (codes "{\"y\":7,\"z\":3,\"w\":8}")
unfolding merge_object_fields merge_entries merged_field add_desired render_object render_fields
    validate_object root_entries root_loop root_step member_step colon_step value_step
    skip_whitespace skip_from is_ascii_whitespace string_end string_end_from value_end scalar_end
    scalar_from rposition composite_end composite_from composite_step validate_json
merged = refl

object_entry-replace_top_level_raw_example :
    (object_entry serde replaced (codes "b") ≡ ok (some (print_value text_value)))
    × ((other : Text)
        → ¬ (codes "b" ≡ other)
        → object_entry serde replaced other ≡ object_entry serde (print_document document) other)
unfolding document
object_entry-replace_top_level_raw_example =
    object_entry-replace_top_level_raw serde document name_b (codes "b") text_value refl refl
      (refl, refl) refl refl replaced put_b refl

root_entries-print_document_example :
    root_entries unquote (print_document document)
    ≡ ok (
      entries_at (length (print_open document)) document.fields,
      length (print_open document) + length (print_fields document.fields),
    )
unfolding document
root_entries-print_document_example = root_entries-print_document unquote document (refl, refl)

replace_top_level_raw-put_in_example :
    replace_top_level_raw serde (print_document document) (codes "b") (print_value text_value)
    ≡ put_in name_b (codes "b") text_value document
unfolding document
replace_top_level_raw-put_in_example =
    replace_top_level_raw-put_in serde document name_b (codes "b") text_value refl (refl, refl) refl

replace_top_level_value-put_in_example :
    replace_top_level_value serde (print_document document) (codes "c") (print_value text_value)
    ≡ put_in (Item.byte b'c' refl ∷ []) (codes "c") text_value document
unfolding document
replace_top_level_value-put_in_example =
    replace_top_level_value-put_in serde document (Item.byte b'c' refl ∷ []) (codes "c") text_value
      refl (print_value text_value) (refl, refl) refl

object_entry-read_one_example :
    object_entry serde (print_document document) (codes "a")
    ≡ read_one (codes "a") (map print_value (values_of (codes "a") document.fields))
unfolding document
object_entry-read_one_example = object_entry-read_one serde document (refl, refl) (codes "a") refl

value_end-print_value_example : value_end (codes "[2] ,") 0 ≡ ok (0 + length (print_value list_two))
value_end-print_value_example =
    value_end-print_value (codes "[2] ,") 0 (Space.space ∷ []) b',' [] refl list_two refl

root_entries-ends_example : root_entries unquote (codes "{\"a\": ,") ≢ err unfinished
root_entries-ends_example = root_entries-ends unquote (codes "{\"a\": ,")
