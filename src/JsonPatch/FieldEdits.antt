-- ===== src/JsonPatch/FieldEdits.antt =====
-- The edits of src/mcp/json_patch.rs on the fields of an object: one field is changed.
use cc_switch_core.Base.{nat_eq, list_eq, option_eq, string_eq, List, [], ◌∷◌, ◌==◌, if◌then◌else◌}
use cc_switch_core.Text.{Text}
use cc_switch_core.JsonPatch.Syntax.{Item, Space, JsonValue, Member, Fields}

-- The values of the fields with a key
abbrev pub values_of : Text → Fields → List JsonValue
values_of key (Fields.finish spaces) = []
values_of key (Fields.last m) = if m.key == key then m.value ∷ [] else []
values_of key (Fields.comma m fields) =
    if m.key == key then m.value ∷ values_of key fields else values_of key fields

abbrev pub with_value : Member → JsonValue → Member
with_value m v = record {
  before = m.before;
  name = m.name;
  key = m.key;
  between = m.between;
  after = m.after;
  value = v;
  trailing = m.trailing;
}

abbrev pub with_trailing : Member → List Space → Member
with_trailing m spaces = record {
  before = m.before;
  name = m.name;
  key = m.key;
  between = m.between;
  after = m.after;
  value = m.value;
  trailing = spaces;
}

-- The first field with the key gets the value.
abbrev pub set_value : Text → JsonValue → Fields → Fields
set_value key v (Fields.finish spaces) = Fields.finish spaces
set_value key v (Fields.last m) =
    if m.key == key then Fields.last (with_value m v) else Fields.last m
set_value key v (Fields.comma m fields) =
    let rest = set_value key v fields in
    if m.key == key then Fields.comma (with_value m v) fields else Fields.comma m rest

-- A field with no whitespace around it
abbrev pub compact_member : List Item → Text → JsonValue → Member
compact_member name key v = record {
  before = [];
  name = name;
  key = key;
  between = [];
  after = [];
  value = v;
  trailing = [];
}

-- The field stands directly after the last value, or where the braces of an empty object close.
abbrev pub add_field : Member → Fields → Fields
add_field new (Fields.finish spaces) = Fields.last (record {
  before = spaces;
  name = new.name;
  key = new.key;
  between = new.between;
  after = new.after;
  value = new.value;
  trailing = new.trailing;
})
add_field new (Fields.last m) =
    Fields.comma (with_trailing m []) (Fields.last (with_trailing new m.trailing))
add_field new (Fields.comma m (Fields.finish spaces)) =
    Fields.comma (with_trailing m [])
      (Fields.comma (with_trailing new m.trailing) (Fields.finish spaces))
add_field new (Fields.comma m (Fields.last n)) = Fields.comma m (add_field new (Fields.last n))
add_field new (Fields.comma m (Fields.comma n fields)) =
    Fields.comma m (add_field new (Fields.comma n fields))
