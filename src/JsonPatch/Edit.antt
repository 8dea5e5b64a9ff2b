-- ===== src/JsonPatch/Edit.antt =====
-- The edits of a JSON text (src/mcp/json_patch.rs).
use cc_switch_core.Base.{
  nat_eq, list_eq, option_eq, string_eq, ℕ, Bool, true, false, not, ◌&&◌, Option, none, some, List,
  [], ◌∷◌, ◌++◌, Result, ok, err, ◌>>=◌, ◌==◌, if◌then◌else◌, ◌>>◌, leb,
}
use cc_switch_core.Base.{drop, take, slice}
use cc_switch_core.Text.{Text, Bytes, codes}
use cc_switch_core.JsonPatch.{JsonPatchError, Entry, Serde}
use cc_switch_core.JsonPatch.JsonPatchError.{not_json, duplicate_fields, json_error, panicked}
use cc_switch_core.JsonPatch.Entries.{root_entries}

-- `entries.iter().filter(|entry| entry.key == key)`
unfoldable pub matching : Text → List Entry → List Entry
matching key [] = []
matching key (entry ∷ entries) =
    if entry.key == key then entry ∷ matching key entries else matching key entries

-- `String::replace_range` and `String::insert_str`
abbrev pub replace_range : ℕ → ℕ → Bytes → Bytes → Bytes
replace_range start end value text = take start text ++ value ++ drop end text

abbrev pub insert_str : ℕ → Bytes → Bytes → Bytes
insert_str position value text = take position text ++ value ++ drop position text

abbrev pub last_entry : List Entry → Option Entry
last_entry [] = none
last_entry (entry ∷ []) = some entry
last_entry (entry ∷ next ∷ entries) = last_entry (next ∷ entries)

-- The first entry that matches, unless more than one does.
abbrev pub single : Text → List Entry → Result JsonPatchError (Option Entry)
single key [] = ok none
single key (entry ∷ []) = ok (some entry)
single key (entry ∷ next ∷ entries) = err (duplicate_fields key)

abbrev pub json_result {ℓ} : {A : Type ℓ} → Result Text A → Result JsonPatchError A
json_result (ok a) = ok a
json_result (err e) = err (json_error e)

-- `output.insert_str` after the last entry, or before the brace that closes an empty object
abbrev pub insert_field : Bytes → List Entry → ℕ → Bytes → Bytes
insert_field text entries root_close insertion = elim (last_entry entries) [
  | some last ↦ insert_str last.end (b',' ∷ insertion) text
  | none ↦ insert_str root_close insertion text
]

abbrev pub is_present {ℓ} : {A : Type ℓ} → Option A → Bool
is_present none = false
is_present (some a) = true

-- `unwrap_or("{}")`
abbrev pub source_or_empty : Option Bytes → Bytes
source_or_empty none = codes "{}"
source_or_empty (some source) = source

-- A field of an object to be rendered: its key and its value's text
abbrev pub Field : Type 0
Field = Text × Bytes

-- `object[entry.value]`; the callers check first that the text is JSON.
abbrev pub text_of : Bytes → Option Entry → Option Bytes
text_of object none = none
text_of object (some entry) = some (slice entry.start entry.end object)

module _ {Value : Type 0} (serde : Serde Value) where
  unfoldable pub validate_json : Bytes → Result JsonPatchError (Unit {0})
  validate_json value = if serde.is_json value then ok tt else err not_json

  unfoldable pub validate_object : Bytes → Result JsonPatchError (Unit {0})
  unfolding validate_json root_entries
  validate_object value =
      validate_json value >> (root_entries serde.decode_key value >>= λ _. ok tt)

  unfoldable pub is_object : Bytes → Bool
  unfolding validate_object
  is_object value = elim (validate_object value) [ ok _ ↦ true | err _ ↦ false ]

  -- The key's rendering is evaluated only when no entry matches. `String::replace_range` panics on a
  -- range that ends before it starts, which `value_end` gives of some texts that are not JSON.
  abbrev pub put_value :
      Bytes → Text → Bytes → List Entry → ℕ → Option Entry → Result JsonPatchError Bytes
  put_value text key value entries root_close (some entry) =
      if leb entry.start entry.end
      then ok (replace_range entry.start entry.end value text)
      else err panicked
  put_value text key value entries root_close none =
      json_result (serde.encode_key key) >>= λ rendered_key.
      ok (insert_field text entries root_close (rendered_key ++ b':' ∷ value))

  unfoldable pub replace_top_level_value : Bytes → Text → Value → Result JsonPatchError Bytes
  unfolding root_entries matching
  replace_top_level_value original key value =
      root_entries serde.decode_key original >>= λ (entries, root_close).
      single key (matching key entries) >>= λ found.
      json_result (serde.to_string value) >>= λ rendered.
      put_value original key rendered entries root_close found

  unfoldable pub replace_top_level_raw : Bytes → Text → Bytes → Result JsonPatchError Bytes
  unfolding validate_json root_entries matching
  replace_top_level_raw original key value =
      validate_json value
      >> (root_entries serde.decode_key original >>= λ (entries, root_close).
          single key (matching key entries) >>= λ found.
          put_value original key value entries root_close found)

  unfoldable pub object_entry : Bytes → Text → Result JsonPatchError (Option Bytes)
  unfolding validate_object root_entries matching
  object_entry object key =
      validate_object object
      >> (root_entries serde.decode_key object >>= λ (entries, root_close).
          single key (matching key entries) >>= λ found. ok (text_of object found))

  -- `key:value` with its comma, for each field after the first
  unfoldable pub render_fields : Bool → List Field → Result JsonPatchError Bytes
  render_fields first [] = ok []
  render_fields first ((key, value) ∷ fields) =
      json_result (serde.encode_key key) >>= λ rendered_key. render_fields false fields >>= λ rest.
      ok ((if first then [] else b',' ∷ []) ++ rendered_key ++ b':' ∷ value ++ rest)

  unfoldable pub render_object : List Field → Result JsonPatchError Bytes
  unfolding render_fields validate_json
  render_object fields = render_fields true fields >>= λ rendered.
      let output = b'{' ∷ rendered ++ b'}' ∷ [] in validate_json output >> ok output

  abbrev validate_replacement : Option Bytes → Result JsonPatchError (Unit {0})
  validate_replacement none = ok tt
  validate_replacement (some replacement) = validate_json replacement

  -- The loop of `patch_object_entry`, and the field it adds at the end when it inserted none.
  unfoldable pub patch_fields : Bytes → Text → Option Bytes → Bool → List Entry → List Field
  patch_fields original key none inserted [] = []
  patch_fields original key (some replacement) inserted [] =
      if inserted then [] else (key, replacement) ∷ []
  patch_fields original key none inserted (entry ∷ entries) =
      let rest = patch_fields original key none inserted entries in
      if entry.key == key then rest else (entry.key, slice entry.start entry.end original) ∷ rest
  patch_fields original key (some replacement) inserted (entry ∷ entries) =
      elim (entry.key == key) [
        | true ↦
            (entry.key, replacement) ∷ patch_fields original key (some replacement) true entries
        | false ↦
            (entry.key, slice entry.start entry.end original)
            ∷ patch_fields original key (some replacement) inserted entries
      ]

  abbrev some_of : Bytes → Result JsonPatchError (Option Bytes)
  some_of text = ok (some text)

  unfoldable pub patch_object_entry :
      Bytes → Text → Option Bytes → Result JsonPatchError (Option Bytes)
  unfolding validate_object root_entries matching patch_fields render_object
  patch_object_entry original key replacement =
      validate_object original
      >> (validate_replacement replacement
          >> (root_entries serde.decode_key original >>= λ (entries, root_close).
              single key (matching key entries) >>= λ found.
              if not (is_present found) && not (is_present replacement)
              then ok none
              else (render_object (patch_fields original key replacement false entries)
                  >>= some_of)))

  abbrev put_section : Bytes → Text → Option Bytes → Result JsonPatchError (Option Bytes)
  put_section original section none = ok none
  put_section original section (some next) = replace_top_level_raw original section next >>= some_of

  unfoldable pub replace_nested_object_entry :
      Bytes → Text → Text → Option Bytes → Result JsonPatchError (Option Bytes)
  unfolding validate_object object_entry patch_object_entry replace_top_level_raw
  replace_nested_object_entry original section key replacement =
      validate_object original
      >> (object_entry original section >>= λ section_value.
          patch_object_entry (source_or_empty section_value) key replacement >>= λ next_section.
          put_section original section next_section)
