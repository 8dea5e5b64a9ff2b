-- ===== src/JsonPatch/Merge.antt =====
-- The merge of desired fields into a JSON object (src/mcp/json_patch.rs). `desired` is a serde_json
-- `Map` as the list of its entries, in the map's order.
use cc_switch_core.Base.{
  nat_eq, list_eq, option_eq, string_eq, true, false, Option, none, some, List, [], ◌∷◌, ◌++◌,
  Result, ok, err, ◌>>=◌, ◌==◌, if◌then◌else◌, ◌>>◌,
}
use cc_switch_core.Base.{slice, contains}
use cc_switch_core.Text.{Text, Bytes}
use cc_switch_core.JsonPatch.{JsonPatchError, Entry, Serde}
use cc_switch_core.JsonPatch.JsonPatchError.{duplicate_fields}
use cc_switch_core.JsonPatch.Entries.{root_entries}
use cc_switch_core.JsonPatch.Edit.{
  Field, json_result, source_or_empty, validate_object, render_object,
}

module _ {Value : Type 0} (serde : Serde Value) where
  -- `desired.get(key)`
  abbrev lookup : Text → List (Text × Value) → Option Value
  lookup key [] = none
  lookup key ((name, value) ∷ desired) = if name == key then some value else lookup key desired

  -- The field that an existing entry becomes, if it stays.
  unfoldable pub merged_field :
      Bytes → List Text → List (Text × Value) → Entry → Result JsonPatchError (List Field)
  merged_field original clear desired entry = elim (lookup entry.key desired) [
    | some value ↦ json_result (serde.to_string value) >>= λ text. ok ((entry.key, text) ∷ [])
    | none ↦
        if contains clear entry.key
        then ok []
        else ok ((entry.key, slice entry.start entry.end original) ∷ [])
  ]

  -- The first loop of `merge_object_fields`; the keys it saw come back for the second.
  unfoldable pub merge_entries :
      Bytes
      → List Text
      → List (Text × Value)
      → List Text
      → List Entry
      → Result JsonPatchError (List Field × List Text)
  unfolding merged_field
  merge_entries original clear desired seen [] = ok ([], seen)
  merge_entries original clear desired seen (entry ∷ entries) =
      if contains seen entry.key
      then err (duplicate_fields entry.key)
      else (merged_field original clear desired entry >>= λ field.
          merge_entries original clear desired (entry.key ∷ seen) entries >>= λ (fields, seen').
          ok (field ++ fields, seen'))

  -- The second loop, over the desired fields that no entry had.
  unfoldable pub add_desired : List Text → List (Text × Value) → Result JsonPatchError (List Field)
  add_desired seen [] = ok []
  add_desired seen ((key, value) ∷ desired) = elim (contains seen key) [
    | true ↦ add_desired seen desired
    | false ↦ json_result (serde.to_string value) >>= λ text.
        add_desired (key ∷ seen) desired >>= λ fields. ok ((key, text) ∷ fields)
  ]

  unfoldable pub merge_object_fields :
      Option Bytes → List Text → List (Text × Value) → Result JsonPatchError Bytes
  unfolding validate_object root_entries merge_entries add_desired render_object
  merge_object_fields original clear_fields desired =
      let source = source_or_empty original in
      validate_object serde source
      >> (root_entries serde.decode_key source >>= λ (entries, root_close).
          merge_entries source clear_fields desired [] entries >>= λ (fields, seen).
          add_desired seen desired >>= λ added. render_object serde (fields ++ added))
