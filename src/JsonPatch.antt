-- ===== src/JsonPatch.antt =====
-- Edits of a JSON text in place (src/mcp/json_patch.rs). A `&str` is the list of its UTF-8 bytes, an
-- object's key, once decoded, the list of its code points.
pub mod Scan
pub mod Entries
pub mod Edit
pub mod Syntax
pub mod Cursor
pub mod ScanLaws
pub mod CompositeLaws
pub mod ValueLaws
pub mod MemberLaws
pub mod RootLaws
pub mod Merge
pub mod FieldEdits
pub mod FieldTexts
pub mod EditLaws
pub mod ReadBack
pub mod ScanFinish
pub mod Finish
mod Examples
use cc_switch_core.Base.{
  nat_eq, list_eq, option_eq, string_eq, list_beq_iff, option_beq_iff, beq_refl, eq_or_ne, ℕ, zero,
  suc, ◌+◌, ◌-◌, ◌*◌, ◌≤◌, ◌<◌, max, String, ◌≡◌, refl, sym, ap, subst, ◌∙◌, ◌≢◌, ◌↔◌, ◌⊎◌, inl,
  inr, Bool, true, false, not, ◌&&◌, ◌||◌, Option, none, some, List, [], ◌∷◌, ◌++◌, map, reverse,
  append-nil, append_assoc, arith, Result, ok, err, ◌>>=◌, ◌==◌, Eq, if◌then◌else◌, length, All,
  Bool-cases, Option-cases, ltb, leb, nat_beq,
}
use cc_switch_core.Text.{Text, Bytes}

-- The error texts, one constructor for each. Two are the model's own: `unfinished` is for a loop
-- without fuel, and `panicked` for a panic of `String::replace_range`.
pub data JsonPatchError : Type 0 where
  root_not_object : JsonPatchError
  trailing_content : JsonPatchError
  key_not_string : JsonPatchError
  string_incomplete : JsonPatchError
  key_invalid : JsonPatchError
  colon_missing : JsonPatchError
  value_not_followed : JsonPatchError
  value_empty : JsonPatchError
  value_missing : JsonPatchError
  container_incomplete : JsonPatchError
  not_json : JsonPatchError
  duplicate_fields : Text → JsonPatchError
  json_error : Text → JsonPatchError
  unfinished : JsonPatchError
  panicked : JsonPatchError

pub record Entry : Type 0 where
  pub key : Text
  pub start : ℕ
  pub end : ℕ

-- What the code calls of serde_json.
pub record Serde (Value : Type 0) : Type 1 where
  -- `serde_json::from_slice::<String>`
  pub decode_key : Bytes → Option Text
  -- `serde_json::to_string` of a `&str`
  pub encode_key : Text → Result Text Bytes
  -- `serde_json::to_string` of a `Value`
  pub to_string : Value → Result Text Bytes
  -- `RawValue::from_string`: whether the text is one JSON value
  pub is_json : Bytes → Bool
