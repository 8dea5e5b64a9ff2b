-- ===== src/YamlPatch.antt =====
-- Edits of one field in a section of a YAML text (src/yaml_patch.rs). A `&str` is the
-- list of its code points, and a position in it, which the code only uses to cut the text, counts
-- code points. So every position is a character boundary.
pub mod Lines
pub mod Scan
pub mod Keys
pub mod Section
pub mod Render
pub mod Edit
pub mod LineLaws
pub mod SectionLaws
pub mod EditLaws
pub mod Duplicates
mod Examples
use cc_switch_core.Base.{
  nat_eq, list_eq, option_eq, string_eq, list_beq_iff, option_beq_iff, beq_refl, eq_or_ne, ℕ, zero,
  suc, ◌+◌, ◌-◌, ◌*◌, ◌≤◌, ◌<◌, max, String, ◌≡◌, refl, sym, ap, subst, ◌∙◌, ◌≢◌, ◌↔◌, ◌⊎◌, inl,
  inr, Bool, true, false, not, ◌&&◌, ◌||◌, Option, none, some, List, [], ◌∷◌, ◌++◌, map, reverse,
  append-nil, append_assoc, arith, Result, ok, err, ◌>>=◌, ◌==◌, Eq, if◌then◌else◌, length, All,
  Bool-cases, Option-cases, ltb, leb, nat_beq,
}
use cc_switch_core.Text.{Text}

-- The error texts, one constructor for each
pub data YamlPatchError : Type 0 where
  section_not_updatable : Text → YamlPatchError
  header_ambiguous : Text → YamlPatchError
  inline_value : Text → YamlPatchError
  indentation_not_spaces : YamlPatchError
  not_indented_mapping : Text → YamlPatchError
  entry_not_preservable : Text → YamlPatchError
  field_ambiguous : Text → Text → YamlPatchError
  not_serialized : Text → YamlPatchError
  multiline_string : YamlPatchError

-- What the code calls of serde_yaml.
pub record SerdeYaml : Type 0 where
  -- `serde_yaml::from_str::<String>`
  pub string_of : Text → Option Text
  -- `serde_yaml::to_string` of `Value::String`
  pub to_string : Text → Result Text Text
