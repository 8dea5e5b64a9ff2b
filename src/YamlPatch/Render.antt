-- ===== src/YamlPatch/Render.antt =====
-- The text that is written into a YAML text, and the cuts of the text (src/yaml_patch.rs).
use cc_switch_core.Base.{
  nat_eq, list_eq, option_eq, string_eq, ℕ, zero, suc, Bool, not, ◌&&◌, ◌||◌, none, some, List, [],
  ◌∷◌, ◌++◌, reverse, Result, ok, err, ◌>>=◌, if◌then◌else◌, length, ltb,
}
use cc_switch_core.Base.{drop, take, slice, contains}
use cc_switch_core.Text.{Text, codes}
use cc_switch_core.Text.Search.{ends_with, strip_prefix}
use cc_switch_core.YamlPatch.{YamlPatchError, SerdeYaml}
use cc_switch_core.YamlPatch.YamlPatchError.{not_serialized, multiline_string}
use cc_switch_core.YamlPatch.Lines.{plain_of}

-- `" ".repeat(indent)`
abbrev pub spaces : ℕ → Text
spaces zero = []
spaces (suc n) = b' ' ∷ spaces n

module _ (serde : SerdeYaml) where
  abbrev scalar_of : Result Text Text → Result YamlPatchError Text
  scalar_of (err e) = err (not_serialized e)
  scalar_of (ok scalar) =
      if contains (plain_of scalar) 10 then err multiline_string else ok (plain_of scalar)

  -- The loop of `render_field`: one line for each value
  unfoldable pub render_values : Text → Text → List Text → Result YamlPatchError Text
  unfolding plain_of
  render_values prefix line_ending [] = ok []
  render_values prefix line_ending (value ∷ values) =
      scalar_of (serde.to_string value) >>= λ scalar.
      render_values prefix line_ending values >>= λ rest.
      ok (prefix ++ codes "  - " ++ scalar ++ line_ending ++ rest)

  unfoldable pub render_field : ℕ → Text → List Text → Text → Result YamlPatchError Text
  unfolding render_values
  render_field indent field_key [] line_ending =
      ok (spaces indent ++ field_key ++ codes ": []" ++ line_ending)
  render_field indent field_key (value ∷ values) line_ending =
      render_values (spaces indent) line_ending (value ∷ values) >>= λ rendered.
      ok (spaces indent ++ field_key ++ codes ":" ++ line_ending ++ rendered)

  unfoldable pub render_section : Text → Text → List Text → Text → Result YamlPatchError Text
  unfolding render_field
  render_section section_key field_key values line_ending =
      render_field 2 field_key values line_ending >>= λ field.
      ok (section_key ++ codes ":" ++ line_ending ++ field)

-- `rendered.strip_suffix(line_ending).unwrap_or(rendered)`
abbrev pub without_ending : Text → Text → Text
without_ending line_ending rendered = elim (strip_prefix (reverse line_ending) (reverse rendered)) [
  | none ↦ rendered
  | some rest ↦ reverse rest
]

-- `text.ends_with('\n')`
abbrev pub ends_line : Text → Bool
ends_line text = ends_with (10 ∷ []) text

unfoldable pub replace_range : Text → ℕ → ℕ → Text → Text → Text
replace_range raw start end rendered line_ending =
    let kept =
      if ends_line (slice start end raw) || ltb end (length raw)
      then rendered
      else without_ending line_ending rendered in
    take start raw ++ kept ++ drop end raw

-- Every position counts characters here, so the check of `is_char_boundary` passes.
unfoldable pub insert_at : Text → ℕ → Text → Text → Text
insert_at raw offset rendered line_ending =
    let separator = if ltb 0 offset && not (ends_line (take offset raw)) then line_ending else [] in
    take offset raw ++ separator ++ rendered ++ drop offset raw
