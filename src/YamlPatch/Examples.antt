-- ===== src/YamlPatch/Examples.antt =====
-- Tests of the model of src/yaml_patch.rs, and its theorems at a concrete text. The stand-in for
-- serde_yaml takes every text for itself.
use cc_switch_core.Base.{
  nat_eq, list_eq, option_eq, string_eq, ℕ, ◌≡◌, refl, ◌⊎◌, true, false, none, some, [], ◌∷◌, ok,
  length,
}
use cc_switch_core.Text.{Text, codes, trim, trim_start, trim_end, is_whitespace}
use cc_switch_core.Text.Search.{starts_with, ends_with, strip_prefix}
use cc_switch_core.YamlPatch.{SerdeYaml}
use cc_switch_core.YamlPatch.Lines.{
  split_inclusive, drop_line_ends, plain_of, lines_of, spans_from, line_spans, indentation,
  is_blank, line_end, preferred_line_ending,
}
use cc_switch_core.YamlPatch.Scan.{
  quoted_scalar_can_start, scan_character, scan_from, scan_yaml_line, colon_from, top_level_colon,
}
use cc_switch_core.YamlPatch.Keys.{
  document_boundary, top_level_key, decoded_top_level_key, has_duplicate_top_level_key,
  reference_after, line_has_reference, document_has_references,
}
use cc_switch_core.YamlPatch.Section.{
  is_header, ends_section, section_from, section_range, document_end_offset,
}
use cc_switch_core.YamlPatch.Render.{
  render_values, render_field, render_section, replace_range, insert_at,
}
use cc_switch_core.YamlPatch.Edit.{
  is_indentless_sequence_item, indentations, field_end, last_line_end, put_rendered, field_at,
  find_field, replace_in_body, replace_in_section, replace_top_level_string_sequence, number_or,
}
use cc_switch_core.YamlPatch.SectionLaws.{SectionParts, section_range-SectionParts}
use cc_switch_core.YamlPatch.EditLaws.{
  IsKeptOutside, replace_top_level_string_sequence-IsKeptOutside,
}
use cc_switch_core.YamlPatch.Duplicates.{
  is_repeated, lines_with_key, has_duplicate_top_level_key-is_repeated,
}

abbrev serde : SerdeYaml
serde = record { string_of = λ s. some s; to_string = λ s. ok s }

abbrev raw : Text
raw = codes "a: 1\nplugins:\n  old: 2\n  enabled:\n    - x\nb: 3\n"

abbrev edited : Text
edited = codes "a: 1\nplugins:\n  old: 2\n  enabled:\n    - y\nb: 3\n"

edit_run :
    replace_top_level_string_sequence serde raw
      (codes "plugins")
      (codes "enabled")
      (codes "y" ∷ [])
      true
    ≡ ok edited
unfolding replace_top_level_string_sequence replace_in_section replace_in_body find_field field_at
    put_rendered last_line_end field_end indentations is_indentless_sequence_item insert_at
    replace_range render_section render_field render_values section_range section_from ends_section
    is_header decoded_top_level_key top_level_key document_boundary top_level_colon colon_from
    scan_yaml_line scan_from scan_character quoted_scalar_can_start preferred_line_ending line_end
    is_blank indentation line_spans spans_from plain_of drop_line_ends split_inclusive strip_prefix
    starts_with ends_with trim trim_start trim_end is_whitespace
edit_run = refl

references :
    (document_has_references (codes "a: 'it''s *x'\nb: 1 # &c\n") ≡ false)
    × (document_has_references (codes "a: &x 1\n") ≡ true)
unfolding document_has_references line_has_reference reference_after lines_of split_inclusive
    scan_yaml_line scan_from scan_character quoted_scalar_can_start trim_start is_whitespace
    starts_with strip_prefix
references = (refl, refl)

section : section_range raw (codes "plugins") ≡ some (5, 42)
unfolding section_range section_from ends_section is_header top_level_key document_boundary
    top_level_colon colon_from scan_yaml_line scan_from scan_character quoted_scalar_can_start
    plain_of drop_line_ends split_inclusive strip_prefix starts_with trim trim_start trim_end
    is_whitespace
section = refl

replace_top_level_string_sequence-IsKeptOutside_example :
    ((start : ℕ) × (end : ℕ) × (section_range raw (codes "plugins") ≡ some (start, end))
      × IsKeptOutside raw start end edited)
    ⊎ ((section_range raw (codes "plugins") ≡ none)
        × (let at = number_or (length raw) (document_end_offset raw) in
            IsKeptOutside raw at at edited))
replace_top_level_string_sequence-IsKeptOutside_example =
    replace_top_level_string_sequence-IsKeptOutside serde raw (codes "plugins") (codes "enabled")
      (codes "y" ∷ []) edited true edit_run

section_range-SectionParts_example : SectionParts (codes "plugins") (split_inclusive raw) 0 5 42
section_range-SectionParts_example = section_range-SectionParts raw (codes "plugins") 5 42 section

has_duplicate_top_level_key-is_repeated_example :
    has_duplicate_top_level_key serde.string_of raw (codes "a")
    ≡ is_repeated serde.string_of
        (codes "a")
        false
        (lines_with_key serde.string_of (codes "a") (lines_of raw))
has_duplicate_top_level_key-is_repeated_example =
    has_duplicate_top_level_key-is_repeated serde.string_of (codes "a") raw
