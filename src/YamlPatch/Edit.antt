-- ===== src/YamlPatch/Edit.antt =====
-- The replacement of a sequence of strings in a section of a YAML text (src/yaml_patch.rs).
use cc_switch_core.Base.{
  nat_eq, list_eq, option_eq, string_eq, ℕ, suc, Bool, true, false, not, ◌&&◌, ◌||◌, Option, none,
  some, List, [], ◌∷◌, ◌++◌, Result, ok, err, ◌>>=◌, ◌==◌, if◌then◌else◌, length, ltb, leb, nat_beq,
}
use cc_switch_core.Base.{drop, slice, contains, get_elem?}
use cc_switch_core.Base.{drop, slice, contains, get_elem?}
use cc_switch_core.Text.{Text, trim, is_whitespace, codes}
use cc_switch_core.Text.Search.{strip_prefix}
use cc_switch_core.YamlPatch.{YamlPatchError, SerdeYaml}
use cc_switch_core.YamlPatch.YamlPatchError.{
  section_not_updatable, header_ambiguous, inline_value, not_indented_mapping,
  entry_not_preservable, field_ambiguous,
}
use cc_switch_core.YamlPatch.Lines.{
  LineSpan, line_spans, line_end, indentation, is_blank, preferred_line_ending, plain_of,
}
use cc_switch_core.YamlPatch.Keys.{decoded_top_level_key, is_canonical}
use cc_switch_core.YamlPatch.Section.{section_range, uses_flow_root, document_end_offset}
use cc_switch_core.YamlPatch.Render.{render_field, render_section, replace_range, insert_at}

unfoldable pub is_indentless_sequence_item : Text → Bool
is_indentless_sequence_item line = elim (strip_prefix (b'-' ∷ []) line) [
  | none ↦ false
  | some [] ↦ true
  | some (c ∷ rest) ↦ is_whitespace c
]

-- The indentations of the lines that are not blank
unfoldable pub indentations : List LineSpan → Result YamlPatchError (List ℕ)
unfolding indentation is_blank
indentations [] = ok []
indentations (line ∷ lines) = elim (is_blank line.plain) [
  | true ↦ indentations lines
  | false ↦
      indentation line.plain >>= λ indent. indentations lines >>= λ indents. ok (indent ∷ indents)
]

-- `into_iter().min()`
abbrev pub minimum : List ℕ → Option ℕ
minimum [] = none
minimum (n ∷ numbers) = elim (minimum numbers) [
  | none ↦ some n
  | some m ↦ some (if leb n m then n else m)
]

abbrev pub number_or : ℕ → Option ℕ → ℕ
number_or default none = default
number_or default (some n) = n

abbrev pub is_present : Option ℕ → Bool
is_present none = false
is_present (some n) = true

-- The end of the field, past the lines that go on with it.
unfoldable pub field_end : ℕ → ℕ → List LineSpan → Result YamlPatchError ℕ
unfolding indentation is_blank is_indentless_sequence_item
field_end child_indent end [] = ok end
field_end child_indent end (line ∷ lines) = elim (is_blank line.plain) [
  | true ↦ field_end child_indent end lines
  | false ↦ indentation line.plain >>= λ indent.
      elim (ltb indent child_indent
        || (nat_beq indent child_indent
            && not (is_indentless_sequence_item (drop indent line.plain)))) [
              | true ↦ ok end
              | false ↦ field_end child_indent line.end lines
            ]
]

-- The end of the last line that is not blank
unfoldable pub last_line_end : ℕ → List LineSpan → ℕ
unfolding is_blank
last_line_end default [] = default
last_line_end default (line ∷ lines) =
    if is_blank line.plain then last_line_end default lines else last_line_end line.end lines

unfoldable pub put_rendered :
    Text → ℕ → ℕ → List LineSpan → Option ℕ → Text → Text → Result YamlPatchError Text
unfolding field_end last_line_end replace_range insert_at
put_rendered raw body_start child_indent lines none rendered line_ending =
    ok (insert_at raw (last_line_end body_start lines) rendered line_ending)
put_rendered raw body_start child_indent lines (some index) rendered line_ending =
    elim (get_elem? lines index) [
      -- The index is one of the lines'.
      | none ↦ ok raw
      | some line ↦ field_end child_indent line.end (drop (suc index) lines) >>= λ end.
          ok (replace_range raw line.start end rendered line_ending)
    ]

abbrev pub is_null : Text → Bool
is_null suffix =
    contains (codes "{}" ∷ codes "null" ∷ codes "Null" ∷ codes "NULL" ∷ codes "~" ∷ []) suffix

module _ (serde : SerdeYaml) where
  -- What a line at the indentation of the fields says of the field's index so far.
  unfoldable pub field_at : Text → Text → Option ℕ → ℕ → Text → Result YamlPatchError (Option ℕ)
  unfolding is_indentless_sequence_item decoded_top_level_key
  field_at section_key field_key field_index index entry =
      if is_indentless_sequence_item entry
      then ok field_index
      else elim (decoded_top_level_key serde.string_of entry) [
        | none ↦ err (entry_not_preservable section_key)
        | some decoded ↦
            if not (decoded == field_key)
            then ok field_index
            else if not (is_canonical field_key entry) || is_present field_index
            then err (field_ambiguous section_key field_key)
            else ok (some index)
      ]

  unfoldable pub find_field :
      Text → Text → ℕ → Option ℕ → ℕ → List LineSpan → Result YamlPatchError (Option ℕ)
  unfolding field_at indentation is_blank
  find_field section_key field_key child_indent field_index index [] = ok field_index
  find_field section_key field_key child_indent field_index index (line ∷ lines) =
      (if is_blank line.plain
        then ok field_index
        else (indentation line.plain >>= λ indent.
            if not (nat_beq indent child_indent)
            then ok field_index
            else field_at section_key field_key field_index index (drop child_indent line.plain)))
      >>= λ found. find_field section_key field_key child_indent found (suc index) lines

  unfoldable pub replace_in_body :
      Text → Text → Text → List Text → ℕ → ℕ → Result YamlPatchError Text
  unfolding line_spans indentations find_field render_field put_rendered preferred_line_ending
  replace_in_body raw section_key field_key values body_start section_end =
      let lines = line_spans raw body_start section_end in
      indentations lines >>= λ indents.
      let child_indent = number_or 2 (minimum indents) in
      if nat_beq child_indent 0
      then err (not_indented_mapping section_key)
      else (find_field section_key field_key child_indent none 0 lines >>= λ field_index.
          render_field serde child_indent field_key values (preferred_line_ending raw)
          >>= λ rendered.
              put_rendered raw body_start child_indent lines field_index rendered
                (preferred_line_ending raw))

  unfoldable pub replace_in_section :
      Text → Text → Text → List Text → ℕ → ℕ → Result YamlPatchError Text
  unfolding line_end plain_of trim replace_in_body render_section replace_range
      preferred_line_ending
  replace_in_section raw section_key field_key values section_start section_end =
      let header_end = line_end raw section_start in
      let header = plain_of (slice section_start header_end raw) in
      elim (strip_prefix (section_key ++ codes ":") header) [
        | none ↦ err (header_ambiguous section_key)
        | some rest ↦
            let suffix = trim rest in
            if is_null suffix
            then (render_section serde section_key field_key values (preferred_line_ending raw)
                >>= λ rendered. ok (
                    replace_range raw section_start header_end rendered
                      (preferred_line_ending raw)))
            else if not (suffix == [])
            then err (inline_value section_key)
            else replace_in_body raw section_key field_key values header_end section_end
      ]

  unfoldable pub replace_top_level_string_sequence :
      Text → Text → Text → List Text → Bool → Result YamlPatchError Text
  unfolding section_range replace_in_section uses_flow_root document_end_offset render_section
      insert_at preferred_line_ending
  replace_top_level_string_sequence raw section_key field_key values section_existed =
      elim (section_range raw section_key) [
        | some (section_start, section_end) ↦
            replace_in_section raw section_key field_key values section_start section_end
        | none ↦
            if section_existed || uses_flow_root raw
            then err (section_not_updatable section_key)
            else (render_section serde section_key field_key values (preferred_line_ending raw)
                >>= λ rendered. ok (
                    insert_at raw (number_or (length raw) (document_end_offset raw)) rendered
                      (preferred_line_ending raw)))
      ]
