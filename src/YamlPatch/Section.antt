-- ===== src/YamlPatch/Section.antt =====
-- Where a section of a YAML text stands, and where the document ends (src/yaml_patch.rs).
use cc_switch_core.Base.{
  nat_eq, list_eq, option_eq, string_eq, ℕ, ◌+◌, Bool, true, false, ◌&&◌, ◌||◌, Option, none, some,
  List, [], ◌∷◌, ◌++◌, ◌==◌, if◌then◌else◌, length,
}
use cc_switch_core.Base.{slice}
use cc_switch_core.Text.{Text, trim, trim_start, codes}
use cc_switch_core.Text.Search.{starts_with, strip_prefix}
use cc_switch_core.YamlPatch.Lines.{split_inclusive, lines_of, plain_of}
use cc_switch_core.YamlPatch.Keys.{
  top_level_key, document_boundary, starts_with_any, line_has_comment, any_line,
}

-- The line that starts the section, and a line that ends one
unfoldable pub is_header : Text → Text → Bool
unfolding top_level_key plain_of
is_header key line = top_level_key (plain_of line) && starts_with (key ++ codes ":") (plain_of line)

unfoldable pub ends_section : Text → Bool
unfolding top_level_key document_boundary plain_of
ends_section line = top_level_key (plain_of line) || document_boundary (plain_of line)

-- The loop of `section_range`; `total` is the length of the text.
unfoldable pub section_from : Text → Option ℕ → ℕ → ℕ → List Text → Option (ℕ × ℕ)
unfolding is_header ends_section
section_from key none offset total [] = none
section_from key (some start) offset total [] = some (start, total)
section_from key none offset total (line ∷ lines) = elim (is_header key line) [
  | true ↦ section_from key (some offset) (offset + length line) total lines
  | false ↦ section_from key none (offset + length line) total lines
]
section_from key (some start) offset total (line ∷ lines) = elim (ends_section line) [
  | true ↦ some (start, offset)
  | false ↦ section_from key (some start) (offset + length line) total lines
]

unfoldable pub section_range : Text → Text → Option (ℕ × ℕ)
unfolding section_from split_inclusive
section_range raw key = section_from key none 0 (length raw) (split_inclusive raw)

abbrev ends_document : Text → Bool
ends_document plain = document_boundary plain && starts_with (codes "...") (trim_start plain)

unfoldable pub document_end_from : ℕ → List Text → Option ℕ
unfolding plain_of document_boundary trim_start
document_end_from offset [] = none
document_end_from offset (line ∷ lines) =
    let later = document_end_from (offset + length line) lines in
    if ends_document (plain_of line) then some offset else later

unfoldable pub document_end_offset : Text → Option ℕ
unfolding document_end_from split_inclusive
document_end_offset raw = document_end_from 0 (split_inclusive raw)

-- `line.strip_prefix("---").unwrap_or(line).trim_start()`
abbrev pub after_marker : Text → Text
after_marker line = elim (strip_prefix (codes "---") line) [
  | none ↦ trim_start line
  | some rest ↦ trim_start rest
]

unfoldable pub flow_root_in : List Text → Bool
unfolding trim trim_start
flow_root_in [] = false
flow_root_in (raw_line ∷ lines) =
    let later = flow_root_in lines in
    let line = trim raw_line in
    if line == [] || starts_with_any (b'#' ∷ b'%' ∷ []) line
    then later
    else if after_marker line == []
    then later
    else starts_with_any (b'{' ∷ []) (after_marker line)

unfoldable pub uses_flow_root : Text → Bool
unfolding flow_root_in lines_of
uses_flow_root raw = flow_root_in (lines_of raw)

unfoldable pub top_level_section_has_comments : Text → Text → Bool
unfolding section_range line_has_comment lines_of
top_level_section_has_comments raw key = elim (section_range raw key) [
  | none ↦ false
  | some (start, end) ↦ any_line line_has_comment (lines_of (slice start end raw))
]
