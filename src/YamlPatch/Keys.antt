-- ===== src/YamlPatch/Keys.antt =====
-- Tests on one line of a YAML text (src/yaml_patch.rs): keys of the top level, references, comments
-- and the boundaries of a document.
use cc_switch_core.Base.{
  nat_eq, list_eq, option_eq, string_eq, ℕ, suc, Bool, true, false, not, ◌&&◌, ◌||◌, Option, none,
  some, List, [], ◌∷◌, ◌==◌, if◌then◌else◌, nat_beq,
}
use cc_switch_core.Base.{drop, take, head?, contains}
use cc_switch_core.Text.{Text, is_whitespace, trim, trim_start, trim_end, codes}
use cc_switch_core.Text.Search.{starts_with, strip_prefix}
use cc_switch_core.YamlPatch.Scan.{scan_yaml_line, top_level_colon}
use cc_switch_core.YamlPatch.Lines.{lines_of}

abbrev pub starts_with_any : List ℕ → Text → Bool
starts_with_any chars [] = false
starts_with_any chars (c ∷ s) = contains chars c

unfoldable pub document_boundary : Text → Bool
unfolding scan_yaml_line trim
document_boundary line =
    if starts_with_any (b' ' ∷ 9 ∷ []) line
    then false
    else let code = trim (scan_yaml_line line).0 in (code == codes "---" || code == codes "...")

abbrev pub ends_key : Text → Bool
ends_key rest = rest == [] || starts_with_any (b' ' ∷ 9 ∷ 13 ∷ []) rest

abbrev pub colon_ends_key : Text → Option ℕ → Bool
colon_ends_key line none = false
colon_ends_key line (some colon) = ends_key (drop (suc colon) line)

unfoldable pub top_level_key : Text → Bool
unfolding top_level_colon
top_level_key line =
    not (line == [])
    && not (starts_with_any (b' ' ∷ 9 ∷ b'#' ∷ b'-' ∷ []) line)
    && colon_ends_key line (top_level_colon line)

-- `line.strip_prefix(key).is_some_and(|suffix| suffix.starts_with(':'))`
abbrev pub is_canonical : Text → Text → Bool
is_canonical key line = elim (strip_prefix key line) [
  | none ↦ false
  | some suffix ↦ starts_with_any (b':' ∷ []) suffix
]

module _ (string_of : Text → Option Text) where
  abbrev decoded_before : Text → Option ℕ → Option Text
  decoded_before line none = none
  decoded_before line (some colon) = string_of (trim_end (take colon line))

  unfoldable pub decoded_top_level_key : Text → Option Text
  unfolding top_level_key top_level_colon trim_end
  decoded_top_level_key line =
      if not (top_level_key line) then none else decoded_before line (top_level_colon line)

  -- The loop of `has_duplicate_top_level_key`
  unfoldable pub duplicate_in : Text → Bool → List Text → Bool
  unfolding decoded_top_level_key
  duplicate_in key found [] = false
  duplicate_in key found (line ∷ lines) = elim (decoded_top_level_key line == some key) [
    | false ↦ duplicate_in key found lines
    | true ↦ elim (found || not (is_canonical key line)) [
      | true ↦ true
      | false ↦ duplicate_in key true lines
    ]
  ]

  unfoldable pub has_duplicate_top_level_key : Text → Text → Bool
  unfolding duplicate_in lines_of
  has_duplicate_top_level_key raw key = duplicate_in key false (lines_of raw)

unfoldable pub line_has_comment : Text → Bool
unfolding scan_yaml_line
line_has_comment line = (scan_yaml_line line).1

abbrev pub can_precede_reference : Option ℕ → Bool
can_precede_reference none = true
can_precede_reference (some c) = is_whitespace c || contains (codes ":,[{-?") c

abbrev pub starts_name : Option ℕ → Bool
starts_name none = false
starts_name (some c) = not (is_whitespace c) && not (contains (codes "]},") c)

-- Whether an anchor or an alias stands in the text, after this character.
unfoldable pub reference_after : Option ℕ → Text → Bool
reference_after before [] = false
reference_after before (character ∷ rest) =
    ((nat_beq character b'&' || nat_beq character b'*')
      && (can_precede_reference before && starts_name (head? rest)))
    || reference_after (some character) rest

unfoldable pub line_has_reference : Text → Bool
unfolding scan_yaml_line trim_start reference_after
line_has_reference line =
    let code = (scan_yaml_line line).0 in
    starts_with (codes "<<:") (trim_start code) || reference_after none code

abbrev pub any_line : (Text → Bool) → List Text → Bool
any_line test [] = false
any_line test (line ∷ lines) = test line || any_line test lines

unfoldable pub document_has_references : Text → Bool
unfolding lines_of line_has_reference
document_has_references raw = any_line line_has_reference (lines_of raw)
