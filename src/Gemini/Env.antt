-- ===== src/Gemini/Env.antt =====
-- Assignment lines (src/gemini/env.rs). `alphanumeric` stands for `char::is_alphanumeric` (Unicode's
-- tables).

pub mod Assignments
pub mod Sorting
pub mod RoundTrip
mod Examples
use cc_switch_core.Base.{
  nat_eq, list_eq, option_eq, string_eq, ℕ, suc, ◌+◌, Bool, true, false, not, ◌&&◌, ◌||◌, Option,
  none, some, List, [], ◌∷◌, ◌++◌, reverse, Result, ok, err, if◌then◌else◌, ltb, leb, nat_beq,
}
use cc_switch_core.Base.{all, contains, is_empty, map_err}
use cc_switch_core.Text.{Text, trim}
use cc_switch_core.Base.{is_empty}

pub data EnvAssignmentSyntax : Type 0 where
  portable unicode_literal : EnvAssignmentSyntax

pub data EnvAssignmentErrorKind : Type 0 where
  missing_separator empty_key invalid_key invalid_value : EnvAssignmentErrorKind

pub record EnvAssignmentError : Type 0 where
  pub line : ℕ
  pub kind : EnvAssignmentErrorKind

-- The text before the first separator, and the text after it: `str::split_once` with a character.
unfoldable pub split_once : ℕ → Text → Option (Text × Text)
split_once d [] = none
split_once d (c ∷ s) =
    let rest = split_once d s in
    if nat_beq c d
    then some ([], s)
    else elim rest [ none ↦ none | some (left, right) ↦ some (c ∷ left, right) ]

-- `char::is_ascii_alphanumeric`
unfoldable pub is_ascii_alphanumeric : ℕ → Bool
is_ascii_alphanumeric c =
    (leb b'0' c && leb c b'9') || (leb b'A' c && leb c b'Z') || (leb b'a' c && leb c b'z')

abbrev without_return : Text → Text
without_return [] = []
without_return (c ∷ s) = if nat_beq c b'\r' then s else c ∷ s

-- `str::lines`: the text is cut after each line feed; an empty last line does not count, and a
-- carriage return before a line feed belongs to the line's end. `current` is the line so far,
-- reversed.
unfoldable pub cut_lines : Text → Text → List Text
cut_lines current [] = if is_empty current then [] else reverse current ∷ []
cut_lines current (c ∷ s) = elim (nat_beq c b'\n') [
  | true ↦ reverse (without_return current) ∷ cut_lines [] s
  | false ↦ cut_lines (c ∷ current) s
]

-- Whether a character may stand in a name.
unfoldable pub is_name_char : (ℕ → Bool) → EnvAssignmentSyntax → ℕ → Bool
is_name_char alphanumeric portable c = nat_beq c b'_' || is_ascii_alphanumeric c
is_name_char alphanumeric unicode_literal c = nat_beq c b'_' || alphanumeric c

-- Whether a value has none of the characters that the syntax refuses.
unfoldable pub is_allowed_value : EnvAssignmentSyntax → Text → Bool
is_allowed_value portable value =
    not (contains value b'\r' || contains value b'\n' || contains value 0)
is_allowed_value unicode_literal value = true

unfoldable pub check_assignment :
    (ℕ → Bool) → EnvAssignmentSyntax → Text → Text → Result EnvAssignmentErrorKind (Text × Text)
check_assignment alphanumeric syntax key value =
    if is_empty key
    then err empty_key
    else if not (all (is_name_char alphanumeric syntax) key)
    then err invalid_key
    else if not (is_allowed_value syntax value)
    then err invalid_value
    else ok (key, value)

-- The closure `parse` on a trimmed line.
unfoldable pub parse_line :
    (ℕ → Bool) → EnvAssignmentSyntax → Text → Result EnvAssignmentErrorKind (Text × Text)
parse_line alphanumeric syntax line = elim (split_once b'=' line) [
  | none ↦ err missing_separator
  | some (key, value) ↦ check_assignment alphanumeric syntax (trim key) (trim value)
]

-- A blank line or a comment
unfoldable pub is_skipped : Text → Bool
is_skipped [] = true
is_skipped (c ∷ s) = nat_beq c b'#'

-- The lines from an index on.
unfoldable pub parse_lines :
    (ℕ → Bool)
    → EnvAssignmentSyntax
    → ℕ
    → List Text
    → List (Result EnvAssignmentError (Text × Text))
parse_lines alphanumeric syntax index [] = []
parse_lines alphanumeric syntax index (l ∷ ls) =
    let rest = parse_lines alphanumeric syntax (suc index) ls in
    if is_skipped (trim l)
    then rest
    else map_err (λ kind. record { line = index + 1; kind = kind })
        (parse_line alphanumeric syntax (trim l))
      ∷ rest

-- `parse_env_assignments`
unfoldable pub parse_env_assignments :
    (ℕ → Bool) → Text → EnvAssignmentSyntax → List (Result EnvAssignmentError (Text × Text))
parse_env_assignments alphanumeric content syntax =
    parse_lines alphanumeric syntax 0 (cut_lines [] content)

-- `str::cmp`: the order of the UTF-8 bytes is that of the code points.
unfoldable pub precedes : Text → Text → Bool
precedes s [] = false
precedes [] (d ∷ t) = true
precedes (c ∷ s) (d ∷ t) = ltb c d || (nat_beq c d && precedes s t)

unfoldable pub insert : Text × Text → List (Text × Text) → List (Text × Text)
insert a [] = a ∷ []
insert a (b ∷ bs) = elim (precedes b.0 a.0) [ true ↦ b ∷ insert a bs | false ↦ a ∷ b ∷ bs ]

-- `sort_by` on the names, which keeps the order of equal names.
unfoldable pub sort_by_key : List (Text × Text) → List (Text × Text)
sort_by_key [] = []
sort_by_key (a ∷ rest) = insert a (sort_by_key rest)

abbrev pub assignment : Text × Text → Text
assignment (key, value) = key ++ (b'=' ∷ value)

-- The loop that writes the assignments; each but the first follows a line feed.
unfoldable pub write_next : List (Text × Text) → Text
write_next [] = []
write_next (a ∷ rest) = b'\n' ∷ (assignment a ++ write_next rest)

unfoldable pub write_all : List (Text × Text) → Text
write_all [] = []
write_all (a ∷ rest) = assignment a ++ write_next rest

-- `render_literal_env_assignments`
unfoldable pub render_literal_env_assignments : List (Text × Text) → Text
render_literal_env_assignments assignments = write_all (sort_by_key assignments)
