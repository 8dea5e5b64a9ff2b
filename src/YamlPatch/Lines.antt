-- ===== src/YamlPatch/Lines.antt =====
-- The lines of a YAML text (src/yaml_patch.rs), and the standard library's `split_inclusive`.
use cc_switch_core.Base.{
  nat_eq, list_eq, option_eq, string_eq, ℕ, suc, ◌+◌, Bool, false, ◌&&◌, ◌||◌, some, List, [], ◌∷◌,
  map, reverse, Result, ok, err, ◌==◌, if◌then◌else◌, length, nat_beq,
}
use cc_switch_core.Base.{drop, head?, slice, all}
use cc_switch_core.Text.{Text, is_whitespace, trim}
use cc_switch_core.YamlPatch.{YamlPatchError}
use cc_switch_core.YamlPatch.YamlPatchError.{indentation_not_spaces}

abbrev pub join_char : ℕ → List Text → List Text
join_char c [] = (c ∷ []) ∷ []
join_char c (line ∷ lines) = (c ∷ line) ∷ lines

-- `str::split_inclusive('\n')`
unfoldable pub split_inclusive : Text → List Text
split_inclusive [] = []
split_inclusive (c ∷ s) =
    let lines = split_inclusive s in if nat_beq c 10 then (c ∷ []) ∷ lines else join_char c lines

unfoldable pub drop_line_ends : Text → Text
drop_line_ends [] = []
drop_line_ends (c ∷ s) =
    let rest = drop_line_ends s in if nat_beq c 13 || nat_beq c 10 then rest else c ∷ s

-- `trim_end_matches(['\r', '\n'])`
unfoldable pub plain_of : Text → Text
unfolding drop_line_ends
plain_of line = reverse (drop_line_ends (reverse line))

abbrev pub strip_return : Text → Text
strip_return [] = []
strip_return (d ∷ more) = if nat_beq d 13 then more else d ∷ more

-- Of a line from its end, what is before `\n` or `\r\n`
abbrev pub strip_feed : Text → Text
strip_feed [] = []
strip_feed (c ∷ rest) = if nat_beq c 10 then strip_return rest else c ∷ rest

abbrev pub strip_line_end : Text → Text
strip_line_end line = reverse (strip_feed (reverse line))

-- `str::lines`
unfoldable pub lines_of : Text → List Text
unfolding split_inclusive
lines_of raw = map strip_line_end (split_inclusive raw)

pub record LineSpan : Type 0 where
  pub start : ℕ
  pub end : ℕ
  pub plain : Text

unfoldable pub spans_from : ℕ → List Text → List LineSpan
unfolding plain_of
spans_from offset [] = []
spans_from offset (line ∷ lines) =
    record { start = offset; end = offset + length line; plain = plain_of line }
    ∷ spans_from (offset + length line) lines

unfoldable pub line_spans : Text → ℕ → ℕ → List LineSpan
unfolding spans_from split_inclusive
line_spans raw start end = spans_from start (split_inclusive (slice start end raw))

abbrev pub leading_whitespace : Text → Text
leading_whitespace [] = []
leading_whitespace (c ∷ s) = if is_whitespace c then c ∷ leading_whitespace s else []

unfoldable pub indentation : Text → Result YamlPatchError ℕ
indentation line =
    let prefix = leading_whitespace line in
    if all (λ c. nat_beq c b' ') prefix then ok (length prefix) else err indentation_not_spaces

-- `line.plain.trim().is_empty()`
unfoldable pub is_blank : Text → Bool
unfolding trim
is_blank line = trim line == []

-- The text up to and with the first line feed, or to its end
abbrev pub first_line_length : Text → ℕ
first_line_length [] = 0
first_line_length (c ∷ s) = if nat_beq c 10 then 1 else suc (first_line_length s)

unfoldable pub line_end : Text → ℕ → ℕ
line_end raw start = start + first_line_length (drop start raw)

-- `raw.contains("\r\n")`
abbrev pub has_crlf : Text → Bool
has_crlf [] = false
has_crlf (c ∷ s) = (nat_beq c 13 && (head? s == some 10)) || has_crlf s

unfoldable pub preferred_line_ending : Text → Text
preferred_line_ending raw = if has_crlf raw then 13 ∷ 10 ∷ [] else 10 ∷ []
