-- ===== src/Gemini/Env/Examples.antt =====
-- Tests of the environment file's model, and its theorems at concrete inputs.
use cc_switch_core.Base.{
  nat_eq, list_eq, option_eq, string_eq, ℕ, ◌≡◌, refl, Bool, true, false, not, ◌&&◌, List, [], ◌∷◌,
  map, arith, ok, err, All, nat_beq,
}
use cc_switch_core.Base.{all}
use cc_switch_core.Text.{Text, codes, trim, trim_start, trim_end, is_whitespace}
use cc_switch_core.Gemini.Env.{
  portable, missing_separator, split_once, is_ascii_alphanumeric, is_name_char, is_allowed_value,
  check_assignment, parse_line, is_skipped, parse_lines, cut_lines, parse_env_assignments, insert,
  sort_by_key, precedes, write_next, write_all, render_literal_env_assignments,
}
use cc_switch_core.Gemini.Env.Assignments.{IsAssignment, OneLine, parse_line-ok}
use cc_switch_core.Gemini.Env.Sorting.{IsInOrder, of_name}
use cc_switch_core.Gemini.Env.RoundTrip.{IsNameSafe, IsLiteral, parse_env_assignments-render}

abbrev none_else : ℕ → Bool
none_else c = false

abbrev settings : List (Text × Text)
settings = (codes "Z", codes "'literal'") ∷ (codes "A", codes "x=y") ∷ []

ends_no_line : ℕ → Bool
ends_no_line c = not (nat_beq c b'\n') && not (nat_beq c b'\r')

one_line : (s : Text) → all ends_no_line s ≡ true → OneLine s
unfolding ends_no_line
one_line [] h = tt
one_line (c ∷ s) h = ((ground arith, ground arith), one_line s (ground arith))

rendered : render_literal_env_assignments settings ≡ codes "A=x=y\nZ='literal'"
unfolding render_literal_env_assignments sort_by_key insert precedes write_all write_next
rendered = refl

parsed :
    parse_env_assignments none_else (codes "# a\n\n KEY = v \r\nbad") portable
    ≡ ok (codes "KEY", codes "v") ∷ err (record { line = 4; kind = missing_separator }) ∷ []
unfolding parse_env_assignments parse_lines is_skipped parse_line check_assignment is_allowed_value
    is_name_char is_ascii_alphanumeric split_once cut_lines trim trim_start trim_end is_whitespace
parsed = refl

parse_line-ok_example : IsAssignment none_else portable (codes "A=x=y") (codes "A") (codes "x=y")
unfolding parse_line check_assignment is_allowed_value is_name_char is_ascii_alphanumeric split_once
    trim trim_start trim_end is_whitespace
parse_line-ok_example =
    parse_line-ok none_else portable (codes "A=x=y") (codes "A", codes "x=y") refl

portable-IsNameSafe : (c : ℕ) → is_name_char none_else portable c ≡ true → IsNameSafe c
unfolding is_name_char is_ascii_alphanumeric
portable-IsNameSafe c h = record {
  no_blank = unfold is_whitespace in ground (arith, h);
  no_separator = ground (arith, h);
  no_comment = ground (arith, h);
  one_line = (ground (arith, h), ground (arith, h));
}

settings-IsLiteral : All (IsLiteral none_else portable) settings
unfolding is_name_char is_ascii_alphanumeric is_allowed_value is_whitespace ends_no_line
settings-IsLiteral = (
  record {
    some_key = refl;
    valid_key = refl;
    valid_value = refl;
    line = one_line (codes "'literal'") refl;
    starts = refl;
    ends = refl;
  },
  (
    record {
      some_key = refl;
      valid_key = refl;
      valid_value = refl;
      line = one_line (codes "x=y") refl;
      starts = refl;
      ends = refl;
    },
    tt,
  ),
)

parse_env_assignments-render_example :
    (sorted : List (Text × Text)) × (parse_env_assignments none_else
        (render_literal_env_assignments settings)
        portable
      ≡ map ok sorted)
    × IsInOrder sorted
    × ((key : Text) → of_name key sorted ≡ of_name key settings)
parse_env_assignments-render_example =
    parse_env_assignments-render none_else portable portable-IsNameSafe settings settings-IsLiteral
