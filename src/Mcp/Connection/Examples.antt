-- ===== src/Mcp/Connection/Examples.antt =====
-- Tests of the connection's contract, and its theorem at a concrete input.
use cc_switch_core.Base.{
  nat_eq, list_eq, option_eq, string_eq, ◌≡◌, refl, ◌↔◌, Option, none, some, List, [], ◌∷◌, ok, err,
  ◌==◌, if◌then◌else◌,
}
use cc_switch_core.Text.{Text, codes, trim, trim_start, trim_end, is_whitespace}
use cc_switch_core.Mcp.Connection.{
  non_string_type, missing_http_url, stdio, requirement, check_field, validate_fields,
}
use cc_switch_core.Mcp.Connection.Contract.{
  Declares, IsFilled, connection_field, validate_fields_iff,
}

-- An object whose values are texts, or none for a value of another kind.
abbrev Object : Type 0
Object = List (Text × Option Text)

abbrev lookup : Text → Object → Option (Option Text)
lookup name [] = none
lookup name (entry ∷ entries) = if entry.0 == name then some entry.1 else lookup name entries

abbrev itself : Option Text → Option Text
itself o = o

abbrev node : Object
node = (codes "command", some (codes "node")) ∷ []

command_implies_stdio : validate_fields lookup itself node ≡ ok stdio
unfolding validate_fields requirement check_field trim trim_start trim_end is_whitespace
command_implies_stdio = refl

blank_url_is_missing :
    validate_fields lookup itself
      ((codes "type", some (codes "http")) ∷ (codes "url", some (codes " ")) ∷ [])
    ≡ err missing_http_url
unfolding validate_fields requirement check_field trim trim_start trim_end is_whitespace
blank_url_is_missing = refl

number_is_no_type :
    validate_fields lookup itself ((codes "type", none) ∷ node) ≡ err non_string_type
unfolding validate_fields
number_is_no_type = refl

validate_fields_iff_example : (validate_fields lookup itself node ≡ ok stdio) ↔ (
    Declares lookup itself (lookup (codes "type") node) stdio
    × IsFilled lookup itself (lookup (connection_field stdio) node))
validate_fields_iff_example = validate_fields_iff lookup itself node stdio
