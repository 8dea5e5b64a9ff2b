-- ===== src/Mcp/Connection.antt =====
-- `validate_mcp_connection` (src/mcp/connection.rs). A JSON value is serde_json's: `as_object`, `get`
-- and `as_str` stand for `Value::as_object`, `Map::get` and `Value::as_str`.
pub mod Contract
mod Examples
use cc_switch_core.Base.{
  nat_eq, list_eq, option_eq, string_eq, list_beq_iff, option_beq_iff, beq_refl, eq_or_ne, ℕ, zero,
  suc, ◌+◌, ◌-◌, ◌*◌, ◌≤◌, ◌<◌, max, String, ◌≡◌, refl, sym, ap, subst, ◌∙◌, ◌≢◌, ◌↔◌, ◌⊎◌, inl,
  inr, Bool, true, false, not, ◌&&◌, ◌||◌, Option, none, some, List, [], ◌∷◌, ◌++◌, map, reverse,
  append-nil, append_assoc, arith, Result, ok, err, ◌>>=◌, ◌==◌, Eq, if◌then◌else◌, length, All,
  Bool-cases, Option-cases, ltb, leb, nat_beq,
}
use cc_switch_core.Text.{Text, codes, trim}
use cc_switch_core.Base.{is_empty}
use cc_switch_core.ModelFetch.{and_then}

pub data McpConnectionError : Type 0 where
  not_object non_string_type : McpConnectionError
  unsupported_transport : Text → McpConnectionError
  missing_command missing_http_url missing_sse_url : McpConnectionError

pub data Transport : Type 0 where
  stdio http sse : Transport

-- `Transport::as_str`
unfoldable pub transport_name : Transport → Text
transport_name stdio = codes "stdio"
transport_name http = codes "http"
transport_name sse = codes "sse"

-- The transport of a name, the field that it requires, and the error if that is missing.
unfoldable pub requirement :
    Text → Result McpConnectionError (Transport × Text × McpConnectionError)
requirement name =
    if name == codes "stdio"
    then ok (stdio, codes "command", missing_command)
    else if name == codes "http"
    then ok (http, codes "url", missing_http_url)
    else if name == codes "sse"
    then ok (sse, codes "url", missing_sse_url)
    else err (unsupported_transport name)

abbrev pub is_filled : Option Text → Bool
is_filled none = false
is_filled (some s) = not (is_empty (trim s))

module _ {V M : Type 0} (get : Text → M → Option V) (as_str : V → Option Text) where
  abbrev named : Option Text → Result McpConnectionError Text
  named none = err non_string_type
  named (some s) = ok s

  -- The declared type; `stdio` if there is none.
  abbrev declared_type : Option V → Result McpConnectionError Text
  declared_type none = ok (codes "stdio")
  declared_type (some v) = named (as_str v)

  unfoldable pub check_field :
      M → Transport × Text × McpConnectionError → Result McpConnectionError Transport
  check_field object (transport, field, missing) =
      if is_filled (and_then (get field object) as_str) then ok transport else err missing

  -- `validate_fields`
  unfoldable pub validate_fields : M → Result McpConnectionError Transport
  validate_fields object = do
    name ← declared_type (get (codes "type") object)
    required ← requirement name
    check_field object required

  -- `validate_mcp_connection`
  unfoldable pub validate_mcp_connection : (V → Option M) → V → Result McpConnectionError (Unit {0})
  validate_mcp_connection as_object server = elim (as_object server) [
    | none ↦ err not_object
    | some object ↦ validate_fields object >>= λ _. ok tt
  ]
