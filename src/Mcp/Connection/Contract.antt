-- ===== src/Mcp/Connection/Contract.antt =====
-- Which connections pass `validate_mcp_connection` (src/mcp/connection.rs).
use cc_switch_core.Base.{
  nat_eq, list_eq, option_eq, string_eq, ◌≡◌, refl, sym, ap, ◌∙◌, ◌↔◌, inl, inr, Bool, true, false,
  not, Option, none, some, ok, ◌==◌, Bool-cases, Option-cases,
}
use cc_switch_core.Text.{Text, codes, trim}
use cc_switch_core.Base.{is_empty, >>=-eq-ok, ok-injective}
use cc_switch_core.ModelFetch.{and_then}
use cc_switch_core.Mcp.Connection.{
  McpConnectionError, Transport, stdio, http, sse, transport_name, requirement, is_filled,
  declared_type, named, check_field, validate_fields,
}

-- The field that names what to connect to.
abbrev pub connection_field : Transport → Text
connection_field stdio = codes "command"
connection_field http = codes "url"
connection_field sse = codes "url"

-- A requirement is the one of the transport with that name.
abbrev Suits : Text → Transport × Text × McpConnectionError → Type 0
Suits name r = (name ≡ transport_name r.0) × (r.1 ≡ connection_field r.0)

requirement-Suits :
    (name : Text) (r : Transport × Text × McpConnectionError)
    → requirement name ≡ ok r
    → Suits name r
unfolding requirement transport_name
requirement-Suits name r h = elim (Bool-cases (name == codes "stdio")) [
  | inl e ↦ rw (← ok-injective (rw (e, requirement) at h)) ((list_eq.eqb_iff _ _).0 e, refl)
  | inr not_stdio ↦ elim (Bool-cases (name == codes "http")) [
    | inl e ↦
        rw (← ok-injective (rw (not_stdio, e, requirement) at h)) ((list_eq.eqb_iff _ _).0 e, refl)
    | inr not_http ↦ elim (Bool-cases (name == codes "sse")) [
      | inl e ↦
          rw (← ok-injective (rw (not_stdio, not_http, e, requirement) at h))
            ((list_eq.eqb_iff _ _).0 e, refl)
      | inr not_sse ↦ cc (rw (not_stdio, not_http, not_sse, requirement) at h)
    ]
  ]
]

requirement-name :
    (t : Transport)
    → (missing : McpConnectionError) × (requirement (transport_name t)
        ≡ ok (t, connection_field t, missing))
unfolding requirement transport_name
requirement-name stdio = (_, refl)
requirement-name http = (_, refl)
requirement-name sse = (_, refl)

false_of_not : (b : Bool) → not b ≡ true → b ≡ false
false_of_not true h = cc
false_of_not false h = refl

names_differ : (t : Transport) → false ≡ true → t ≡ stdio
names_differ t h = cc

transport_name-stdio : (t : Transport) → transport_name t ≡ codes "stdio" → t ≡ stdio
unfolding transport_name
transport_name-stdio stdio h = refl
transport_name-stdio http h =
    names_differ http ((list_eq.eqb_iff (codes "http") (codes "stdio")).1 h)
transport_name-stdio sse h = names_differ sse ((list_eq.eqb_iff (codes "sse") (codes "stdio")).1 h)

module _ {V M : Type 0} (get : Text → M → Option V) (as_str : V → Option Text) where
  -- The type is the transport's name, or there is none and the transport is `stdio`.
  abbrev pub Declares : Option V → Transport → Type 0
  Declares none t = t ≡ stdio
  Declares (some v) t = as_str v ≡ some (transport_name t)

  -- The value is a text with a character that is no whitespace.
  abbrev pub IsFilled : Option V → Type 0
  IsFilled none = ⊥
  IsFilled (some v) = (s : Text) × (as_str v ≡ some s) × (is_empty (trim s) ≡ false)

  declared_type_iff :
      (o : Option V) (t : Transport)
      → (declared_type get as_str o ≡ ok (transport_name t)) ↔ Declares o t
  declared_type_iff none t =
      (λ h. transport_name-stdio t (sym (ok-injective h)), λ e. unfold transport_name in rw e refl)
  declared_type_iff (some v) t = elim (Option-cases (as_str v)) [
    | inl e ↦ (λ h. cc (rw e at h), λ d. cc)
    | inr (s, e) ↦ (λ h. e ∙ ap some (ok-injective (rw e at h)), λ d. rw d refl)
  ]

  IsFilled-iff : (o : Option V) → (is_filled (and_then o as_str) ≡ true) ↔ IsFilled o
  IsFilled-iff none = (λ h. cc, λ e. elim e [ ])
  IsFilled-iff (some v) = elim (Option-cases (as_str v)) [
    | inl e ↦ (λ h. cc (rw e at h), λ (s, f, g). cc)
    | inr (s, e) ↦
        (λ h. (s, e, false_of_not (is_empty (trim s)) (rw e at h)), λ (s', f, g). rw (f, g) refl)
  ]

  check_field-ok :
      (object : M) (r : Transport × Text × McpConnectionError) (t : Transport)
      → check_field get as_str object r ≡ ok t
      → (r.0 ≡ t) × (is_filled (and_then (get r.1 object) as_str) ≡ true)
  unfolding check_field
  check_field-ok object (u, field, missing) t h =
      elim (Bool-cases (is_filled (and_then (get field object) as_str))) [
        | inl e ↦ (ok-injective (rw (e, check_field) at h), e)
        | inr e ↦ cc (rw (e, check_field) at h)
      ]

  -- The fields are accepted as those of a transport exactly when their type declares it and the
  -- field that it requires is a text that is not blank.
  pub validate_fields_iff :
      (object : M) (t : Transport)
      → (validate_fields get as_str object ≡ ok t)
        ↔ (Declares (get (codes "type") object) t × IsFilled (get (connection_field t) object))
  unfolding validate_fields check_field
  validate_fields_iff object t = (sound, complete)
    where
      sound :
          validate_fields get as_str object ≡ ok t
          → Declares (get (codes "type") object) t × IsFilled (get (connection_field t) object)
      sound h =
          let (name, declared, rest) =
            >>=-eq-ok (declared_type get as_str (get (codes "type") object)) _ h in
          let (r, required, checked) = >>=-eq-ok (requirement name) _ rest in
          let (named, field) = requirement-Suits name r required in
          let (same, filled) = check_field-ok object r t checked in
          (
            (declared_type_iff _ t).0 (declared ∙ ap ok (named ∙ ap transport_name same)),
            (IsFilled-iff _).0 (rw (← same, ← field) filled),
          )

      complete :
          Declares (get (codes "type") object) t × IsFilled (get (connection_field t) object)
          → validate_fields get as_str object ≡ ok t
      complete (declares, filled) =
          let (missing, same) = requirement-name t in
          rw ((declared_type_iff _ t).1 declares, same, check_field, (IsFilled-iff _).1 filled) refl
