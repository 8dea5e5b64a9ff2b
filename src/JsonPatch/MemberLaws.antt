-- ===== src/JsonPatch/MemberLaws.antt =====
-- A round of the loop of `root_entries` on a field that is printed (src/mcp/json_patch.rs).
use cc_switch_core.Base.{
  nat_eq, list_eq, option_eq, string_eq, ℕ, suc, ◌+◌, ◌≡◌, refl, ap, ◌∙◌, inl, inr, true, false,
  Option, some, List, ◌∷◌, ◌++◌, append_assoc, arith, ok, ◌==◌, if◌then◌else◌, length, Bool-cases,
  nat_beq,
}
use cc_switch_core.Base.{drop, head?, length-append}
use cc_switch_core.Text.{Text, Bytes}
use cc_switch_core.JsonPatch.{Entry}
use cc_switch_core.JsonPatch.Scan.{ends_scalar, is_ascii_whitespace}
use cc_switch_core.JsonPatch.Syntax.{
  Space, print_spaces, JsonValue, print_value, print_string, Member, print_name, print_member,
}
use cc_switch_core.JsonPatch.Cursor.{At, At-suc, At-advance, slice-At}
use cc_switch_core.JsonPatch.ScanLaws.{
  IsInked, skip_whitespace-print_spaces, string_end-print_string,
}
use cc_switch_core.JsonPatch.ValueLaws.{value_end-print_value}
use cc_switch_core.JsonPatch.Entries.{
  RootStep, after_value, value_step, colon_step, member_step, root_step,
}

-- The entry of a field that is printed at a position
abbrev pub entry_at : ℕ → Member → Entry
entry_at start m = record {
  key = m.key;
  start = start + length (print_name m);
  end = start + length (print_name m) + length (print_value m.value);
}

-- The text before a field's value, and what follows it, nested to the right
print_member-append :
    (m : Member) (rest : Bytes)
    → print_member m ++ rest
      ≡ print_spaces m.before
        ++ (print_string m.name
            ++ (print_spaces m.between
                ++ (b':'
                    ∷ (print_spaces m.after
                        ++ (print_value m.value ++ (print_spaces m.trailing ++ rest))))))
print_member-append m rest = simp append_assoc refl

IsInked-print_value : (value : JsonValue) (rest : Bytes) → IsInked (print_value value ++ rest)
unfolding is_ascii_whitespace
IsInked-print_value (JsonValue.string_value items) rest = refl
IsInked-print_value (JsonValue.braced inner) rest = refl
IsInked-print_value (JsonValue.bracketed inner) rest = refl
IsInked-print_value (JsonValue.scalar b s p k) rest = ground (arith, k.0)

ends_scalar-inked : (e : ℕ) → ends_scalar e ≡ true → is_ascii_whitespace e ≡ false
unfolding is_ascii_whitespace
ends_scalar-inked e h = ground arith

pub length-print_name :
    (m : Member)
    → length (print_name m)
      ≡ length (print_spaces m.before)
        + length (print_string m.name)
        + length (print_spaces m.between)
        + suc (length (print_spaces m.after))
length-print_name m = omega (
  arith,
  length-append (print_spaces m.before) (print_string m.name),
  length-append (print_spaces m.before ++ print_string m.name) (print_spaces m.between),
  length-append (print_spaces m.before ++ print_string m.name ++ print_spaces m.between)
      (b':' ∷ print_spaces m.after),
)

pub length-print_member :
    (m : Member)
    → length (print_member m)
      ≡ length (print_name m) + length (print_value m.value) + length (print_spaces m.trailing)
length-print_member m = omega (
  arith,
  length-append (print_name m) (print_value m.value),
  length-append (print_name m ++ print_value m.value) (print_spaces m.trailing),
)

-- The cursor after the comma or before the brace that ends a field
abbrev next_cursor : ℕ → ℕ → ℕ
next_cursor e cursor = if nat_beq e b',' then suc cursor else cursor

after_value-ends :
    (e cursor : ℕ) → ends_scalar e ≡ true → after_value (some e) cursor ≡ ok (next_cursor e cursor)
after_value-ends e cursor h = elim (Bool-cases (nat_beq e b',')) [
  | inl comma ↦ rw comma refl
  | inr other ↦ let brace : nat_beq e b'}' ≡ true = ground arith in rw (other, brace) refl
]

module _ (bytes : Bytes) (e : ℕ) (tail : Bytes) (ends : ends_scalar e ≡ true) where
  value_step-print_value :
      (key : Text) (value : JsonValue) (trailing : List Space) (start : ℕ)
      → At bytes start (print_value value ++ (print_spaces trailing ++ e ∷ tail))
      → let end = start + length (print_value value) in
        value_step bytes key start
        ≡ ok (
            RootStep.entry
              (record { key = key; start = start; end = end })
              (next_cursor e (end + length (print_spaces trailing))))
  unfolding value_step
  value_step-print_value key value trailing start h =
      let end = start + length (print_value value) in
      let at_end = At-advance bytes start (print_value value) _ h in
      let skipped =
        skip_whitespace-print_spaces bytes end trailing (e ∷ tail) at_end
          (ends_scalar-inked e ends) in
      let after = At-advance bytes end (print_spaces trailing) _ at_end in
      rw
        (
          value_end-print_value bytes start trailing e tail ends value h,
          skipped,
          after,
          after_value-ends e (end + length (print_spaces trailing)) ends,
        )
        refl

  colon_step-print :
      (key : Text) (between after : List Space) (value : JsonValue) (trailing : List Space)
      (cursor : ℕ)
      → At bytes cursor (
          print_spaces between
          ++ (b':'
              ∷ (print_spaces after ++ (print_value value ++ (print_spaces trailing ++ e ∷ tail)))))
      → let start = suc (cursor + length (print_spaces between)) + length (print_spaces after) in
        let end = start + length (print_value value) in
        colon_step bytes key cursor
        ≡ ok (
            RootStep.entry
              (record { key = key; start = start; end = end })
              (next_cursor e (end + length (print_spaces trailing))))
  unfolding colon_step
  colon_step-print key between after value trailing cursor h =
      let colon = cursor + length (print_spaces between) in
      let at_colon = At-advance bytes cursor (print_spaces between) _ h in
      let past_colon = At-suc bytes colon b':' _ at_colon in
      let start = suc colon + length (print_spaces after) in
      rw
        (
          skip_whitespace-print_spaces bytes cursor between _ h
              (unfold is_ascii_whitespace in refl),
          at_colon,
          skip_whitespace-print_spaces bytes (suc colon) after _ past_colon
              (IsInked-print_value value _),
        )
        (value_step-print_value key value trailing start
          (At-advance bytes (suc colon) (print_spaces after) _ past_colon))

  module _ (decode_key : Bytes → Option Text) (m : Member) (cursor : ℕ)
      (decoded : decode_key (print_string m.name) ≡ some m.key)
      (at : At bytes cursor (print_member m ++ e ∷ tail)) where
    name_start : ℕ
    name_start = cursor + length (print_spaces m.before)

    -- The sizes of a field's parts add up.
    entry-sizes :
        (start : ℕ)
        → start
          ≡ suc (name_start + length (print_string m.name) + length (print_spaces m.between))
            + length (print_spaces m.after)
        → RootStep.entry
            (record { key = m.key; start = start; end = start + length (print_value m.value) })
            (next_cursor e
              (start + length (print_value m.value) + length (print_spaces m.trailing)))
          ≡ RootStep.entry (entry_at cursor m) (next_cursor e (cursor + length (print_member m)))
    unfolding name_start
    entry-sizes start h =
        let begins : start ≡ cursor + length (print_name m) =
          omega (arith, h, length-print_name m) in
        let ends : start + length (print_value m.value) + length (print_spaces m.trailing)
            ≡ cursor + length (print_member m) =
          omega (arith, begins, length-print_member m) in
        rw (ends, begins) refl

    member_step-print :
        At bytes name_start (
          print_string m.name
          ++ (print_spaces m.between
              ++ (b':'
                  ∷ (print_spaces m.after
                      ++ (print_value m.value ++ (print_spaces m.trailing ++ e ∷ tail))))))
        → let start =
            suc (name_start + length (print_string m.name) + length (print_spaces m.between))
            + length (print_spaces m.after) in
          member_step decode_key bytes name_start
          ≡ ok (
              RootStep.entry
                (record { key = m.key; start = start; end = start + length (print_value m.value) })
                (next_cursor e
                  (start + length (print_value m.value) + length (print_spaces m.trailing))))
    unfolding member_step
    member_step-print at_name =
        rw
          (
            string_end-print_string bytes name_start m.name _ at_name,
            slice-At bytes name_start (print_string m.name) _ at_name,
            decoded,
          )
          (colon_step-print m.key m.between m.after m.value m.trailing
            (name_start + length (print_string m.name))
            (At-advance bytes name_start (print_string m.name) _ at_name))

    -- A round of the loop reads a field, with what follows it.
    pub root_step-print_member :
        root_step decode_key bytes cursor
        ≡ ok (RootStep.entry (entry_at cursor m) (next_cursor e (cursor + length (print_member m))))
    unfolding root_step name_start
    root_step-print_member =
        let here = at ∙ print_member-append m (e ∷ tail) in
        let at_name = At-advance bytes cursor (print_spaces m.before) _ here in
        let not_closed : (head? (drop name_start bytes) == some b'}') ≡ false = rw at_name refl in
        rw
          (
            skip_whitespace-print_spaces bytes cursor m.before _ here
                (unfold is_ascii_whitespace in refl),
            not_closed,
          )
          (member_step-print at_name ∙ ap ok (entry-sizes _ refl))
