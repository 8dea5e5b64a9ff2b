-- ===== src/JsonPatch/ValueLaws.antt =====
-- `value_end` on a value that is printed (src/mcp/json_patch.rs).
use cc_switch_core.Base.{
  nat_eq, list_eq, option_eq, string_eq, ℕ, suc, ◌+◌, ◌≡◌, refl, sym, ap, ◌∙◌, Bool, true, false,
  not, none, some, List, [], ◌∷◌, ◌++◌, append_assoc, arith, ok, length, All, nat_beq, All-append,
}
use cc_switch_core.Base.{drop, take, length-append, length-take}
use cc_switch_core.Text.{Bytes}
use cc_switch_core.JsonPatch.Scan.{
  is_ascii_whitespace, rposition, scalar_from, scalar_end, ends_scalar, value_end,
}
use cc_switch_core.JsonPatch.Syntax.{
  Space, print_spaces, print_inside, JsonValue, print_value, is_scalar_byte,
}
use cc_switch_core.JsonPatch.Cursor.{At, At-suc, take-At}
use cc_switch_core.JsonPatch.ScanLaws.{string_end-print_string, space_byte-blank}
use cc_switch_core.JsonPatch.CompositeLaws.{composite_end-print_inside}

abbrev Continues : Bytes → Type 0
Continues = All λ c. ends_scalar c ≡ false

scalar_from-Continues :
    (s : Bytes) (e : ℕ) (tail : Bytes) (cursor : ℕ)
    → Continues s
    → ends_scalar e ≡ true
    → scalar_from (s ++ e ∷ tail) cursor ≡ cursor + length s
unfolding scalar_from
scalar_from-Continues [] e tail cursor h k = rw k (omega arith)
scalar_from-Continues (c ∷ s) e tail cursor h k =
    rw h.0 (omega (arith, scalar_from-Continues s e tail (suc cursor) h.1 k))

inked : ℕ → Bool
inked b = not (is_ascii_whitespace b)

rposition-print_spaces : (spaces : List Space) → rposition inked (print_spaces spaces) ≡ none
unfolding rposition inked
rposition-print_spaces [] = refl
rposition-print_spaces (s ∷ spaces) = rw (rposition-print_spaces spaces, space_byte-blank s) refl

-- The last byte of a scalar with whitespace after it is the scalar's.
rposition-scalar :
    (b : ℕ) (s : Bytes) (spaces : List Space)
    → All (λ c. is_scalar_byte c ≡ true) (b ∷ s)
    → rposition inked ((b ∷ s) ++ print_spaces spaces) ≡ some (length s)
unfolding rposition inked
rposition-scalar b [] spaces h =
    let ink : is_ascii_whitespace b ≡ false = ground arith in
    rw (rposition-print_spaces spaces, ink, rposition) refl
rposition-scalar b (c ∷ s) spaces h = rw (rposition-scalar c s spaces h.1, rposition) refl

rposition-append :
    (xs ys : Bytes) (i : ℕ)
    → rposition inked ys ≡ some i
    → rposition inked (xs ++ ys) ≡ some (length xs + i)
unfolding rposition
rposition-append [] ys i h = h ∙ ap some (omega arith)
rposition-append (x ∷ xs) ys i h =
    rw (rposition-append xs ys i h, rposition) (ap some (omega arith))

Continues-scalar : (s : Bytes) → All (λ c. is_scalar_byte c ≡ true) s → Continues s
Continues-scalar [] h = tt
Continues-scalar (c ∷ s) h = (ground arith, Continues-scalar s h.1)

Continues-print_spaces : (spaces : List Space) → Continues (print_spaces spaces)
Continues-print_spaces [] = tt
Continues-print_spaces (Space.space ∷ spaces) = (refl, Continues-print_spaces spaces)
Continues-print_spaces (Space.tab ∷ spaces) = (refl, Continues-print_spaces spaces)
Continues-print_spaces (Space.newline ∷ spaces) = (refl, Continues-print_spaces spaces)
Continues-print_spaces (Space.carriage_return ∷ spaces) = (refl, Continues-print_spaces spaces)

module _ (bytes : Bytes) (cursor : ℕ) (spaces : List Space) (e : ℕ) (tail : Bytes)
    (ends : ends_scalar e ≡ true) where
  scalar_end-scalar :
      (b : ℕ) (s : Bytes)
      → All (λ c. is_scalar_byte c ≡ true) (b ∷ s)
      → At bytes cursor ((b ∷ s) ++ (print_spaces spaces ++ e ∷ tail))
      → scalar_end bytes cursor ≡ ok (cursor + length (b ∷ s))
  unfolding scalar_end inked
  scalar_end-scalar b s h at =
      let read = (b ∷ s) ++ print_spaces spaces in
      let here : At bytes cursor (read ++ e ∷ tail) =
        at ∙ sym (append_assoc (b ∷ s) (print_spaces spaces) (e ∷ tail)) in
      let goes_on =
        All-append (λ c. ends_scalar c ≡ false) (b ∷ s) (print_spaces spaces)
          (Continues-scalar (b ∷ s) h) (Continues-print_spaces spaces) in
      let stop : scalar_from (drop cursor bytes) cursor ≡ cursor + length read =
        rw here (scalar_from-Continues read e tail cursor goes_on ends) in
      let before = length-take cursor bytes here in
      let position =
        rposition-append (take cursor bytes) read (length s) (rposition-scalar b s spaces h) in
      let apart : nat_beq (suc (cursor + length s)) cursor ≡ false = ground arith in
      rw (stop, take-At bytes cursor read (e ∷ tail) here, position, before, apart)
        (ap ok (omega arith))

  -- The end of a value is where its print ends.
  pub value_end-print_value :
      (value : JsonValue)
      → At bytes cursor (print_value value ++ (print_spaces spaces ++ e ∷ tail))
      → value_end bytes cursor ≡ ok (cursor + length (print_value value))
  unfolding value_end
  value_end-print_value (JsonValue.string_value items) h =
      rw (h, value_end)
        (string_end-print_string bytes cursor items (print_spaces spaces ++ e ∷ tail) h)
  value_end-print_value (JsonValue.braced inner) h =
      let here = h ∙ ap (λ l. b'{' ∷ l) (append_assoc (print_inside inner) (b'}' ∷ []) _) in
      rw (h, value_end)
        (composite_end-print_inside bytes b'{' inner cursor _ refl (At-suc bytes cursor b'{' _ here)
          ∙ ap ok (omega (arith, length-append (print_inside inner) (b'}' ∷ []))))
  value_end-print_value (JsonValue.bracketed inner) h =
      let here = h ∙ ap (λ l. b'[' ∷ l) (append_assoc (print_inside inner) (b']' ∷ []) _) in
      rw (h, value_end)
        (composite_end-print_inside bytes b'[' inner cursor _ refl (At-suc bytes cursor b'[' _ here)
          ∙ ap ok (omega (arith, length-append (print_inside inner) (b']' ∷ []))))
  value_end-print_value (JsonValue.scalar b s p k) h =
      let quote : nat_beq b b'"' ≡ false = ground arith in
      let brace : nat_beq b b'{' ≡ false = ground arith in
      let bracket : nat_beq b b'[' ≡ false = ground arith in
      rw (h, quote, brace, bracket, value_end) (scalar_end-scalar b s k h)
