-- ===== src/JsonPatch/Scan.antt =====
-- The scanners of a JSON text (src/mcp/json_patch.rs): `skip_whitespace`, `string_end`, `value_end`
-- and `composite_end`. A loop over the bytes from a cursor recurs on the bytes that are left.
use cc_switch_core.Base.{
  nat_eq, list_eq, option_eq, string_eq, ℕ, zero, suc, Bool, true, false, not, ◌||◌, Option, none,
  some, List, [], ◌∷◌, Result, ok, err, ◌>>=◌, ◌==◌, if◌then◌else◌, length, nat_beq,
}
use cc_switch_core.Base.{drop, take, head?}
use cc_switch_core.Text.{Bytes}
use cc_switch_core.JsonPatch.{JsonPatchError}
use cc_switch_core.JsonPatch.JsonPatchError.{
  key_not_string, string_incomplete, value_empty, value_missing, container_incomplete, unfinished,
}

-- `u8::is_ascii_whitespace`
unfoldable pub is_ascii_whitespace : ℕ → Bool
is_ascii_whitespace b =
    nat_beq b b' ' || nat_beq b 9 || nat_beq b 10 || nat_beq b 12 || nat_beq b 13

unfoldable pub skip_from : Bytes → ℕ → ℕ
unfolding is_ascii_whitespace
skip_from [] cursor = cursor
skip_from (b ∷ rest) cursor = if is_ascii_whitespace b then skip_from rest (suc cursor) else cursor

unfoldable pub skip_whitespace : Bytes → ℕ → ℕ
unfolding skip_from
skip_whitespace bytes cursor = skip_from (drop cursor bytes) cursor

-- The loop of `string_end`. A backslash moves the cursor by two: the byte after it is read with
-- `skipped`, whatever it is.
unfoldable pub string_end_from : Bytes → Bool → ℕ → Result JsonPatchError ℕ
string_end_from [] skipped cursor = err string_incomplete
string_end_from (b ∷ rest) true cursor = string_end_from rest false (suc cursor)
string_end_from (b ∷ rest) false cursor = elim (nat_beq b b'\\') [
  | true ↦ string_end_from rest true (suc cursor)
  | false ↦ elim (nat_beq b b'"') [
    | true ↦ ok (suc cursor)
    | false ↦ string_end_from rest false (suc cursor)
  ]
]

unfoldable pub string_end : Bytes → ℕ → Result JsonPatchError ℕ
unfolding string_end_from
string_end bytes start =
    if head? (drop start bytes) == some b'"'
    then string_end_from (drop (suc start) bytes) false (suc start)
    else err key_not_string

-- `[T]::rposition`: the last position whose element passes the test.
unfoldable pub rposition : (ℕ → Bool) → Bytes → Option ℕ
rposition test [] = none
rposition test (b ∷ rest) = elim (rposition test rest) [
  | some i ↦ some (suc i)
  | none ↦ if test b then some 0 else none
]

abbrev pub ends_scalar : ℕ → Bool
ends_scalar b = nat_beq b b',' || nat_beq b b'}'

-- The loop over a scalar's bytes
unfoldable pub scalar_from : Bytes → ℕ → ℕ
scalar_from [] cursor = cursor
scalar_from (b ∷ rest) cursor = if ends_scalar b then cursor else scalar_from rest (suc cursor)

abbrev pub past : ℕ → Option ℕ → ℕ
past start none = start
past start (some position) = suc position

unfoldable pub scalar_end : Bytes → ℕ → Result JsonPatchError ℕ
unfolding scalar_from rposition is_ascii_whitespace
scalar_end bytes start =
    let cursor = scalar_from (drop start bytes) start in
    let end = past start (rposition (λ b. not (is_ascii_whitespace b)) (take cursor bytes)) in
    if nat_beq end start then err value_empty else ok end

-- One round of the loop of `composite_end`: the end of the container, or the stack and the cursor.
pub data CompositeStep : Type 0 where
  closed : ℕ → CompositeStep
  within : List ℕ → ℕ → CompositeStep

abbrev pub pop_closing : List ℕ → ℕ → CompositeStep
pop_closing [] cursor = CompositeStep.closed cursor
pop_closing (top ∷ stack) cursor = CompositeStep.within (top ∷ stack) cursor

-- The stack after `pop`.
abbrev pub popped : List ℕ → List ℕ
popped [] = []
popped (top ∷ stack) = stack

unfoldable pub composite_step : Bytes → List ℕ → ℕ → Result JsonPatchError CompositeStep
unfolding string_end
composite_step bytes stack cursor = elim (head? (drop cursor bytes)) [
  | none ↦ err container_incomplete
  | some byte ↦
      if nat_beq byte b'"'
      then (string_end bytes cursor >>= λ end. ok (CompositeStep.within stack end))
      else if nat_beq byte b'{'
      then ok (CompositeStep.within (b'}' ∷ stack) (suc cursor))
      else if nat_beq byte b'['
      then ok (CompositeStep.within (b']' ∷ stack) (suc cursor))
      else if head? stack == some byte
      then ok (pop_closing (popped stack) (suc cursor))
      else ok (CompositeStep.within stack (suc cursor))
]

unfoldable pub composite_from : ℕ → Bytes → List ℕ → ℕ → Result JsonPatchError ℕ
unfolding composite_step
composite_from zero bytes stack cursor = err unfinished
composite_from (suc fuel) bytes stack cursor = elim (composite_step bytes stack cursor) [
  | err e ↦ err e
  | ok step ↦ elim step [
    | CompositeStep.closed end ↦ ok end
    | CompositeStep.within stack' cursor' ↦ composite_from fuel bytes stack' cursor'
  ]
]

-- The closing byte of a container that starts with this byte.
abbrev pub closing : ℕ → ℕ
closing b = if nat_beq b b'{' then b'}' else b']'

-- `composite_end`, whose caller has seen the byte `first` at `start`
unfoldable pub composite_end : ℕ → Bytes → ℕ → Result JsonPatchError ℕ
unfolding composite_from
composite_end first bytes start =
    composite_from (suc (length bytes)) bytes (closing first ∷ []) (suc start)

unfoldable pub value_end : Bytes → ℕ → Result JsonPatchError ℕ
unfolding string_end composite_end scalar_end
value_end bytes start = elim (head? (drop start bytes)) [
  | none ↦ err value_missing
  | some b ↦
      if nat_beq b b'"'
      then string_end bytes start
      else if nat_beq b b'{' || nat_beq b b'['
      then composite_end b bytes start
      else scalar_end bytes start
]
