-- ===== src/JsonPatch/Entries.antt =====
-- The fields of the object that a JSON text is (src/mcp/json_patch.rs): `root_entries`.
use cc_switch_core.Base.{
  nat_eq, list_eq, option_eq, string_eq, ℕ, zero, suc, Option, none, some, List, [], ◌∷◌, Result,
  ok, err, ◌>>=◌, ◌==◌, if◌then◌else◌, length, nat_beq,
}
use cc_switch_core.Base.{drop, head?, slice}
use cc_switch_core.Text.{Text, Bytes}
use cc_switch_core.JsonPatch.{JsonPatchError, Entry}
use cc_switch_core.JsonPatch.JsonPatchError.{
  root_not_object, trailing_content, key_invalid, colon_missing, value_not_followed, unfinished,
}
use cc_switch_core.JsonPatch.Scan.{skip_whitespace, string_end, value_end}

-- One round of the loop: the object is closed at a position, or has an entry and goes on.
pub data RootStep : Type 0 where
  root_close : ℕ → RootStep
  entry : Entry → ℕ → RootStep

abbrev pub key_of : Option Text → Result JsonPatchError Text
key_of none = err key_invalid
key_of (some key) = ok key

-- The cursor after the byte that follows a value
abbrev pub after_value : Option ℕ → ℕ → Result JsonPatchError ℕ
after_value none cursor = err value_not_followed
after_value (some b) cursor =
    if nat_beq b b','
    then ok (suc cursor)
    else if nat_beq b b'}'
    then ok cursor
    else err value_not_followed

unfoldable pub value_step : Bytes → Text → ℕ → Result JsonPatchError RootStep
unfolding value_end skip_whitespace
value_step bytes key start = value_end bytes start >>= λ end.
    let cursor = skip_whitespace bytes end in
    after_value (head? (drop cursor bytes)) cursor >>= λ next.
    ok (RootStep.entry (record { key = key; start = start; end = end }) next)

unfoldable pub colon_step : Bytes → Text → ℕ → Result JsonPatchError RootStep
unfolding value_step skip_whitespace
colon_step bytes key key_end =
    let colon = skip_whitespace bytes key_end in
    if head? (drop colon bytes) == some b':'
    then value_step bytes key (skip_whitespace bytes (suc colon))
    else err colon_missing

module _ (decode_key : Bytes → Option Text) where
  unfoldable pub member_step : Bytes → ℕ → Result JsonPatchError RootStep
  unfolding string_end colon_step
  member_step bytes key_start = string_end bytes key_start >>= λ key_end.
      key_of (decode_key (slice key_start key_end bytes)) >>= λ key. colon_step bytes key key_end

  unfoldable pub root_step : Bytes → ℕ → Result JsonPatchError RootStep
  unfolding member_step skip_whitespace
  root_step bytes cursor =
      let here = skip_whitespace bytes cursor in
      if head? (drop here bytes) == some b'}'
      then if nat_beq (skip_whitespace bytes (suc here)) (length bytes)
        then ok (RootStep.root_close here)
        else err trailing_content
      else member_step bytes here

  -- The entries are in front of those of the rounds to come.
  unfoldable pub root_loop : ℕ → Bytes → ℕ → Result JsonPatchError (List Entry × ℕ)
  unfolding root_step
  root_loop zero bytes cursor = err unfinished
  root_loop (suc fuel) bytes cursor = elim (root_step bytes cursor) [
    | err e ↦ err e
    | ok step ↦ elim step [
      | RootStep.root_close close ↦ ok ([], close)
      | RootStep.entry first next ↦
          root_loop fuel bytes next >>= λ (rest, close). ok (first ∷ rest, close)
    ]
  ]

  unfoldable pub root_entries : Bytes → Result JsonPatchError (List Entry × ℕ)
  unfolding root_loop skip_whitespace
  root_entries text =
      let cursor = skip_whitespace text 0 in
      if head? (drop cursor text) == some b'{'
      then root_loop (suc (length text)) text (suc cursor)
      else err root_not_object
