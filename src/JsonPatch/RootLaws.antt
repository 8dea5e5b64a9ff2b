-- ===== src/JsonPatch/RootLaws.antt =====
-- `root_entries` on an object that is printed (src/mcp/json_patch.rs).
use cc_switch_core.Base.{
  nat_eq, list_eq, option_eq, string_eq, ℕ, suc, ◌+◌, ◌-◌, ◌≤◌, ◌≡◌, refl, sym, ap, subst, ◌∙◌,
  true, Option, some, List, [], ◌∷◌, ◌++◌, append-nil, append_assoc, arith, ok, ◌==◌, length,
  nat_beq,
}
use cc_switch_core.Base.{drop, head?, length-append, length-of_drop}
use cc_switch_core.Text.{Text, Bytes}
use cc_switch_core.JsonPatch.{Entry}
use cc_switch_core.JsonPatch.Scan.{skip_whitespace, is_ascii_whitespace}
use cc_switch_core.JsonPatch.Syntax.{
  Space, print_spaces, print_string, print_member, Fields, print_fields, Document, print_open,
  print_close, print_document,
}
use cc_switch_core.JsonPatch.Cursor.{At, At-suc, At-advance}
use cc_switch_core.JsonPatch.ScanLaws.{skip_whitespace-print_spaces}
use cc_switch_core.JsonPatch.MemberLaws.{
  entry_at, length-print_name, length-print_member, root_step-print_member,
}
use cc_switch_core.JsonPatch.Entries.{RootStep, root_step, root_loop, root_entries}

abbrev pub entries_at : ℕ → Fields → List Entry
entries_at start (Fields.finish spaces) = []
entries_at start (Fields.last m) = entry_at start m ∷ []
entries_at start (Fields.comma m fields) =
    entry_at start m ∷ entries_at (suc (start + length (print_member m))) fields

-- The keys' strings decode to the keys.
abbrev pub IsDecoded : (Bytes → Option Text) → Fields → Type 0
IsDecoded decode_key (Fields.finish spaces) = Unit
IsDecoded decode_key (Fields.last m) = decode_key (print_string m.name) ≡ some m.key
IsDecoded decode_key (Fields.comma m fields) =
    (decode_key (print_string m.name) ≡ some m.key) × IsDecoded decode_key fields

abbrev rounds : Fields → ℕ → ℕ
rounds (Fields.finish spaces) fuel = suc fuel
rounds (Fields.last m) fuel = suc (suc fuel)
rounds (Fields.comma m fields) fuel = suc (rounds fields fuel)

rounds-add : (fields : Fields) (fuel : ℕ) → rounds fields fuel ≡ rounds fields 0 + fuel
rounds-add (Fields.finish spaces) fuel = omega arith
rounds-add (Fields.last m) fuel = omega arith
rounds-add (Fields.comma m fields) fuel = omega (arith, rounds-add fields fuel)

-- Every round but the last reads a byte at least.
rounds-le : (fields : Fields) → rounds fields 0 ≤ suc (length (print_fields fields))
rounds-le (Fields.finish spaces) = omega arith
rounds-le (Fields.last m) = omega (arith, length-print_member m, length-print_name m)
rounds-le (Fields.comma m fields) =
    omega (arith, rounds-le fields, length-append (print_member m) (b',' ∷ print_fields fields))

module _ (decode_key : Bytes → Option Text) (bytes : Bytes) (trailing : List Space) where
  root_step-close :
      (spaces : List Space) (cursor : ℕ)
      → At bytes cursor (print_spaces spaces ++ b'}' ∷ print_spaces trailing)
      → root_step decode_key bytes cursor
        ≡ ok (RootStep.root_close (cursor + length (print_spaces spaces)))
  unfolding root_step
  root_step-close spaces cursor h =
      let close = cursor + length (print_spaces spaces) in
      let at_close = At-advance bytes cursor (print_spaces spaces) _ h in
      let after = At-suc bytes close b'}' _ at_close in
      let closed : (head? (drop close bytes) == some b'}') ≡ true = rw at_close refl in
      let end : skip_whitespace bytes (suc close) ≡ suc close + length (print_spaces trailing) =
        skip_whitespace-print_spaces bytes (suc close) trailing []
          (after ∙ sym (append-nil (print_spaces trailing))) tt in
      let size = length-of_drop close bytes at_close in
      let whole : nat_beq (skip_whitespace bytes (suc close)) (length bytes) ≡ true =
        ground (arith, end, size) in
      rw
        (
          skip_whitespace-print_spaces bytes cursor spaces _ h (unfold is_ascii_whitespace in refl),
          closed,
          whole,
        )
        refl

  root_loop-print_fields :
      (fields : Fields) (fuel cursor : ℕ)
      → IsDecoded decode_key fields
      → At bytes cursor (print_fields fields ++ b'}' ∷ print_spaces trailing)
      → root_loop decode_key (rounds fields fuel) bytes cursor
        ≡ ok (entries_at cursor fields, cursor + length (print_fields fields))
  unfolding root_loop
  root_loop-print_fields (Fields.finish spaces) fuel cursor d h =
      rw (root_step-close spaces cursor h, root_loop) refl
  root_loop-print_fields (Fields.last m) fuel cursor d h =
      let at_end = At-advance bytes cursor (print_member m) _ h in
      let same : cursor + length (print_member m) + 0 ≡ cursor + length (print_member m) =
        omega arith in
      rw
        (
          root_step-print_member bytes b'}' (print_spaces trailing) refl decode_key m cursor d h,
          root_loop,
          root_step-close [] (cursor + length (print_member m)) at_end,
          same,
        )
        refl
  root_loop-print_fields (Fields.comma m fields) fuel cursor d h =
      let here = h ∙ append_assoc (print_member m) (b',' ∷ print_fields fields) _ in
      let end = cursor + length (print_member m) in
      let next = At-suc bytes end b',' _ (At-advance bytes cursor (print_member m) _ here) in
      let size : suc end + length (print_fields fields)
          ≡ cursor + length (print_fields (Fields.comma m fields)) =
        omega (arith, length-append (print_member m) (b',' ∷ print_fields fields)) in
      rw
        (
          root_step-print_member bytes b',' _ refl decode_key m cursor d.0 here,
          root_loop,
          root_loop-print_fields fields fuel (suc end) d.1 next,
        )
        (ap (λ n. ok (entries_at cursor (Fields.comma m fields), n)) size)

module _ (decode_key : Bytes → Option Text) (d : Document)
    (decoded : IsDecoded decode_key d.fields) where
  enough_rounds : (left : ℕ) × (suc (length (print_document d)) ≡ rounds d.fields left)
  enough_rounds = (
    suc (length (print_document d)) - rounds d.fields 0,
    omega (
      arith,
      rounds-le d.fields,
      rounds-add d.fields (suc (length (print_document d)) - rounds d.fields 0),
      length-append (print_open d ++ print_fields d.fields) (print_close d),
      length-append (print_open d) (print_fields d.fields),
    ),
  )

  -- The entries of a printed object are its fields' keys, each with where its value stands.
  pub root_entries-print_document :
      let start = length (print_open d) in
      root_entries decode_key (print_document d)
      ≡ ok (entries_at start d.fields, start + length (print_fields d.fields))
  unfolding root_entries
  root_entries-print_document =
      let text = print_document d in
      let body = print_fields d.fields ++ b'}' ∷ print_spaces d.trailing in
      let whole : At text 0 (print_spaces d.leading ++ (b'{' ∷ body)) = simp append_assoc refl in
      let brace : skip_whitespace text 0 ≡ 0 + length (print_spaces d.leading) =
        skip_whitespace-print_spaces text 0 d.leading _ whole
          (unfold is_ascii_whitespace in refl) in
      let at_brace = At-advance text 0 (print_spaces d.leading) _ whole in
      let opened : (head? (drop (0 + length (print_spaces d.leading)) text) == some b'{') ≡ true =
        rw at_brace refl in
      let at_body = At-suc text (0 + length (print_spaces d.leading)) b'{' _ at_brace in
      let start : suc (0 + length (print_spaces d.leading)) ≡ length (print_open d) =
        omega (arith, length-append (print_spaces d.leading) (b'{' ∷ [])) in
      let (left, enough) = enough_rounds in
      rw (brace, opened, enough, start)
        (root_loop-print_fields decode_key text d.trailing d.fields left (length (print_open d))
          decoded (subst (λ c. At text c body) start at_body))
