-- ===== src/JsonPatch/ScanLaws.antt =====
-- The scanners on what is printed (src/mcp/json_patch.rs).
use cc_switch_core.Base.{
  nat_eq, list_eq, option_eq, string_eq, ℕ, suc, ◌+◌, ◌≡◌, refl, ap, ◌∙◌, true, false, List, [],
  ◌∷◌, ◌++◌, append_assoc, arith, ok, length, nat_beq,
}
use cc_switch_core.Base.{length-append}
use cc_switch_core.Text.{Bytes}
use cc_switch_core.JsonPatch.Scan.{
  is_ascii_whitespace, skip_from, skip_whitespace, string_end_from, string_end,
}
use cc_switch_core.JsonPatch.Syntax.{
  Space, space_byte, print_spaces, Item, print_items, print_string,
}
use cc_switch_core.JsonPatch.Cursor.{At, At-suc}

-- The text is at its end or goes on with no whitespace.
abbrev pub IsInked : Bytes → Type 0
IsInked [] = Unit
IsInked (b ∷ rest) = is_ascii_whitespace b ≡ false

pub space_byte-blank : (s : Space) → is_ascii_whitespace (space_byte s) ≡ true
unfolding is_ascii_whitespace
space_byte-blank Space.space = refl
space_byte-blank Space.tab = refl
space_byte-blank Space.newline = refl
space_byte-blank Space.carriage_return = refl

skip_from-print_spaces :
    (spaces : List Space) (rest : Bytes) (cursor : ℕ)
    → IsInked rest
    → skip_from (print_spaces spaces ++ rest) cursor ≡ cursor + length (print_spaces spaces)
unfolding skip_from
skip_from-print_spaces [] [] cursor h = omega arith
skip_from-print_spaces [] (b ∷ rest) cursor h = rw h (omega arith)
skip_from-print_spaces (s ∷ spaces) rest cursor h =
    rw (space_byte-blank s) (omega (arith, skip_from-print_spaces spaces rest (suc cursor) h))

pub skip_whitespace-print_spaces :
    (bytes : Bytes) (cursor : ℕ) (spaces : List Space) (rest : Bytes)
    → At bytes cursor (print_spaces spaces ++ rest)
    → IsInked rest
    → skip_whitespace bytes cursor ≡ cursor + length (print_spaces spaces)
unfolding skip_whitespace
skip_whitespace-print_spaces bytes cursor spaces rest h k =
    rw h (skip_from-print_spaces spaces rest cursor k)

string_end_from-print_items :
    (items : List Item) (rest : Bytes) (cursor : ℕ)
    → string_end_from (print_items items ++ b'"' ∷ rest) false cursor
      ≡ ok (suc (cursor + length (print_items items)))
unfolding string_end_from
string_end_from-print_items [] rest cursor = ap (λ n. ok (suc n)) (omega arith)
string_end_from-print_items (Item.byte b h ∷ items) rest cursor =
    let slash : nat_beq b b'\\' ≡ false = ground arith in
    let quote : nat_beq b b'"' ≡ false = ground arith in
    rw (slash, quote, string_end_from)
      (string_end_from-print_items items rest (suc cursor) ∙ ap (λ n. ok (suc n)) (omega arith))
string_end_from-print_items (Item.escape b ∷ items) rest cursor =
    string_end_from-print_items items rest (suc (suc cursor)) ∙ ap (λ n. ok (suc n)) (omega arith)

print_string-append :
    (items : List Item) (rest : Bytes)
    → print_string items ++ rest ≡ b'"' ∷ print_items items ++ b'"' ∷ rest
print_string-append items rest =
    ap (λ l. b'"' ∷ l) (append_assoc (print_items items) (b'"' ∷ []) rest)

length-print_string :
    (items : List Item) → length (print_string items) ≡ 2 + length (print_items items)
length-print_string items = omega (arith, length-append (print_items items) (b'"' ∷ []))

pub string_end-print_string :
    (bytes : Bytes) (cursor : ℕ) (items : List Item) (rest : Bytes)
    → At bytes cursor (print_string items ++ rest)
    → string_end bytes cursor ≡ ok (cursor + length (print_string items))
unfolding string_end
string_end-print_string bytes cursor items rest h =
    let here = h ∙ print_string-append items rest in
    rw (here, At-suc bytes cursor b'"' _ here, length-print_string items)
      (string_end_from-print_items items rest (suc cursor) ∙ ap ok (omega arith))
