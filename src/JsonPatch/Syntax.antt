-- ===== src/JsonPatch/Syntax.antt =====
-- The syntax of a JSON text whose value is an object, after RFC 8259, as trees and their print.
-- Inside of containers and in scalars the trees are looser than JSON's grammar.
use cc_switch_core.Base.{
  nat_eq, list_eq, option_eq, string_eq, ℕ, ◌≡◌, Bool, true, not, ◌&&◌, List, [], ◌∷◌, ◌++◌, All,
  nat_beq,
}
use cc_switch_core.Text.{Text, Bytes}
use cc_switch_core.JsonPatch.Scan.{is_ascii_whitespace, ends_scalar}

-- RFC 8259's whitespace
pub data Space : Type 0 where
  space : Space
  tab : Space
  newline : Space
  carriage_return : Space

abbrev pub space_byte : Space → ℕ
space_byte Space.space = b' '
space_byte Space.tab = 9
space_byte Space.newline = 10
space_byte Space.carriage_return = 13

abbrev pub print_spaces : List Space → Bytes
print_spaces [] = []
print_spaces (s ∷ spaces) = space_byte s ∷ print_spaces spaces

abbrev pub is_string_byte : ℕ → Bool
is_string_byte b = not (nat_beq b b'\\') && not (nat_beq b b'"')

abbrev pub is_scalar_byte : ℕ → Bool
is_scalar_byte b = not (is_ascii_whitespace b) && not (ends_scalar b)

-- A byte that no container takes for a bracket or a quote
abbrev pub is_plain : ℕ → Bool
is_plain b =
    not (nat_beq b b'"')
    && not (nat_beq b b'{')
    && not (nat_beq b b'[')
    && not (nat_beq b b'}')
    && not (nat_beq b b']')

pub data Item : Type 0 where
  byte : (b : ℕ) → is_string_byte b ≡ true → Item
  escape : ℕ → Item

abbrev pub print_items : List Item → Bytes
print_items [] = []
print_items (Item.byte b h ∷ items) = b ∷ print_items items
print_items (Item.escape b ∷ items) = b'\\' ∷ b ∷ print_items items

abbrev pub print_string : List Item → Bytes
print_string items = b'"' ∷ print_items items ++ b'"' ∷ []

-- What stands between a container's brackets
pub data Inside : Type 0 where
  nothing : Inside
  plain : (b : ℕ) → is_plain b ≡ true → Inside → Inside
  string : List Item → Inside → Inside
  braces : Inside → Inside → Inside
  brackets : Inside → Inside → Inside

abbrev pub print_inside : Inside → Bytes
print_inside Inside.nothing = []
print_inside (Inside.plain b h after) = b ∷ print_inside after
print_inside (Inside.string items after) = print_string items ++ print_inside after
print_inside (Inside.braces inner after) = b'{' ∷ print_inside inner ++ b'}' ∷ print_inside after
print_inside (Inside.brackets inner after) = b'[' ∷ print_inside inner ++ b']' ∷ print_inside after

pub data JsonValue : Type 0 where
  string_value : List Item → JsonValue
  braced : Inside → JsonValue
  bracketed : Inside → JsonValue
  -- A number or a literal name: its first byte and those after it
  scalar :
      (b : ℕ) (rest : Bytes)
      → is_plain b ≡ true
      → All (λ c. is_scalar_byte c ≡ true) (b ∷ rest)
      → JsonValue

abbrev pub print_value : JsonValue → Bytes
print_value (JsonValue.string_value items) = print_string items
print_value (JsonValue.braced inner) = b'{' ∷ print_inside inner ++ b'}' ∷ []
print_value (JsonValue.bracketed inner) = b'[' ∷ print_inside inner ++ b']' ∷ []
print_value (JsonValue.scalar b rest h k) = b ∷ rest

-- A field of the object, with the key that its string stands for, and the whitespace around
pub record Member : Type 0 where
  pub before : List Space
  pub name : List Item
  pub key : Text
  pub between : List Space
  pub after : List Space
  pub value : JsonValue
  pub trailing : List Space

abbrev pub print_name : Member → Bytes
print_name m =
    print_spaces m.before
    ++ print_string m.name
    ++ print_spaces m.between
    ++ b':' ∷ print_spaces m.after

abbrev pub print_member : Member → Bytes
print_member m = print_name m ++ print_value m.value ++ print_spaces m.trailing

-- The fields of an object; a comma may stand before the closing brace, as the code allows.
pub data Fields : Type 0 where
  finish : List Space → Fields
  last : Member → Fields
  comma : Member → Fields → Fields

abbrev pub print_fields : Fields → Bytes
print_fields (Fields.finish spaces) = print_spaces spaces
print_fields (Fields.last m) = print_member m
print_fields (Fields.comma m fields) = print_member m ++ b',' ∷ print_fields fields

pub record Document : Type 0 where
  pub leading : List Space
  pub fields : Fields
  pub trailing : List Space

abbrev pub print_open : Document → Bytes
print_open d = print_spaces d.leading ++ b'{' ∷ []

abbrev pub print_close : Document → Bytes
print_close d = b'}' ∷ print_spaces d.trailing

abbrev pub print_document : Document → Bytes
print_document d = print_open d ++ print_fields d.fields ++ print_close d
