-- ===== src/Text.antt =====
-- The standard library's text operations that the program calls, over lists of numbers.
-- A `Text` is the list of a string's code points, and `Bytes` those of its UTF-8 bytes.
pub mod Laws
pub mod Search
use Prim.Native.Char.{code}
use cc_switch_core.Base.{
  ℕ, ◌+◌, String, ◌≡◌, refl, ap, ◌∙◌, Bool, true, false, ◌&&◌, ◌||◌, List, [], ◌∷◌, ◌++◌, map,
  reverse, append_assoc, arith, leb, ltb, nat_beq, if◌then◌else◌, all, All, All-append, Bool-cases,
  inl, inr,
}
use mathlib.Core.List.{reverse-append, reverse-reverse, append-nil}

abbrev pub Text : Type 0
Text = List ℕ

abbrev pub Bytes : Type 0
Bytes = List ℕ

-- The code points of a literal; they are its bytes too, if it is ASCII.
abbrev pub codes : String → Text
codes String.[] = []
codes (String.◌∷◌ c s) = code c ∷ codes s

-- `char::is_whitespace`: the code points of Unicode's White_Space property.
unfoldable pub is_whitespace : ℕ → Bool
is_whitespace c =
    (leb 9 c && leb c 13)
    || nat_beq c 32
    || nat_beq c 0x85
    || nat_beq c 0xa0
    || nat_beq c 0x1680
    || (leb 0x2000 c && leb c 0x200a)
    || nat_beq c 0x2028
    || nat_beq c 0x2029
    || nat_beq c 0x202f
    || nat_beq c 0x205f
    || nat_beq c 0x3000

unfoldable pub trim_start : Text → Text
trim_start [] = []
trim_start (c ∷ s) = if is_whitespace c then trim_start s else c ∷ s

unfoldable pub trim_end : Text → Text
unfolding trim_start
trim_end s = reverse (trim_start (reverse s))

-- `str::trim`
unfoldable pub trim : Text → Text
trim s = trim_end (trim_start s)

unfoldable pub is_ascii : ℕ → Bool
is_ascii c = ltb c 128

unfoldable pub ascii_lower : ℕ → ℕ
ascii_lower c = if leb b'A' c && leb c b'Z' then c + 32 else c

-- `str::to_lowercase`. The argument `unicode` stands for Unicode's tables: it gives the result for
-- a text with a character outside ASCII.
unfoldable pub to_lowercase : (Text → Text) → Text → Text
unfolding is_ascii ascii_lower
to_lowercase unicode s = if all is_ascii s then map ascii_lower s else unicode s
