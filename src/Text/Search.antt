-- ===== src/Text/Search.antt =====
-- Searches of Rust's `str` that the program calls, over lists of code points. A position that
-- `find` or `rfind` gives is only used to cut the text there, so the model gives the text before it.
use cc_switch_core.Base.{
  nat_eq, list_eq, option_eq, string_eq, ℕ, zero, suc, ◌≡◌, refl, Bool, true, false, Option, none,
  some, [], ◌∷◌, ◌++◌, map, reverse, if◌then◌else◌, nat_beq,
}
use cc_switch_core.Text.{Text, ascii_lower}
use mathlib.Core.List.{reverse-append}

-- `str::strip_prefix`
unfoldable pub strip_prefix : Text → Text → Option Text
strip_prefix [] s = some s
strip_prefix (p ∷ ps) [] = none
strip_prefix (p ∷ ps) (c ∷ s) = if nat_beq p c then strip_prefix ps s else none

abbrev pub is_some : Option Text → Bool
is_some (some s) = true
is_some none = false

-- `str::starts_with`
unfoldable pub starts_with : Text → Text → Bool
unfolding strip_prefix
starts_with prefix s = is_some (strip_prefix prefix s)

-- `str::ends_with`
unfoldable pub ends_with : Text → Text → Bool
unfolding starts_with
ends_with suffix s = starts_with (reverse suffix) (reverse s)

abbrev cons_to : ℕ → Option Text → Option Text
cons_to c none = none
cons_to c (some s) = some (c ∷ s)

-- The text before the first occurrence of the needle: `&s[..s.find(needle)?]`.
unfoldable pub before_first : Text → Text → Option Text
unfolding starts_with
before_first needle [] = if starts_with needle [] then some [] else none
before_first needle (c ∷ s) =
    let later = before_first needle s in
    if starts_with needle (c ∷ s) then some [] else cons_to c later

-- The text before the last occurrence of a character: `&s[..s.rfind(c)?]`.
unfoldable pub before_last : ℕ → Text → Option Text
before_last d [] = none
before_last d (c ∷ s) = elim (before_last d s) [
  | some t ↦ some (c ∷ t)
  | none ↦ if nat_beq c d then some [] else none
]

unfoldable pub drop_leading : ℕ → Text → Text
drop_leading d [] = []
drop_leading d (c ∷ s) = elim (nat_beq c d) [ true ↦ drop_leading d s | false ↦ c ∷ s ]

-- `str::trim_end_matches` with a character
unfoldable pub trim_end_matches : ℕ → Text → Text
unfolding drop_leading
trim_end_matches d s = reverse (drop_leading d (reverse s))

-- `str::to_ascii_lowercase`
unfoldable pub to_ascii_lowercase : Text → Text
unfolding ascii_lower
to_ascii_lowercase s = map ascii_lower s

unfoldable pub take : ℕ → Text → Text
take zero s = []
take (suc n) [] = []
take (suc n) (c ∷ s) = c ∷ take n s

starts_with-append : (p s : Text) → starts_with p (p ++ s) ≡ true
unfolding starts_with strip_prefix
starts_with-append [] s = refl
starts_with-append (p ∷ ps) s = rw ((nat_eq.eqb_iff p p).1 refl) (starts_with-append ps s)

-- A text ends with whatever was appended to it.
pub ends_with-append : (s suffix : Text) → ends_with suffix (s ++ suffix) ≡ true
unfolding ends_with
ends_with-append s suffix =
    rw (reverse-append s suffix) (starts_with-append (reverse suffix) (reverse s))
