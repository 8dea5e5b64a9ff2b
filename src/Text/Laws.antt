-- ===== src/Text/Laws.antt =====
-- Laws of `trim` and `to_lowercase` on plain texts: those of ASCII characters and no whitespace.
use mathlib.Core.List.{reverse-append, reverse-reverse}
use cc_switch_core.Base.{
  ℕ, ◌≡◌, refl, ap, ◌∙◌, Bool, true, false, not, ◌&&◌, [], ◌∷◌, ◌++◌, map, reverse, arith, all, All,
  All-reverse,
}
use cc_switch_core.Text.{
  Text, is_whitespace, trim_start, trim_end, trim, is_ascii, ascii_lower, to_lowercase,
}

-- An ASCII character that is no whitespace.
unfoldable pub plain : ℕ → Bool
unfolding is_whitespace is_ascii
plain c = not (is_whitespace c) && is_ascii c

abbrev pub Plain : Text → Type 0
Plain = All λ c. plain c ≡ true

abbrev pub Blank : Text → Type 0
Blank = All λ c. is_whitespace c ≡ true

pub all-Plain : (s : Text) → all plain s ≡ true → Plain s
all-Plain [] h = tt
all-Plain (c ∷ s) h = (ground arith, all-Plain s (ground arith))

plain-not_whitespace : (c : ℕ) → plain c ≡ true → is_whitespace c ≡ false
unfolding plain
plain-not_whitespace c h = unfold is_whitespace in ground arith

plain-is_ascii : (c : ℕ) → plain c ≡ true → is_ascii c ≡ true
unfolding plain
plain-is_ascii c h = unfold is_whitespace in ground arith

-- Only a plain character has a plain one for its lower case.
plain_of_lower : (c : ℕ) → plain (ascii_lower c) ≡ true → plain c ≡ true
unfolding plain ascii_lower
plain_of_lower c h = ground arith

ascii_lower_idem : (c : ℕ) → ascii_lower (ascii_lower c) ≡ ascii_lower c
unfolding ascii_lower
ascii_lower_idem c = ground arith

pub map-ascii_lower_idem : (s : Text) → map ascii_lower (map ascii_lower s) ≡ map ascii_lower s
map-ascii_lower_idem [] = refl
map-ascii_lower_idem (c ∷ s) = cc (ascii_lower_idem c, map-ascii_lower_idem s)

pub Plain-of_lower : (s : Text) → Plain (map ascii_lower s) → Plain s
Plain-of_lower [] h = tt
Plain-of_lower (c ∷ s) h = (plain_of_lower c h.0, Plain-of_lower s h.1)

all-is_ascii : (s : Text) → Plain s → all is_ascii s ≡ true
all-is_ascii [] h = refl
all-is_ascii (c ∷ s) h = rw (plain-is_ascii c h.0) (all-is_ascii s h.1)

pub to_lowercase-Plain :
    (unicode : Text → Text) (s : Text) → Plain s → to_lowercase unicode s ≡ map ascii_lower s
unfolding to_lowercase
to_lowercase-Plain unicode s h = rw (all-is_ascii s h)

trim_start_nil : (ws : Text) → Blank ws → trim_start ws ≡ []
unfolding trim_start
trim_start_nil [] h = refl
trim_start_nil (c ∷ ws) h = rw h.0 (trim_start_nil ws h.1)

trim_start-Blank : (ws s : Text) → Blank ws → trim_start (ws ++ s) ≡ trim_start s
unfolding trim_start
trim_start-Blank [] s h = refl
trim_start-Blank (c ∷ ws) s h = rw h.0 (trim_start-Blank ws s h.1)

trim_start-Plain : (s : Text) → Plain s → trim_start s ≡ s
unfolding trim_start
trim_start-Plain [] h = refl
trim_start-Plain (c ∷ s) h = rw (plain-not_whitespace c h.0)

trim_end-Plain : (s ws : Text) → Plain s → Blank ws → trim_end (s ++ ws) ≡ s
unfolding trim_end
trim_end-Plain s ws h b =
    rw
      (
        reverse-append s ws,
        trim_start-Blank (reverse ws) (reverse s) (All-reverse _ ws b),
        trim_start-Plain (reverse s) (All-reverse _ s h),
      )
      (reverse-reverse s)

trim_end-trim_start : (s ws : Text) → Plain s → Blank ws → trim_end (trim_start (s ++ ws)) ≡ s
trim_end-trim_start [] ws h b = rw (trim_start_nil ws b) (unfold trim_end trim_start in refl)
trim_end-trim_start (c ∷ s) ws h b =
    ap trim_end {y = c ∷ (s ++ ws)} (unfold trim_start in rw (plain-not_whitespace c h.0))
    ∙ trim_end-Plain (c ∷ s) ws h b

-- Trimming takes off what blank text stands around a plain one.
pub trim_pad :
    (before s after : Text)
    → Blank before
    → Plain s
    → Blank after
    → trim (before ++ (s ++ after)) ≡ s
unfolding trim
trim_pad before s after b h a =
    rw (trim_start-Blank before (s ++ after) b) (trim_end-trim_start s after h a)
