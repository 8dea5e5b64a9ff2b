-- ===== src/YamlPatch/LineLaws.antt =====
-- Laws of the lines of a text, and of cuts of it (src/yaml_patch.rs).
use cc_switch_core.Base.{
  nat_eq, list_eq, option_eq, string_eq, ℕ, zero, suc, ◌+◌, ◌-◌, ◌≤◌, ◌≡◌, refl, sym, ap, ◌∙◌, inl,
  inr, List, [], ◌∷◌, ◌++◌, append_assoc, arith, length, All, Bool-cases, nat_beq,
}
use cc_switch_core.Base.{drop, take, slice, drop-drop, take_add, length-append, List-cases}
use cc_switch_core.Base.{drop, take, slice, drop-drop, take_add, length-append, List-cases}
use cc_switch_core.Base.{drop, take, slice, drop-drop, take_add, length-append}
use cc_switch_core.Text.{Text}
use cc_switch_core.YamlPatch.Lines.{
  split_inclusive, join_char, LineSpan, spans_from, line_spans, first_line_length, line_end,
}

abbrev pub concat : List Text → Text
concat [] = []
concat (line ∷ lines) = line ++ concat lines

pub concat-append : (xs ys : List Text) → concat (xs ++ ys) ≡ concat xs ++ concat ys
concat-append [] ys = refl
concat-append (x ∷ xs) ys =
    ap (λ l. x ++ l) (concat-append xs ys) ∙ sym (append_assoc x (concat xs) (concat ys))

concat-join_char : (c : ℕ) (lines : List Text) → concat (join_char c lines) ≡ c ∷ concat lines
concat-join_char c [] = refl
concat-join_char c (line ∷ lines) = refl

-- The lines of a text, one after the other, are the text.
pub concat-split_inclusive : (s : Text) → concat (split_inclusive s) ≡ s
unfolding split_inclusive
concat-split_inclusive [] = refl
concat-split_inclusive (c ∷ s) = elim (Bool-cases (nat_beq c 10)) [
  | inl feed ↦ rw feed (ap (λ l. c ∷ l) (concat-split_inclusive s))
  | inr other ↦
      rw other (concat-join_char c (split_inclusive s) ∙ ap (λ l. c ∷ l) (concat-split_inclusive s))
]

abbrev first_length : List Text → ℕ
first_length [] = 0
first_length (line ∷ lines) = length line

first_length-join_char :
    (c : ℕ) (lines : List Text) → first_length (join_char c lines) ≡ suc (first_length lines)
first_length-join_char c [] = refl
first_length-join_char c (line ∷ lines) = refl

first_line_length-split_inclusive :
    (s : Text) → first_line_length s ≡ first_length (split_inclusive s)
unfolding split_inclusive
first_line_length-split_inclusive [] = refl
first_line_length-split_inclusive (c ∷ s) = elim (Bool-cases (nat_beq c 10)) [
  | inl feed ↦ rw feed refl
  | inr other ↦ rw other (
      ap suc (first_line_length-split_inclusive s)
      ∙ sym (first_length-join_char c (split_inclusive s)))
]

-- After some lines of a text, its lines are those that are left.
split_inclusive-drop :
    (s : Text) (before after : List Text)
    → split_inclusive s ≡ before ++ after
    → split_inclusive (drop (length (concat before)) s) ≡ after
unfolding split_inclusive
split_inclusive-drop s [] after h = h
split_inclusive-drop [] (line ∷ before) after h = cc h
split_inclusive-drop (c ∷ s) (line ∷ before) after h = elim (Bool-cases (nat_beq c 10)) [
  | inl feed ↦
      let h' = rw (feed, split_inclusive) at h in
      let first : c ∷ [] ≡ line = cc h' in
      let rest : split_inclusive s ≡ before ++ after = cc h' in
      rw (← first) (split_inclusive-drop s before after rest)
  | inr other ↦ elim (List-cases (split_inclusive s)) [
    | inl none_left ↦
        let h' = rw (other, none_left, split_inclusive) at h in
        let first : c ∷ [] ≡ line = cc h' in
        let rest : [] ≡ before ++ after = cc h' in
        rw (← first) (split_inclusive-drop s before after (none_left ∙ rest))
    | inr (l, ls, e) ↦
        let h' = rw (other, e, split_inclusive) at h in
        let first : c ∷ l ≡ line = cc h' in
        let rest : ls ≡ before ++ after = cc h' in
        rw (← first) (split_inclusive-drop s (l ∷ before) after (e ∙ ap (λ x. l ∷ x) rest))
  ]
]

-- A line of a text ends where the next begins.
pub line_end-line :
    (raw : Text) (before after : List Text) (line : Text)
    → split_inclusive raw ≡ before ++ line ∷ after
    → line_end raw (length (concat before)) ≡ length (concat before) + length line
unfolding line_end
line_end-line raw before after line h =
    let start = length (concat before) in
    let rest = split_inclusive-drop raw before (line ∷ after) h in
    ap (λ n. start + n) (first_line_length-split_inclusive (drop start raw) ∙ ap first_length rest)

length-take-short : (n : ℕ) (s : Text) → length (take n s) ≤ n
length-take-short zero s = omega arith
length-take-short (suc n) [] = omega arith
length-take-short (suc n) (c ∷ s) = omega (arith, length-take-short n s)

pub take-drop : (n : ℕ) (s : Text) → take n s ++ drop n s ≡ s
take-drop zero s = refl
take-drop (suc n) [] = refl
take-drop (suc n) (c ∷ s) = ap (λ l. c ∷ l) (take-drop n s)

regroup : (a b c d e : Text) → a ++ b ++ c ++ (d ++ e) ≡ a ++ (b ++ c ++ d) ++ e
regroup a b c d e = simp append_assoc refl

-- A text cut inside of a range keeps what is outside of the range.
pub cut_inside :
    (raw inserted : Text) (start from to end : ℕ)
    → start ≤ from
    → to ≤ end
    → (middle : Text) × (take from raw ++ inserted ++ drop to raw
        ≡ take start raw ++ middle ++ drop end raw)
cut_inside raw inserted start from to end low high =
    let lead = take (from - start) (drop start raw) in
    let rest = take (end - to) (drop to raw) in
    let from_sum : from ≡ start + (from - start) = omega (arith, low) in
    let end_sum : end ≡ to + (end - to) = omega (arith, high) in
    let head : take from raw ≡ take start raw ++ lead =
      ap (λ n. take n raw) from_sum ∙ take_add start (from - start) raw in
    let tail : drop to raw ≡ rest ++ drop end raw =
      sym (take-drop (end - to) (drop to raw))
      ∙ ap (λ l. rest ++ l)
          (sym (drop-drop to (end - to) raw) ∙ ap (λ n. drop n raw) (sym end_sum)) in
    (
      lead ++ inserted ++ rest,
      ap (λ l. l ++ inserted ++ drop to raw) head
          ∙ ap (λ l. take start raw ++ lead ++ inserted ++ l) tail
          ∙ regroup (take start raw) lead inserted rest (drop end raw),
    )

abbrev pub Within : ℕ → ℕ → LineSpan → Type 0
Within low high span = (low ≤ span.start) × (span.start ≤ span.end) × (span.end ≤ high)

spans_from-Within :
    (low high offset : ℕ) (lines : List Text)
    → low ≤ offset
    → offset + length (concat lines) ≤ high
    → All (Within low high) (spans_from offset lines)
unfolding spans_from
spans_from-Within low high offset [] l h = tt
spans_from-Within low high offset (line ∷ lines) l h =
    let size = length-append line (concat lines) in
    (
      (omega (arith, l), omega arith, omega (arith, h, size)),
      spans_from-Within low high (offset + length line) lines (omega (arith, l))
          (omega (arith, h, size)),
    )

-- The lines of a range stand inside of it.
pub line_spans-Within :
    (raw : Text) (start end : ℕ) → start ≤ end → All (Within start end) (line_spans raw start end)
unfolding line_spans
line_spans-Within raw start end h =
    let part = slice start end raw in
    let size : length (concat (split_inclusive part)) ≤ end - start =
      rw (concat-split_inclusive part) (length-take-short (end - start) (drop start raw)) in
    spans_from-Within start end start (split_inclusive part) (omega arith) (omega (arith, h, size))
