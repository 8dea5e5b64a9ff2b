-- ===== src/Gemini/Env/Assignments.antt =====
-- Laws of the assignments' reading and rendering (src/gemini/env.rs).
use cc_switch_core.Base.{
  nat_eq, list_eq, option_eq, string_eq, ℕ, ◌≡◌, refl, sym, ap, ◌∙◌, inl, inr, Bool, true, false,
  Option, some, List, [], ◌∷◌, ◌++◌, map, reverse, append-nil, append_assoc, ok, All, Bool-cases,
  Option-cases, nat_beq, ok-injective,
}
use cc_switch_core.Text.{Text, trim}
use cc_switch_core.Base.{all, contains, is_empty, All-reverse}
use mathlib.Core.List.{reverse-append, reverse-reverse, reverse-cons}
use cc_switch_core.Gemini.Env.{
  EnvAssignmentSyntax, split_once, is_name_char, is_allowed_value, check_assignment, parse_line,
  cut_lines, without_return, assignment, write_next, write_all,
}

-- The parts stand around the first separator.
abbrev SplitsAt : ℕ → Text → Text × Text → Type 0
SplitsAt d s parts = (s ≡ parts.0 ++ (d ∷ parts.1)) × (contains parts.0 d ≡ false)

some-injective : {p q : Text × Text} → Path (Option (Text × Text)) (some p) (some q) → p ≡ q
some-injective h = cc

split_once-some :
    (d : ℕ) (s : Text) (parts : Text × Text) → split_once d s ≡ some parts → SplitsAt d s parts
unfolding split_once
split_once-some d [] parts h = cc
split_once-some d (c ∷ s) parts h = elim (Bool-cases (nat_beq c d)) [
  | inl e ↦
      rw (← some-injective (rw (e, split_once) at h))
        (ap (λ x. x ∷ s) ((nat_eq.eqb_iff c d).0 e), refl)
  | inr ne ↦ elim (Option-cases (split_once d s)) [
    | inl none_left ↦ cc (rw (ne, none_left, split_once) at h)
    | inr ((left, right), e) ↦
        let (same, before) = split_once-some d s (left, right) e in
        rw (← some-injective (rw (ne, e, split_once) at h))
          (ap (λ t. c ∷ t) same, rw (ne, before) refl)
  ]
]

-- The line is a name and a value around its first separator, with blanks around both; the name is
-- not empty and has characters of the syntax only, and the value none that the syntax refuses.
pub record IsAssignment (alphanumeric : ℕ → Bool) (syntax : EnvAssignmentSyntax)
    (line key value : Text) : Type 0 where
  pub raw_key : Text
  pub raw_value : Text
  pub split : line ≡ raw_key ++ (b'=' ∷ raw_value)
  pub first : contains raw_key b'=' ≡ false
  pub trimmed_key : key ≡ trim raw_key
  pub trimmed_value : value ≡ trim raw_value
  pub some_key : is_empty key ≡ false
  pub valid_key : all (is_name_char alphanumeric syntax) key ≡ true
  pub valid_value : is_allowed_value syntax value ≡ true

-- No character of the text ends a line.
abbrev pub OneLine : Text → Type 0
OneLine = All (λ c. (nat_beq c b'\n' ≡ false) × (nat_beq c b'\r' ≡ false))

cut_lines-append :
    (current l rest : Text)
    → OneLine l
    → cut_lines current (l ++ rest) ≡ cut_lines (reverse l ++ current) rest
unfolding cut_lines
cut_lines-append current [] rest h = refl
cut_lines-append current (c ∷ l) rest ((e, f), h) =
    rw (e, cut_lines)
      (cut_lines-append (c ∷ current) l rest h
        ∙ ap (λ t. cut_lines t rest)
            (rw (reverse-cons c l) (sym (append_assoc (reverse l) (c ∷ []) current))))

without_return-OneLine : (s : Text) → OneLine s → without_return s ≡ s
without_return-OneLine [] h = refl
without_return-OneLine (c ∷ s) ((e, f), h) = rw f refl

-- A line before a line feed is read as it is.
cut_lines-line :
    (l rest : Text) → OneLine l → cut_lines [] (l ++ (b'\n' ∷ rest)) ≡ l ∷ cut_lines [] rest
unfolding cut_lines
cut_lines-line l rest h =
    cut_lines-append [] l (b'\n' ∷ rest) h
    ∙ rw
        (
          append-nil (reverse l),
          without_return-OneLine (reverse l) (All-reverse _ l h),
          reverse-reverse l,
        )
        refl

is_empty-append : (s t : Text) (c : ℕ) → is_empty (s ++ (c ∷ t)) ≡ false
is_empty-append [] t c = refl
is_empty-append (d ∷ s) t c = refl

-- So is the last one, if it is not empty.
cut_lines-last : (l : Text) → is_empty (reverse l) ≡ false → OneLine l → cut_lines [] l ≡ l ∷ []
unfolding cut_lines
cut_lines-last l filled h =
    ap (cut_lines []) (sym (append-nil l))
    ∙ cut_lines-append [] l [] h
    ∙ rw (append-nil (reverse l), filled, reverse-reverse l) refl

is_empty-reverse : (a : Text × Text) → is_empty (reverse (assignment a)) ≡ false
is_empty-reverse (key, value) =
    rw
      (
        reverse-append key (b'=' ∷ value),
        reverse-cons b'=' value,
        append_assoc (reverse value) (b'=' ∷ []) (reverse key),
      )
      (is_empty-append (reverse value) (reverse key) b'=')

pub cut_lines-write_all :
    (assignments : List (Text × Text))
    → All (λ a. OneLine (assignment a)) assignments
    → cut_lines [] (write_all assignments) ≡ map assignment assignments
unfolding write_all write_next cut_lines
cut_lines-write_all [] h = refl
cut_lines-write_all (a ∷ []) (h, _) =
    ap (cut_lines []) (append-nil (assignment a))
    ∙ cut_lines-last (assignment a) (is_empty-reverse a) h
cut_lines-write_all (a ∷ b ∷ rest) (h, hs) =
    cut_lines-line (assignment a) (write_all (b ∷ rest)) h
    ∙ ap (λ ls. assignment a ∷ ls) (cut_lines-write_all (b ∷ rest) hs)

check_assignment-ok :
    (alphanumeric : ℕ → Bool) (syntax : EnvAssignmentSyntax) (k v : Text) (parts : Text × Text)
    → check_assignment alphanumeric syntax k v ≡ ok parts
    → ((k, v) ≡ parts)
      × (is_empty k ≡ false)
      × (all (is_name_char alphanumeric syntax) k ≡ true)
      × (is_allowed_value syntax v ≡ true)
unfolding check_assignment
check_assignment-ok alphanumeric syntax k v parts h = elim (Bool-cases (is_empty k)) [
  | inl e ↦ cc (rw (e, check_assignment) at h)
  | inr e ↦ elim (Bool-cases (all (is_name_char alphanumeric syntax) k)) [
    | inr f ↦ cc (rw (e, f, check_assignment) at h)
    | inl f ↦ elim (Bool-cases (is_allowed_value syntax v)) [
      | inr g ↦ cc (rw (e, f, g, check_assignment) at h)
      | inl g ↦ (ok-injective (rw (e, f, g, check_assignment) at h), e, f, g)
    ]
  ]
]

-- A line that parses is a name and a value around its first separator, trimmed; the name is not
-- empty and has characters of the syntax only, and the value none that the syntax refuses.
pub parse_line-ok :
    (alphanumeric : ℕ → Bool) (syntax : EnvAssignmentSyntax) (line : Text) (parts : Text × Text)
    → parse_line alphanumeric syntax line ≡ ok parts
    → IsAssignment alphanumeric syntax line parts.0 parts.1
unfolding parse_line
parse_line-ok alphanumeric syntax line parts h = elim (Option-cases (split_once b'=' line)) [
  | inl e ↦ cc (rw (e, parse_line) at h)
  | inr ((raw_key, raw_value), e) ↦
      let (same, filled, valid, allowed) =
        check_assignment-ok alphanumeric syntax (trim raw_key) (trim raw_value) parts
          (rw (e, parse_line) at h) in
      let (split, first) = split_once-some b'=' line (raw_key, raw_value) e in
      rw (← same) (record {
        raw_key = raw_key;
        raw_value = raw_value;
        split = split;
        first = first;
        trimmed_key = refl;
        trimmed_value = refl;
        some_key = filled;
        valid_key = valid;
        valid_value = allowed;
      })
]
