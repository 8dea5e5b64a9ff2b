-- ===== src/Gemini/Env/RoundTrip.antt =====
-- The round trip of assignments through rendering and reading (src/gemini/env.rs).
use cc_switch_core.Base.{
  nat_eq, list_eq, option_eq, string_eq, ℕ, suc, ◌≡◌, refl, sym, ap, subst, ◌∙◌, Bool, true, false,
  some, List, [], ◌∷◌, ◌++◌, map, reverse, append_assoc, arith, ok, All, nat_beq, all, is_empty,
  All-append, All-mono, All-reverse,
}
use mathlib.Core.List.{reverse-append, reverse-reverse, reverse-cons}
use cc_switch_core.Base.{nat_beq_iff}
use cc_switch_core.Text.{Text, is_whitespace, trim, trim_start, trim_end}
use cc_switch_core.Gemini.Env.{
  EnvAssignmentSyntax, split_once, is_name_char, is_allowed_value, check_assignment, parse_line,
  is_skipped, parse_lines, parse_env_assignments, sort_by_key, assignment,
  render_literal_env_assignments,
}
use cc_switch_core.Gemini.Env.Assignments.{OneLine, cut_lines-write_all}
use cc_switch_core.Gemini.Env.Sorting.{
  IsInOrder, of_name, sort_by_key-All, sort_by_key-IsInOrder, sort_by_key-of_name,
}

-- The text does not begin with whitespace.
abbrev pub Starts : Text → Type 0
Starts [] = Unit
Starts (c ∷ s) = is_whitespace c ≡ false

trim_start-Starts : (s : Text) → Starts s → trim_start s ≡ s
unfolding trim_start
trim_start-Starts [] h = refl
trim_start-Starts (c ∷ s) h = rw h refl

trim-Starts : (s : Text) → Starts s → Starts (reverse s) → trim s ≡ s
unfolding trim trim_end
trim-Starts s h k = rw (trim_start-Starts s h, trim_start-Starts (reverse s) k) (reverse-reverse s)

Starts-append : (s t : Text) (c : ℕ) → Starts s → is_whitespace c ≡ false → Starts (s ++ (c ∷ t))
Starts-append [] t c h k = k
Starts-append (d ∷ s) t c h k = h

Starts-All : (s : Text) → All (λ c. is_whitespace c ≡ false) s → Starts s
Starts-All [] h = tt
Starts-All (c ∷ s) h = h.0

-- What a character of a name is not.
pub record IsNameSafe (c : ℕ) : Type 0 where
  pub no_blank : is_whitespace c ≡ false
  pub no_separator : nat_beq c b'=' ≡ false
  pub no_comment : nat_beq c b'#' ≡ false
  pub one_line : (nat_beq c b'\n' ≡ false) × (nat_beq c b'\r' ≡ false)

-- An assignment that the syntax allows, whose value has one line and no whitespace at its ends.
pub record IsLiteral (alphanumeric : ℕ → Bool) (syntax : EnvAssignmentSyntax) (a : Text × Text)
    : Type 0 where
  pub some_key : is_empty a.0 ≡ false
  pub valid_key : all (is_name_char alphanumeric syntax) a.0 ≡ true
  pub valid_value : is_allowed_value syntax a.1 ≡ true
  pub line : OneLine a.1
  pub starts : Starts a.1
  pub ends : Starts (reverse a.1)

split_once-append :
    (d : ℕ) (k v : Text)
    → All (λ c. nat_beq c d ≡ false) k
    → split_once d (k ++ (d ∷ v)) ≡ some (k, v)
unfolding split_once
split_once-append d [] v h = rw ((nat_beq_iff d d).1 refl) refl
split_once-append d (c ∷ k) v (ne, h) = rw (ne, split_once-append d k v h) refl

module _ (alphanumeric : ℕ → Bool) (syntax : EnvAssignmentSyntax)
    (names : (c : ℕ) → is_name_char alphanumeric syntax c ≡ true → IsNameSafe c) where
  safe_name : (k : Text) → all (is_name_char alphanumeric syntax) k ≡ true → All IsNameSafe k
  safe_name [] h = tt
  safe_name (c ∷ k) h = (names c (ground (arith, h)), safe_name k (ground (arith, h)))

  abbrev Literal : Text × Text → Type 0
  Literal = IsLiteral alphanumeric syntax

  assignment-OneLine : (a : Text × Text) → Literal a → OneLine (assignment a)
  assignment-OneLine (k, v) h =
      All-append _ k (b'=' ∷ v)
        (All-mono IsNameSafe _ k (λ c s. s.one_line) (safe_name k h.valid_key))
        ((refl, refl), h.line)

  blank_free : (k : Text) → All IsNameSafe k → All (λ c. is_whitespace c ≡ false) k
  blank_free k h = All-mono IsNameSafe _ k (λ c s. s.no_blank) h

  -- An assignment's line is already trimmed.
  trim-assignment : (a : Text × Text) → Literal a → trim (assignment a) ≡ assignment a
  trim-assignment (k, v) h =
      let separator : is_whitespace b'=' ≡ false = unfold is_whitespace in refl in
      let key = Starts-All k (blank_free k (safe_name k h.valid_key)) in
      let back : reverse (k ++ (b'=' ∷ v)) ≡ reverse v ++ (b'=' ∷ reverse k) =
        reverse-append k (b'=' ∷ v)
        ∙ (ap (λ s. s ++ reverse k) (reverse-cons b'=' v)
            ∙ append_assoc (reverse v) (b'=' ∷ []) (reverse k)) in
      trim-Starts (k ++ (b'=' ∷ v)) (Starts-append k v b'=' key separator)
        (subst Starts (sym back) (Starts-append (reverse v) (reverse k) b'=' h.ends separator))

  parse_line-assignment :
      (a : Text × Text) → Literal a → parse_line alphanumeric syntax (assignment a) ≡ ok a
  unfolding parse_line check_assignment
  parse_line-assignment (k, v) h =
      let safe = safe_name k h.valid_key in
      let blank = blank_free k safe in
      let split : split_once b'=' (k ++ (b'=' ∷ v)) ≡ some (k, v) =
        split_once-append b'=' k v (All-mono IsNameSafe _ k (λ c s. s.no_separator) safe) in
      let key =
        trim-Starts k (Starts-All k blank) (Starts-All (reverse k) (All-reverse _ k blank)) in
      let value = trim-Starts v h.starts h.ends in
      rw (split, parse_line, key, value, check_assignment, h.some_key, h.valid_key, h.valid_value)
        refl

  is_skipped-assignment : (a : Text × Text) → Literal a → is_skipped (assignment a) ≡ false
  unfolding is_skipped
  is_skipped-assignment ([], v) h = cc h.some_key
  is_skipped-assignment (c ∷ k, v) h = (safe_name (c ∷ k) h.valid_key).0.no_comment

  parse_lines-assignments :
      (index : ℕ) (l : List (Text × Text))
      → All Literal l
      → parse_lines alphanumeric syntax index (map assignment l) ≡ map ok l
  unfolding parse_lines
  parse_lines-assignments index [] h = refl
  parse_lines-assignments index (a ∷ l) (h, hs) =
      rw
        (
          trim-assignment a h,
          is_skipped-assignment a h,
          parse_line-assignment a h,
          parse_lines-assignments (suc index) l hs,
        )
        refl

  -- The rendered text of assignments that the syntax allows, whose values have one line each and no
  -- whitespace at their ends, reads as the same assignments, in the order of their names, those of
  -- one name in their order, if no character of a name is whitespace, a separator, a comment sign
  -- or the end of a line.
  pub parse_env_assignments-render :
      (assignments : List (Text × Text))
      → All (IsLiteral alphanumeric syntax) assignments
      → (sorted : List (Text × Text)) × (parse_env_assignments alphanumeric
            (render_literal_env_assignments assignments)
            syntax
          ≡ map ok sorted)
        × IsInOrder sorted
        × ((key : Text) → of_name key sorted ≡ of_name key assignments)
  unfolding parse_env_assignments render_literal_env_assignments
  parse_env_assignments-render assignments h =
      let sorted = sort_by_key assignments in
      let literal = sort_by_key-All Literal assignments h in
      let lines =
        cut_lines-write_all sorted
          (All-mono Literal (λ a. OneLine (assignment a)) sorted assignment-OneLine literal) in
      (
        sorted,
        ap (parse_lines alphanumeric syntax 0) lines ∙ parse_lines-assignments 0 sorted literal,
        sort_by_key-IsInOrder assignments,
        λ key. sort_by_key-of_name key assignments,
      )
