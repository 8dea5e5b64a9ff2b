-- ===== src/YamlPatch/SectionLaws.antt =====
-- What `section_range` finds (src/yaml_patch.rs), told of the lines of the text.
use cc_switch_core.Base.{
  nat_eq, list_eq, option_eq, string_eq, ℕ, ◌+◌, ◌≡◌, refl, ap, inl, inr, true, false, Option, none,
  some, List, [], ◌∷◌, ◌++◌, arith, length, All, Bool-cases,
}
use cc_switch_core.Base.{length-append, some-injective}
use cc_switch_core.Base.{length-append, some-injective}
use cc_switch_core.Text.{Text}
use cc_switch_core.YamlPatch.Lines.{split_inclusive}
use cc_switch_core.YamlPatch.Section.{section_from, is_header, ends_section, section_range}
use cc_switch_core.YamlPatch.LineLaws.{concat, concat-split_inclusive}

-- The line after the section, if there is one, ends it.
abbrev pub EndsSection : List Text → Type 0
EndsSection [] = Unit
EndsSection (line ∷ lines) = ends_section line ≡ true

-- The lines from a position on, parted: those before the section, of which none is its header, the
-- header, the lines of the section, of which none ends it, and what is left.
pub record SectionParts (key : Text) (lines : List Text) (from start end : ℕ) : Type 0 where
  pub before : List Text
  pub header : Text
  pub body : List Text
  pub after : List Text
  pub parts : lines ≡ before ++ header ∷ (body ++ after)
  pub no_header : All (λ line. is_header key line ≡ false) before
  pub header_found : is_header key header ≡ true
  pub goes_on : All (λ line. ends_section line ≡ false) body
  pub ends : EndsSection after
  pub start_size : start ≡ from + length (concat before)
  pub end_size : end ≡ start + length header + length (concat body)

pair_first : {a b c d : ℕ} → Path (Option (ℕ × ℕ)) (some (a, b)) (some (c, d)) → a ≡ c
pair_first h = ap (λ p. p.0) (some-injective h)

pair_second : {a b c d : ℕ} → Path (Option (ℕ × ℕ)) (some (a, b)) (some (c, d)) → b ≡ d
pair_second h = ap (λ p. p.1) (some-injective h)

-- The lines of the section that are left to read, from a position
record BodyParts (lines : List Text) (start from total first end : ℕ) : Type 0 where
  pub body : List Text
  pub after : List Text
  pub parts : lines ≡ body ++ after
  pub goes_on : All (λ line. ends_section line ≡ false) body
  pub ends : EndsSection after
  pub same_start : start ≡ first
  pub end_size : end ≡ from + length (concat body)

section_from-BodyParts :
    (key : Text) (start from total first end : ℕ) (lines : List Text)
    → total ≡ from + length (concat lines)
    → section_from key (some start) from total lines ≡ some (first, end)
    → BodyParts lines start from total first end
unfolding section_from
section_from-BodyParts key start from total first end [] t h = record {
  body = [];
  after = [];
  parts = refl;
  goes_on = tt;
  ends = tt;
  same_start = pair_first h;
  end_size = omega (arith, t, pair_second h);
}
section_from-BodyParts key start from total first end (line ∷ lines) t h =
    elim (Bool-cases (ends_section line)) [
      | inl ends ↦
          let h' = rw (ends, section_from) at h in
          record {
            body = [];
            after = line ∷ lines;
            parts = refl;
            goes_on = tt;
            ends = ends;
            same_start = pair_first h';
            end_size = omega (arith, pair_second h');
          }
      | inr on ↦
          let h' = rw (on, section_from) at h in
          let rest =
            section_from-BodyParts key start (from + length line) total first end lines
              (omega (arith, t, length-append line (concat lines))) h' in
          record {
            body = line ∷ rest.body;
            after = rest.after;
            parts = ap (λ l. line ∷ l) rest.parts;
            goes_on = (on, rest.goes_on);
            ends = rest.ends;
            same_start = rest.same_start;
            end_size = omega (arith, rest.end_size, length-append line (concat rest.body));
          }
    ]

section_from-SectionParts :
    (key : Text) (from total first end : ℕ) (lines : List Text)
    → total ≡ from + length (concat lines)
    → section_from key none from total lines ≡ some (first, end)
    → SectionParts key lines from first end
unfolding section_from
section_from-SectionParts key from total first end [] t h = cc h
section_from-SectionParts key from total first end (line ∷ lines) t h =
    let size : total ≡ from + length line + length (concat lines) =
      omega (arith, t, length-append line (concat lines)) in
    elim (Bool-cases (is_header key line)) [
      | inl found ↦
          let h' = rw (found, section_from) at h in
          let rest =
            section_from-BodyParts key from (from + length line) total first end lines size h' in
          record {
            before = [];
            header = line;
            body = rest.body;
            after = rest.after;
            parts = ap (λ l. line ∷ l) rest.parts;
            no_header = tt;
            header_found = found;
            goes_on = rest.goes_on;
            ends = rest.ends;
            start_size = omega (arith, rest.same_start);
            end_size = omega (arith, rest.same_start, rest.end_size);
          }
      | inr other ↦
          let h' = rw (other, section_from) at h in
          let rest =
            section_from-SectionParts key (from + length line) total first end lines size h' in
          record {
            before = line ∷ rest.before;
            header = rest.header;
            body = rest.body;
            after = rest.after;
            parts = ap (λ l. line ∷ l) rest.parts;
            no_header = (other, rest.no_header);
            header_found = rest.header_found;
            goes_on = rest.goes_on;
            ends = rest.ends;
            start_size = omega (arith, rest.start_size, length-append line (concat rest.before));
            end_size = rest.end_size;
          }
    ]

-- `section_range` gives where the text's first header of the section starts, and where the first
-- line after it that ends a section does, or the text.
pub section_range-SectionParts :
    (raw key : Text) (start end : ℕ)
    → section_range raw key ≡ some (start, end)
    → SectionParts key (split_inclusive raw) 0 start end
unfolding section_range
section_range-SectionParts raw key start end h =
    section_from-SectionParts key 0 (length raw) start end (split_inclusive raw)
      (rw (concat-split_inclusive raw) (omega arith)) h

section_from-none :
    (key : Text) (from total : ℕ) (lines : List Text)
    → All (λ line. is_header key line ≡ false) lines
    → section_from key none from total lines ≡ none
unfolding section_from
section_from-none key from total [] h = refl
section_from-none key from total (line ∷ lines) h =
    rw (h.0, section_from) (section_from-none key (from + length line) total lines h.1)

-- It gives nothing if no line is a header.
pub section_range-none :
    (raw key : Text)
    → All (λ line. is_header key line ≡ false) (split_inclusive raw)
    → section_range raw key ≡ none
unfolding section_range
section_range-none raw key h = section_from-none key 0 (length raw) (split_inclusive raw) h
