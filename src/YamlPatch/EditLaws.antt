-- ===== src/YamlPatch/EditLaws.antt =====
-- What an edit of src/yaml_patch.rs keeps.
use cc_switch_core.Base.{
  nat_eq, list_eq, option_eq, string_eq, ℕ, zero, suc, ◌+◌, ◌≤◌, ◌≡◌, refl, sym, ap, ◌∙◌, ◌⊎◌, inl,
  inr, Bool, not, ◌&&◌, ◌||◌, Option, none, some, List, [], ◌∷◌, ◌++◌, append-nil, append_assoc,
  arith, ok, ◌==◌, if◌then◌else◌, length, All, Bool-cases, Option-cases, ltb, nat_beq, All-mono,
}
use cc_switch_core.Base.{drop, take, slice, >>=-eq-ok, ok-injective, get_elem?, some-injective}
use cc_switch_core.Base.{drop, take, slice, >>=-eq-ok, ok-injective, get_elem?, some-injective}
use cc_switch_core.Text.{Text, trim, codes}
use cc_switch_core.Text.Search.{strip_prefix}
use cc_switch_core.YamlPatch.{SerdeYaml}
use cc_switch_core.YamlPatch.Lines.{
  LineSpan, line_spans, line_end, indentation, is_blank, preferred_line_ending, plain_of,
}
use cc_switch_core.YamlPatch.Section.{section_range, uses_flow_root, document_end_offset}
use cc_switch_core.YamlPatch.Render.{
  ends_line, replace_range, insert_at, render_section, render_field,
}
use cc_switch_core.YamlPatch.Edit.{
  is_indentless_sequence_item, field_end, last_line_end, put_rendered, replace_in_body,
  replace_in_section, find_field, replace_top_level_string_sequence, indentations, number_or,
  is_null, minimum,
}
use cc_switch_core.YamlPatch.LineLaws.{
  take-drop, concat, cut_inside, Within, line_spans-Within, line_end-line,
}
use cc_switch_core.YamlPatch.SectionLaws.{section_range-SectionParts}

-- The text is the other with something else between two positions.
abbrev pub IsKeptOutside : Text → ℕ → ℕ → Text → Type 0
IsKeptOutside raw start end output =
    (middle : Text) × (output ≡ take start raw ++ middle ++ drop end raw)

replace_range-IsKeptOutside :
    (raw rendered line_ending : Text) (start from to end : ℕ)
    → start ≤ from
    → to ≤ end
    → IsKeptOutside raw start end (replace_range raw from to rendered line_ending)
unfolding replace_range
replace_range-IsKeptOutside raw rendered line_ending start from to end low high =
    cut_inside raw _ start from to end low high

insert_at-IsKeptOutside :
    (raw rendered line_ending : Text) (start at end : ℕ)
    → start ≤ at
    → at ≤ end
    → IsKeptOutside raw start end (insert_at raw at rendered line_ending)
unfolding insert_at
insert_at-IsKeptOutside raw rendered line_ending start at end low high =
    let separator = if ltb 0 at && not (ends_line (take at raw)) then line_ending else [] in
    let (middle, e) = cut_inside raw (separator ++ rendered) start at at end low high in
    (middle, simp append_assoc refl ∙ e)

module _ (low high : ℕ) where
  All-get_elem? :
      (lines : List LineSpan) (index : ℕ) (line : LineSpan)
      → All (Within low high) lines
      → get_elem? lines index ≡ some line
      → Within low high line × All (Within low high) (drop (suc index) lines)
  All-get_elem? [] index line h e = cc e
  All-get_elem? (first ∷ lines) zero line h e = rw (← some-injective e) (h.0, h.1)
  All-get_elem? (first ∷ lines) (suc index) line h e = All-get_elem? lines index line h.1 e

  field_end-bounds :
      (child_indent end result : ℕ) (lines : List LineSpan)
      → All (Within low high) lines
      → end ≤ high
      → field_end child_indent end lines ≡ ok result
      → result ≤ high
  unfolding field_end
  field_end-bounds child_indent end result [] h e r = omega (arith, ok-injective r, e)
  field_end-bounds child_indent end result (line ∷ lines) h e r =
      elim (Bool-cases (is_blank line.plain)) [
        | inl blank ↦
            field_end-bounds child_indent end result lines h.1 e (rw (blank, field_end) at r)
        | inr inked ↦
            let (indent, i, rest) =
              >>=-eq-ok (indentation line.plain) _ (rw (inked, field_end) at r) in
            elim (Bool-cases (
              ltb indent child_indent
              || (nat_beq indent child_indent
                  && not (is_indentless_sequence_item (drop indent line.plain))))) [
                    | inl stop ↦ omega (arith, ok-injective (rw stop at rest), e)
                    | inr on ↦
                        field_end-bounds child_indent line.end result lines h.1 (omega (arith, h.0))
                          (rw (on, field_end) at rest)
                  ]
      ]

  last_line_end-bounds :
      (default : ℕ) (lines : List LineSpan)
      → All (Within low high) lines
      → low ≤ default
      → default ≤ high
      → (low ≤ last_line_end default lines) × (last_line_end default lines ≤ high)
  unfolding last_line_end
  last_line_end-bounds default [] h l u = (l, u)
  last_line_end-bounds default (line ∷ lines) h l u = elim (Bool-cases (is_blank line.plain)) [
    | inl blank ↦ rw blank (last_line_end-bounds default lines h.1 l u)
    | inr inked ↦
        rw inked (last_line_end-bounds line.end lines h.1 (omega (arith, h.0)) (omega (arith, h.0)))
  ]

  put_rendered-IsKeptOutside :
      (raw rendered line_ending output : Text) (body_start child_indent : ℕ) (lines : List LineSpan)
      (field_index : Option ℕ)
      → All (Within low high) lines
      → low ≤ body_start
      → body_start ≤ high
      → put_rendered raw body_start child_indent lines field_index rendered line_ending ≡ ok output
      → IsKeptOutside raw low high output
  unfolding put_rendered
  put_rendered-IsKeptOutside raw rendered line_ending output body_start child_indent lines none h l
        u r =
      let (bl, bu) = last_line_end-bounds body_start lines h l u in
      rw (← ok-injective r) (
        insert_at-IsKeptOutside raw rendered line_ending low (last_line_end body_start lines) high
          bl bu)
  put_rendered-IsKeptOutside raw rendered line_ending output body_start child_indent lines
        (some index) h l u r =
      elim (Option-cases (get_elem? lines index)) [
        | inl missing ↦
            let (middle, kept) =
              cut_inside raw [] low low low high (omega arith) (omega (arith, l, u)) in
            (
              middle,
              sym (ok-injective (rw (missing, put_rendered) at r))
                  ∙ sym (take-drop low raw)
                  ∙ ap (λ s. s ++ drop low raw) (sym (append-nil (take low raw)))
                  ∙ kept,
            )
        | inr (line, e) ↦
            let (here, later) = All-get_elem? lines index line h e in
            let (end, found, out) =
              >>=-eq-ok (field_end child_indent line.end (drop (suc index) lines)) _
                (rw (e, put_rendered) at r) in
            let bound =
              field_end-bounds child_indent line.end end _ later (omega (arith, here)) found in
            rw (← ok-injective out) (
              replace_range-IsKeptOutside raw rendered line_ending low line.start end high here.0
                bound)
      ]

module _ (serde : SerdeYaml) (raw section_key field_key : Text) (values : List Text)
    (output : Text) where
  replace_in_body-IsKeptOutside :
      (start body_start end : ℕ)
      → start ≤ body_start
      → body_start ≤ end
      → replace_in_body serde raw section_key field_key values body_start end ≡ ok output
      → IsKeptOutside raw start end output
  unfolding replace_in_body
  replace_in_body-IsKeptOutside start body_start end l u r =
      let lines = line_spans raw body_start end in
      let (indents, i, r1) = >>=-eq-ok (indentations lines) _ r in
      let child_indent = number_or 2 (minimum indents) in
      elim (Bool-cases (nat_beq child_indent 0)) [
        | inl zero_indent ↦ cc (rw zero_indent at r1)
        | inr indented ↦
            let (field_index, f, r2) =
              >>=-eq-ok (find_field serde section_key field_key child_indent none 0 lines) _
                (rw indented at r1) in
            let (rendered, d, r3) =
              >>=-eq-ok
                (render_field serde child_indent field_key values (preferred_line_ending raw)) _
                r2 in
            put_rendered-IsKeptOutside start end raw rendered (preferred_line_ending raw) output
              body_start child_indent lines field_index
              (All-mono (Within body_start end) (Within start end) lines
                (λ line w. (omega (arith, l, w), w.1, w.2))
                (line_spans-Within raw body_start end u))
              l u r3
      ]

  replace_in_section-IsKeptOutside :
      (start end : ℕ)
      → start ≤ line_end raw start
      → line_end raw start ≤ end
      → replace_in_section serde raw section_key field_key values start end ≡ ok output
      → IsKeptOutside raw start end output
  unfolding replace_in_section
  replace_in_section-IsKeptOutside start end l u r =
      let header_end = line_end raw start in
      let header = plain_of (slice start header_end raw) in
      elim (Option-cases (strip_prefix (section_key ++ codes ":") header)) [
        | inl ambiguous ↦ cc (rw (ambiguous, replace_in_section) at r)
        | inr (rest, e) ↦
            let r1 = rw (e, replace_in_section) at r in
            elim (Bool-cases (is_null (trim rest))) [
              | inl null ↦
                  let (rendered, d, out) =
                    >>=-eq-ok
                      (render_section serde section_key field_key values
                        (preferred_line_ending raw))
                      _ (rw null at r1) in
                  rw (← ok-injective out) (
                    replace_range-IsKeptOutside raw rendered (preferred_line_ending raw) start start
                      header_end end (omega arith) u)
              | inr mapping ↦ elim (Bool-cases (trim rest == [])) [
                | inl block ↦
                    replace_in_body-IsKeptOutside start header_end end l u
                      (rw (mapping, block) at r1)
                | inr inline ↦ cc (rw (mapping, inline) at r1)
              ]
            ]
      ]

  -- An edit keeps the text before and after the section, or, if the text has no such section, all
  -- of it before and after one position.
  pub replace_top_level_string_sequence-IsKeptOutside :
      (section_existed : Bool)
      → replace_top_level_string_sequence serde raw section_key field_key values section_existed
        ≡ ok output
      → ((start : ℕ) × (end : ℕ) × (section_range raw section_key ≡ some (start, end))
          × IsKeptOutside raw start end output)
        ⊎ ((section_range raw section_key ≡ none)
            × (let at = number_or (length raw) (document_end_offset raw) in
                IsKeptOutside raw at at output))
  unfolding replace_top_level_string_sequence
  replace_top_level_string_sequence-IsKeptOutside section_existed r =
      elim (Option-cases (section_range raw section_key)) [
        | inr ((start, end), e) ↦
            let parts = section_range-SectionParts raw section_key start end e in
            let header_end : line_end raw start ≡ start + length parts.header =
              (let at : start ≡ length (concat parts.before) = omega (arith, parts.start_size) in
                ap (line_end raw) at
                ∙ line_end-line raw parts.before (parts.body ++ parts.after) parts.header
                    parts.parts
                ∙ ap (λ n. n + length parts.header) (sym at)) in
            inl (
              start,
              end,
              e,
              replace_in_section-IsKeptOutside start end (omega (arith, header_end))
                  (omega (arith, header_end, parts.end_size))
                  (rw (e, replace_top_level_string_sequence) at r),
            )
        | inl e ↦
            let r1 = rw (e, replace_top_level_string_sequence) at r in
            elim (Bool-cases (section_existed || uses_flow_root raw)) [
              | inl unsafe ↦ cc (rw unsafe at r1)
              | inr safe ↦
                  let at = number_or (length raw) (document_end_offset raw) in
                  let (rendered, d, out) =
                    >>=-eq-ok
                      (render_section serde section_key field_key values
                        (preferred_line_ending raw))
                      _ (rw safe at r1) in
                  inr (
                    e,
                    rw (← ok-injective out) (
                        insert_at-IsKeptOutside raw rendered (preferred_line_ending raw) at at at
                          (omega arith) (omega arith)),
                  )
            ]
      ]
