-- ===== src/JsonPatch/CompositeLaws.antt =====
-- `composite_end` on a container that is printed (src/mcp/json_patch.rs), and `value_end`.
use cc_switch_core.Base.{
  nat_eq, list_eq, option_eq, string_eq, ℕ, suc, ◌+◌, ◌-◌, ◌≤◌, ◌≡◌, refl, ap, subst, ◌∙◌, Bool,
  true, false, ◌||◌, List, [], ◌∷◌, ◌++◌, append_assoc, arith, ok, length, nat_beq,
}
use cc_switch_core.Base.{length-append, length-drop-le}
use cc_switch_core.Text.{Bytes}
use cc_switch_core.JsonPatch.Scan.{
  CompositeStep, composite_step, composite_from, composite_end, closing, pop_closing,
}
use cc_switch_core.JsonPatch.Syntax.{Item, Inside, print_inside, print_string, is_plain}
use cc_switch_core.JsonPatch.Cursor.{At, At-suc, At-advance}
use cc_switch_core.JsonPatch.ScanLaws.{string_end-print_string}

abbrev is_closing : ℕ → Bool
is_closing b = nat_beq b b'}' || nat_beq b b']'

module _ (bytes : Bytes) (stack : List ℕ) (top cursor : ℕ) (rest : Bytes) where
  composite_step-plain :
      (b : ℕ)
      → is_closing top ≡ true
      → is_plain b ≡ true
      → At bytes cursor (b ∷ rest)
      → composite_step bytes (top ∷ stack) cursor
        ≡ ok (CompositeStep.within (top ∷ stack) (suc cursor))
  unfolding composite_step
  composite_step-plain b t p h =
      let quote : nat_beq b b'"' ≡ false = ground arith in
      let brace : nat_beq b b'{' ≡ false = ground arith in
      let bracket : nat_beq b b'[' ≡ false = ground arith in
      let other : nat_beq top b ≡ false = ground arith in
      rw (h, quote, brace, bracket, other, composite_step) refl

  composite_step-string :
      (items : List Item)
      → At bytes cursor (print_string items ++ rest)
      → composite_step bytes (top ∷ stack) cursor
        ≡ ok (CompositeStep.within (top ∷ stack) (cursor + length (print_string items)))
  unfolding composite_step
  composite_step-string items h =
      rw (h, string_end-print_string bytes cursor items rest h, composite_step) refl

  composite_step-brace :
      At bytes cursor (b'{' ∷ rest)
      → composite_step bytes (top ∷ stack) cursor
        ≡ ok (CompositeStep.within (b'}' ∷ top ∷ stack) (suc cursor))
  unfolding composite_step
  composite_step-brace h = rw (h, composite_step) refl

  composite_step-bracket :
      At bytes cursor (b'[' ∷ rest)
      → composite_step bytes (top ∷ stack) cursor
        ≡ ok (CompositeStep.within (b']' ∷ top ∷ stack) (suc cursor))
  unfolding composite_step
  composite_step-bracket h = rw (h, composite_step) refl

  composite_step-close :
      is_closing top ≡ true
      → At bytes cursor (top ∷ rest)
      → composite_step bytes (top ∷ stack) cursor ≡ ok (pop_closing stack (suc cursor))
  unfolding composite_step
  composite_step-close t h =
      let quote : nat_beq top b'"' ≡ false = ground arith in
      let brace : nat_beq top b'{' ≡ false = ground arith in
      let bracket : nat_beq top b'[' ≡ false = ground arith in
      let same : nat_beq top top ≡ true = ground arith in
      rw (h, quote, brace, bracket, same, composite_step) refl

-- The fuel with which the loop has this left after what is inside.
abbrev rounds : Inside → ℕ → ℕ
rounds Inside.nothing fuel = fuel
rounds (Inside.plain b p after) fuel = suc (rounds after fuel)
rounds (Inside.string items after) fuel = suc (rounds after fuel)
rounds (Inside.braces inner after) fuel = suc (rounds inner (suc (rounds after fuel)))
rounds (Inside.brackets inner after) fuel = suc (rounds inner (suc (rounds after fuel)))

rounds-add : (inside : Inside) (fuel : ℕ) → rounds inside fuel ≡ rounds inside 0 + fuel
rounds-add Inside.nothing fuel = omega arith
rounds-add (Inside.plain b p after) fuel = omega (arith, rounds-add after fuel)
rounds-add (Inside.string items after) fuel = omega (arith, rounds-add after fuel)
rounds-add (Inside.braces inner after) fuel = omega (
  arith,
  rounds-add inner (suc (rounds after fuel)),
  rounds-add inner (suc (rounds after 0)),
  rounds-add after fuel,
)
rounds-add (Inside.brackets inner after) fuel = omega (
  arith,
  rounds-add inner (suc (rounds after fuel)),
  rounds-add inner (suc (rounds after 0)),
  rounds-add after fuel,
)

-- Every round reads a byte at least.
rounds-le : (inside : Inside) → rounds inside 0 ≤ length (print_inside inside)
rounds-le Inside.nothing = omega arith
rounds-le (Inside.plain b p after) = omega (arith, rounds-le after)
rounds-le (Inside.string items after) =
    omega (arith, rounds-le after, length-append (print_string items) (print_inside after))
rounds-le (Inside.braces inner after) = omega (
  arith,
  rounds-le inner,
  rounds-le after,
  rounds-add inner (suc (rounds after 0)),
  length-append (print_inside inner) (b'}' ∷ print_inside after),
)
rounds-le (Inside.brackets inner after) = omega (
  arith,
  rounds-le inner,
  rounds-le after,
  rounds-add inner (suc (rounds after 0)),
  length-append (print_inside inner) (b']' ∷ print_inside after),
)

module _ (bytes : Bytes) where
  -- A container inside: opened, read by the rounds inside of it, closed, and what follows it read.
  composite_from-container :
      (inner after : Inside) (stack : List ℕ) (top close fuel cursor : ℕ) (rest : Bytes)
      → is_closing close ≡ true
      → composite_step bytes (top ∷ stack) cursor
        ≡ ok (CompositeStep.within (close ∷ top ∷ stack) (suc cursor))
      → At bytes (suc cursor) (print_inside inner ++ close ∷ (print_inside after ++ rest))
      → ((left : ℕ)
          → composite_from (rounds inner left) bytes (close ∷ top ∷ stack) (suc cursor)
            ≡ composite_from left bytes
                (close ∷ top ∷ stack)
                (suc cursor + length (print_inside inner)))
      → ((next : ℕ)
          → At bytes next (print_inside after ++ rest)
          → composite_from (rounds after fuel) bytes (top ∷ stack) next
            ≡ composite_from fuel bytes (top ∷ stack) (next + length (print_inside after)))
      → composite_from (suc (rounds inner (suc (rounds after fuel)))) bytes (top ∷ stack) cursor
        ≡ composite_from fuel bytes
            (top ∷ stack)
            (cursor + suc (length (print_inside inner ++ close ∷ print_inside after)))
  unfolding composite_from
  composite_from-container inner after stack top close fuel cursor rest t opened h inside follow =
      let end = suc cursor + length (print_inside inner) in
      let at_end = At-advance bytes (suc cursor) (print_inside inner) _ h in
      rw (opened, composite_from)
        (inside (suc (rounds after fuel))
          ∙ rw (composite_step-close bytes (top ∷ stack) close end _ t at_end, composite_from)
              (follow (suc end) (At-suc bytes end close _ at_end)
                ∙ ap (λ n. composite_from fuel bytes (top ∷ stack) n)
                    (omega
                      (arith, length-append (print_inside inner) (close ∷ print_inside after)))))

  -- The loop reads what is inside of a container and comes back to the same stack.
  composite_from-print_inside :
      (inside : Inside) (stack : List ℕ) (top fuel cursor : ℕ) (rest : Bytes)
      → is_closing top ≡ true
      → At bytes cursor (print_inside inside ++ rest)
      → composite_from (rounds inside fuel) bytes (top ∷ stack) cursor
        ≡ composite_from fuel bytes (top ∷ stack) (cursor + length (print_inside inside))
  unfolding composite_from
  composite_from-print_inside Inside.nothing stack top fuel cursor rest t h =
      ap (λ n. composite_from fuel bytes (top ∷ stack) n) (omega arith)
  composite_from-print_inside (Inside.plain b p after) stack top fuel cursor rest t h =
      rw (composite_step-plain bytes stack top cursor _ b t p h, composite_from)
        (composite_from-print_inside after stack top fuel (suc cursor) rest t
            (At-suc bytes cursor b _ h)
          ∙ ap (λ n. composite_from fuel bytes (top ∷ stack) n) (omega arith))
  composite_from-print_inside (Inside.string items after) stack top fuel cursor rest t h =
      let here = h ∙ append_assoc (print_string items) (print_inside after) rest in
      rw (composite_step-string bytes stack top cursor _ items here, composite_from)
        (composite_from-print_inside after stack top fuel (cursor + length (print_string items))
            rest t (At-advance bytes cursor (print_string items) _ here)
          ∙ ap (λ n. composite_from fuel bytes (top ∷ stack) n)
              (omega (arith, length-append (print_string items) (print_inside after))))
  composite_from-print_inside (Inside.braces inner after) stack top fuel cursor rest t h =
      let here = At-suc bytes cursor b'{' _ h ∙ append_assoc (print_inside inner) _ rest in
      composite_from-container inner after stack top b'}' fuel cursor rest refl
        (composite_step-brace bytes stack top cursor _ h) here
        (λ left. composite_from-print_inside inner (top ∷ stack) b'}' left (suc cursor) _ refl here)
        (λ next k. composite_from-print_inside after stack top fuel next rest t k)
  composite_from-print_inside (Inside.brackets inner after) stack top fuel cursor rest t h =
      let here = At-suc bytes cursor b'[' _ h ∙ append_assoc (print_inside inner) _ rest in
      composite_from-container inner after stack top b']' fuel cursor rest refl
        (composite_step-bracket bytes stack top cursor _ h) here
        (λ left. composite_from-print_inside inner (top ∷ stack) b']' left (suc cursor) _ refl here)
        (λ next k. composite_from-print_inside after stack top fuel next rest t k)

  enough_rounds :
      (inner : Inside) (cursor : ℕ) (rest : Bytes)
      → At bytes cursor (print_inside inner ++ rest)
      → (left : ℕ) × (suc (length bytes) ≡ rounds inner (suc left))
  enough_rounds inner cursor rest h =
      let left = length bytes - rounds inner 0 in
      let shorter : length (print_inside inner ++ rest) ≤ length bytes =
        subst (λ s. length s ≤ length bytes) h (length-drop-le cursor bytes) in
      (
        left,
        omega (
          arith,
          rounds-le inner,
          rounds-add inner (suc left),
          shorter,
          length-append (print_inside inner) rest,
        ),
      )

  pub composite_end-print_inside :
      (first : ℕ) (inner : Inside) (cursor : ℕ) (rest : Bytes)
      → is_closing (closing first) ≡ true
      → At bytes (suc cursor) (print_inside inner ++ closing first ∷ rest)
      → composite_end first bytes cursor ≡ ok (suc (suc (cursor + length (print_inside inner))))
  unfolding composite_end
  composite_end-print_inside first inner cursor rest t h =
      let (left, enough) = enough_rounds inner (suc cursor) _ h in
      let end = suc cursor + length (print_inside inner) in
      let at_end = At-advance bytes (suc cursor) (print_inside inner) _ h in
      rw enough (
        composite_from-print_inside inner [] (closing first) (suc left) (suc cursor) _ t h
        ∙ rw (composite_step-close bytes [] (closing first) end _ t at_end, composite_from)
            (ap ok (omega arith)))
