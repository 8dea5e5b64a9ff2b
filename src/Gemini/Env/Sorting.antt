-- ===== src/Gemini/Env/Sorting.antt =====
-- The order in which assignments are rendered (src/gemini/env.rs).
use cc_switch_core.Base.{
  nat_eq, list_eq, option_eq, string_eq, list_beq_iff, ◌≡◌, refl, sym, ap, subst, ◌∙◌, inl, inr,
  true, false, List, [], ◌∷◌, arith, ◌==◌, if◌then◌else◌, All, Bool-cases, All-mono,
}
use cc_switch_core.Text.{Text}
use cc_switch_core.Gemini.Env.{precedes, insert, sort_by_key}

precedes_asym : (s t : Text) → precedes s t ≡ true → precedes t s ≡ false
unfolding precedes
precedes_asym s [] h = cc h
precedes_asym [] (d ∷ t) h = refl
precedes_asym (c ∷ s) (d ∷ t) h = let ih = precedes_asym s t in ground (arith, ih, h)

precedes_irrefl : (s : Text) → precedes s s ≡ false
unfolding precedes
precedes_irrefl [] = refl
precedes_irrefl (c ∷ s) = let ih = precedes_irrefl s in ground (arith, ih)

-- What does not precede a name does not precede those before it.
precedes_trans : (s t u : Text) → precedes s t ≡ false → precedes t u ≡ false → precedes s u ≡ false
unfolding precedes
precedes_trans s t [] h k = refl
precedes_trans s [] (e ∷ u) h k = cc k
precedes_trans [] (d ∷ t) (e ∷ u) h k = cc h
precedes_trans (c ∷ s) (d ∷ t) (e ∷ u) h k =
    let ih = precedes_trans s t u in ground (arith, ih, h, k)

abbrev pub NotBefore : Text × Text → List (Text × Text) → Type 0
NotBefore a = All λ b. precedes b.0 a.0 ≡ false

-- No assignment's name precedes that of one before it.
abbrev pub IsInOrder : List (Text × Text) → Type 0
IsInOrder [] = Unit
IsInOrder (a ∷ l) = NotBefore a l × IsInOrder l

-- The assignments of one name.
abbrev pub of_name : Text → List (Text × Text) → List (Text × Text)
of_name key [] = []
of_name key (a ∷ l) = if a.0 == key then a ∷ of_name key l else of_name key l

pub insert-All :
    (P : Text × Text → Type 0) (a : Text × Text) (bs : List (Text × Text))
    → P a
    → All P bs
    → All P (insert a bs)
unfolding insert
insert-All P a [] h hs = (h, tt)
insert-All P a (b ∷ bs) h (k, ks) = elim (Bool-cases (precedes b.0 a.0)) [
  | inl e ↦ rw (e, insert) (k, insert-All P a bs h ks)
  | inr e ↦ rw (e, insert) (h, (k, ks))
]

pub sort_by_key-All :
    (P : Text × Text → Type 0) (l : List (Text × Text)) → All P l → All P (sort_by_key l)
unfolding sort_by_key
sort_by_key-All P [] h = tt
sort_by_key-All P (a ∷ l) (h, hs) = insert-All P a (sort_by_key l) h (sort_by_key-All P l hs)

insert-IsInOrder :
    (a : Text × Text) (bs : List (Text × Text)) → IsInOrder bs → IsInOrder (insert a bs)
unfolding insert
insert-IsInOrder a [] h = (tt, tt)
insert-IsInOrder a (b ∷ bs) (first, rest) = elim (Bool-cases (precedes b.0 a.0)) [
  | inl e ↦
      rw (e, insert)
        (
          insert-All (λ c. precedes c.0 b.0 ≡ false) a bs (precedes_asym b.0 a.0 e) first,
          insert-IsInOrder a bs rest,
        )
  | inr e ↦
      rw (e, insert)
        (
          (
            e,
            All-mono (λ c. precedes c.0 b.0 ≡ false) (λ c. precedes c.0 a.0 ≡ false) bs
                (λ c h. precedes_trans c.0 b.0 a.0 h e) first,
          ),
          (first, rest),
        )
]

pub sort_by_key-IsInOrder : (l : List (Text × Text)) → IsInOrder (sort_by_key l)
unfolding sort_by_key
sort_by_key-IsInOrder [] = tt
sort_by_key-IsInOrder (a ∷ l) = insert-IsInOrder a (sort_by_key l) (sort_by_key-IsInOrder l)

-- Two assignments of one name are not swapped.
not_swapped :
    (key : Text) (a b : Text × Text)
    → precedes b.0 a.0 ≡ true
    → (a.0 == key) ≡ true
    → (b.0 == key) ≡ false
not_swapped key a b before same = elim (Bool-cases (b.0 == key)) [
  | inr other ↦ other
  | inl twice ↦
      let e : b.0 ≡ a.0 = (list_beq_iff b.0 key).0 twice ∙ sym ((list_beq_iff a.0 key).0 same) in
      cc (precedes_irrefl a.0, subst (λ s. precedes s a.0 ≡ true) e before)
]

insert-of_name :
    (key : Text) (a : Text × Text) (bs : List (Text × Text))
    → of_name key (insert a bs) ≡ of_name key (a ∷ bs)
unfolding insert
insert-of_name key a [] = refl
insert-of_name key a (b ∷ bs) = elim (Bool-cases (precedes b.0 a.0)) [
  | inr e ↦ rw (e, insert) refl
  | inl e ↦ elim (Bool-cases (a.0 == key)) [
    | inl same ↦ rw (e, insert, not_swapped key a b e same) (insert-of_name key a bs ∙ rw same refl)
    | inr other ↦
        let ih : of_name key (insert a bs) ≡ of_name key bs =
          insert-of_name key a bs ∙ rw other refl in
        rw (e, insert, other, ih) refl
  ]
]

-- The assignments of one name stay as they are, in their order.
pub sort_by_key-of_name :
    (key : Text) (l : List (Text × Text)) → of_name key (sort_by_key l) ≡ of_name key l
unfolding sort_by_key
sort_by_key-of_name key [] = refl
sort_by_key-of_name key (a ∷ l) =
    insert-of_name key a (sort_by_key l)
    ∙ ap (λ rest. if a.0 == key then a ∷ rest else rest) (sort_by_key-of_name key l)
