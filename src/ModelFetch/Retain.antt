-- ===== src/ModelFetch/Retain.antt =====
-- Laws of `retain_new` (src/model_fetch.rs).
use cc_switch_core.Base.{
  nat_eq, list_eq, option_eq, string_eq, beq_refl, ◌≡◌, refl, ◌∙◌, inl, inr, Bool, true, false, not,
  ◌&&◌, ◌||◌, List, [], ◌∷◌, arith, ◌==◌, All, Bool-cases,
}
use cc_switch_core.Text.{Text}
use cc_switch_core.Base.{contains, Distinct}
use cc_switch_core.ModelFetch.{retain_new}

retain_new-contains_step :
    (seen us : List Text) (x u : Text)
    → (contains (retain_new seen us) u ≡ (contains us u && not (contains seen u)))
    → (contains (retain_new (x ∷ seen) us) u ≡ (contains us u && not (contains (x ∷ seen) u)))
    → contains (retain_new seen (x ∷ us)) u ≡ (contains (x ∷ us) u && not (contains seen u))
unfolding retain_new
retain_new-contains_step seen us x u old new = elim (Bool-cases (contains seen x)) [
  | inl was ↦ elim (Bool-cases (x == u)) [
    | inl e ↦
        let su = rw ((list_eq.eqb_iff x u).0 e) at was in
        rw (was, retain_new) (ground (arith, old, e, su))
    | inr ne ↦ rw (was, retain_new) (ground (arith, old, ne))
  ]
  | inr fresh ↦ elim (Bool-cases (x == u)) [
    | inl e ↦
        let su = rw ((list_eq.eqb_iff x u).0 e) at fresh in
        rw (fresh, retain_new) (ground (arith, e, su))
    | inr ne ↦ rw (fresh, retain_new) (ground (arith, new, ne))
  ]
]

-- What is kept are the texts that were not seen.
pub retain_new-contains :
    (seen us : List Text) (u : Text)
    → contains (retain_new seen us) u ≡ (contains us u && not (contains seen u))
unfolding retain_new
retain_new-contains seen [] u = refl
retain_new-contains seen (x ∷ us) u =
    retain_new-contains_step seen us x u (retain_new-contains seen us u)
      (retain_new-contains (x ∷ seen) us u)

and_not_self : (b c d : Bool) → b ≡ true → (c && not (b || d)) ≡ false
and_not_self true c d h = ground arith
and_not_self false c d h = cc

pub retain_new-Distinct : (seen us : List Text) → Distinct (retain_new seen us)
unfolding retain_new
retain_new-Distinct seen [] = tt
retain_new-Distinct seen (x ∷ us) = elim (Bool-cases (contains seen x)) [
  | inl was ↦ rw (was, retain_new) (retain_new-Distinct seen us)
  | inr fresh ↦
      rw (fresh, retain_new)
        (
          retain_new-contains (x ∷ seen) us x ∙ and_not_self (x == x) _ _ (beq_refl x),
          retain_new-Distinct (x ∷ seen) us,
        )
]

pub retain_new-All :
    (P : Text → Type 0) (seen us : List Text) → All P us → All P (retain_new seen us)
unfolding retain_new
retain_new-All P seen [] h = tt
retain_new-All P seen (x ∷ us) h = elim (Bool-cases (contains seen x)) [
  | inl was ↦ rw (was, retain_new) (retain_new-All P seen us h.1)
  | inr fresh ↦ rw (fresh, retain_new) (h.0, retain_new-All P (x ∷ seen) us h.1)
]
