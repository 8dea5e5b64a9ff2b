-- ===== src/Executor/Coalesce.antt =====
-- Laws of `OperationReceipt::try_coalesce_last_write` (src/executor.rs).
use cc_switch_core.Base.{
  nat_eq, list_eq, option_eq, string_eq, ℕ, ◌≤◌, max, ◌≡◌, refl, sym, ap, subst, ◌∙◌, ◌≢◌, inl, inr,
  true, Option, none, some, List, [], ◌∷◌, map, arith, ok, err, Eq, All, Bool-cases,
}
use cc_switch_core.Base.{All-of_map, All-mono}
use cc_switch_core.Executor.Preflight.{Distinct}
use cc_switch_core.Operation.Validation.{WithinLimit}
use cc_switch_core.Text.{Bytes}
use cc_switch_core.Executor.Types.{AppliedWrite, OperationReceipt}
use cc_switch_core.Executor.Recovery.{Apart}
use cc_switch_core.Executor.Receipt.{
  last?, set_last, continues, coalesce_pair, coalesce_writes, try_coalesce_last_write,
}

module _ {Target R : Type 0} (P : R → Option Bytes → Type 0) where
  -- A fact about resources and originals does not see a new last written value.
  abbrev Facts : List (AppliedWrite R Target) → Type 0
  Facts = All λ a. P a.resource a.original

  Facts-set_last :
      (l : List (AppliedWrite R Target)) (previous : AppliedWrite R Target) (new : Option Bytes)
      → last? l ≡ some previous
      → Facts l
      → Facts (set_last l (record previous { written = new }))
  Facts-set_last [] previous new e h = tt
  Facts-set_last (x ∷ []) previous new e h = (
    subst (λ o. elim o as (λ o. Type 0) [ none ↦ Unit | some a ↦ P a.resource a.original ]) e h.0,
    tt,
  )
  Facts-set_last (x ∷ y ∷ l) previous new e h = (h.0, Facts-set_last (y ∷ l) previous new e h.1)

  Facts-of_set_last :
      (l : List (AppliedWrite R Target)) (previous : AppliedWrite R Target) (new : Option Bytes)
      → last? l ≡ some previous
      → Facts (set_last l (record previous { written = new }))
      → Facts l
  Facts-of_set_last [] previous new e h = tt
  Facts-of_set_last (x ∷ []) previous new e h = (
    subst (λ o. elim o as (λ o. Type 0) [ none ↦ Unit | some a ↦ P a.resource a.original ]) (sym e)
        h.0,
    tt,
  )
  Facts-of_set_last (x ∷ y ∷ l) previous new e h =
      (h.0, Facts-of_set_last (y ∷ l) previous new e h.1)

-- What holds of all writes holds of the last.
last-All :
    {Target R : Type 0} (P : AppliedWrite R Target → Type 0) (l : List (AppliedWrite R Target))
    (previous : AppliedWrite R Target)
    → last? l ≡ some previous
    → All P l
    → P previous
last-All P [] previous e h = cc
last-All P (x ∷ []) previous e h =
    subst (λ o. elim o as (λ o. Type 0) [ none ↦ Unit | some a ↦ P a ]) e h.0
last-All P (x ∷ y ∷ l) previous e h = last-All P (y ∷ l) previous e h.1

module _ {Target R : Type 0} ⦃same_target : Eq Target⦄ ⦃same_resource : Eq R⦄
    (receipt followup : OperationReceipt R Target) where
  -- A refused follow-up is handed back as it was, and the receipt is unchanged.
  pub try_coalesce-err :
      (refused : OperationReceipt R Target)
      → (try_coalesce_last_write receipt followup).1 ≡ err refused
      → (refused ≡ followup) × ((try_coalesce_last_write receipt followup).0 ≡ receipt)
  unfolding try_coalesce_last_write
  try_coalesce-err refused h = by_writes followup.applied h
    where
      by_pair :
          (next : AppliedWrite R Target) (o : Option (AppliedWrite R Target))
          → (coalesce_pair receipt followup next o).1 ≡ err refused
          → (refused ≡ followup) × ((coalesce_pair receipt followup next o).0 ≡ receipt)
      by_pair next none k = (cc, refl)
      by_pair next (some previous) k = elim (Bool-cases (continues previous next)) [
        | inl e ↦ ground (arith, e, k)
        | inr e ↦ ground (arith, e, k)
      ]

      by_writes :
          (l : List (AppliedWrite R Target))
          → (coalesce_writes receipt followup l).1 ≡ err refused
          → (refused ≡ followup) × ((coalesce_writes receipt followup l).0 ≡ receipt)
      by_writes [] k = cc
      by_writes (next ∷ []) k = by_pair next (last? receipt.applied) k
      by_writes (next ∷ other ∷ rest) k = (cc, refl)

module _ {Target R : Type 0} ⦃same_target : Eq Target⦄ ⦃same_resource : Eq R⦄ where
  continues_resource :
      (previous next : AppliedWrite R Target)
      → continues previous next ≡ true
      → previous.resource ≡ next.resource
  unfolding continues
  continues_resource previous next h =
      ground (arith, same_resource.eqb_iff previous.resource next.resource)

-- What the rollback of a receipt relies on, to bring back `before` from the documents `now`: the
-- writes are on different resources and account for every document that differs, each document
-- holds what was written to it, and all originals and all that was written are within the receipt's
-- limit.
pub record IsRestorable {Target R : Type 0} (before now : R → Option Bytes)
    (receipt : OperationReceipt R Target) : Type 0 where
  pub distinct : Distinct (map (λ a. a.resource) receipt.applied)
  pub originals : All (λ a. before a.resource ≡ a.original) receipt.applied
  pub others : (q : R) → Apart q receipt.applied → now q ≡ before q
  pub current : All (λ a. now a.resource ≡ a.written) receipt.applied
  pub fits_original :
      All (λ a. WithinLimit receipt.maximum_content_bytes a.original) receipt.applied
  pub fits_written : All (λ a. WithinLimit receipt.maximum_content_bytes a.written) receipt.applied

le_max_left : (m n : ℕ) → m ≤ max m n
le_max_left m n = omega arith

le_max_right : (m n : ℕ) → n ≤ max m n
le_max_right m n = omega arith

WithinLimit-mono : (m n : ℕ) (o : Option Bytes) → m ≤ n → WithinLimit m o → WithinLimit n o
WithinLimit-mono m n none le h = tt
WithinLimit-mono m n (some c) le h = omega (arith, le, h)

module _ {Target R : Type 0} where
  resources-set_last :
      (l : List (AppliedWrite R Target)) (previous : AppliedWrite R Target) (new : Option Bytes)
      → last? l ≡ some previous
      → map (λ a. a.resource) (set_last l (record previous { written = new }))
        ≡ map (λ a. a.resource) l
  resources-set_last [] previous new e = refl
  resources-set_last (x ∷ []) previous new e =
      sym (ap (λ o. elim o as (λ o. List R) [ none ↦ [] | some a ↦ a.resource ∷ [] ]) e)
  resources-set_last (x ∷ y ∷ l) previous new e =
      ap (λ rs. x.resource ∷ rs) (resources-set_last (y ∷ l) previous new e)

  -- What holds of all of the writes but the last, and of the last with its new contents, holds of
  -- the list with the last replaced.
  set_last-All :
      (P Q : AppliedWrite R Target → Type 0) (l : List (AppliedWrite R Target))
      (previous : AppliedWrite R Target) (new : Option Bytes)
      → last? l ≡ some previous
      → Distinct (map (λ a. a.resource) l)
      → ((a : AppliedWrite R Target) → previous.resource ≢ a.resource → P a → Q a)
      → Q (record previous { written = new })
      → All P l
      → All Q (set_last l (record previous { written = new }))
  set_last-All P Q [] previous new e d step q h = tt
  set_last-All P Q (x ∷ []) previous new e d step q h = (q, tt)
  set_last-All P Q (x ∷ y ∷ l) previous new e d step q h = (
    step x
        (λ same.
          last-All (λ a. x.resource ≢ a.resource) (y ∷ l) previous e
            (All-of_map (λ r. x.resource ≢ r) (λ a. a.resource) (y ∷ l) d.0) (sym same))
        h.0,
    set_last-All P Q (y ∷ l) previous new e d.1 step q h.1,
  )

module _ {Target R : Type 0} ⦃same_target : Eq Target⦄ ⦃same_resource : Eq R⦄
    (before between now : R → Option Bytes) (receipt followup : OperationReceipt R Target)
    (first : IsRestorable before between receipt) (second : IsRestorable between now followup) where
  unchanged :
      (q : R) (next : AppliedWrite R Target)
      → followup.applied ≡ next ∷ []
      → next.resource ≢ q
      → now q ≡ between q
  unchanged q next one away = second.others q (subst (Apart q) (sym one) (away, tt))

  joined :
      (next previous : AppliedWrite R Target)
      → followup.applied ≡ next ∷ []
      → last? receipt.applied ≡ some previous
      → continues previous next ≡ true
      → IsRestorable before now (record receipt {
        applied = set_last receipt.applied (record previous { written = next.written });
        maximum_content_bytes = max receipt.maximum_content_bytes followup.maximum_content_bytes;
      })
  joined next previous one last same =
      let here : previous.resource ≡ next.resource = continues_resource previous next same in
      let m = receipt.maximum_content_bytes in
      let n = followup.maximum_content_bytes in
      let left : m ≤ max m n = le_max_left m n in
      let right : n ≤ max m n = le_max_right m n in
      let written : now next.resource ≡ next.written =
        (subst (All (λ a. now a.resource ≡ a.written)) one second.current).0 in
      let fits : WithinLimit n next.written =
        (subst (All (λ a. WithinLimit n a.written)) one second.fits_written).0 in
      record {
        distinct =
            subst Distinct (sym (resources-set_last receipt.applied previous next.written last))
              first.distinct;
        originals =
            Facts-set_last (λ r o. before r ≡ o) receipt.applied previous next.written last
              first.originals;
        others = λ q apart.
            let away =
              Facts-of_set_last (λ r o. r ≢ q) receipt.applied previous next.written last apart in
            let moved : previous.resource ≢ q =
              last-All (λ a. a.resource ≢ q) receipt.applied previous last away in
            unchanged q next one (subst (λ r. r ≢ q) here moved) ∙ first.others q away;
        current =
            set_last-All (λ a. between a.resource ≡ a.written) (λ a. now a.resource ≡ a.written)
              receipt.applied previous next.written last first.distinct
              (λ a ne kept.
                unchanged a.resource next one (subst (λ r. r ≢ a.resource) here ne) ∙ kept)
              (ap now here ∙ written) first.current;
        fits_original =
            set_last-All (λ a. WithinLimit m a.original) (λ a. WithinLimit (max m n) a.original)
              receipt.applied previous next.written last first.distinct
              (λ a ne kept. WithinLimit-mono m (max m n) a.original left kept)
              (WithinLimit-mono m (max m n) previous.original left (
                last-All (λ a. WithinLimit m a.original) receipt.applied previous last
                  first.fits_original))
              first.fits_original;
        fits_written =
            set_last-All (λ a. WithinLimit m a.written) (λ a. WithinLimit (max m n) a.written)
              receipt.applied previous next.written last first.distinct
              (λ a ne kept. WithinLimit-mono m (max m n) a.written left kept)
              (WithinLimit-mono n (max m n) next.written right fits) first.fits_written;
      }

  -- If the rollback of the receipt brings back `before` from the documents between the two
  -- operations, and that of the follow-up brings those back from the documents after it, then the
  -- rollback of the combined receipt brings back `before` from the documents after both: what it
  -- relies on holds.
  pub try_coalesce-IsRestorable :
      (try_coalesce_last_write receipt followup).1 ≡ ok tt
      → IsRestorable before now (try_coalesce_last_write receipt followup).0
  unfolding try_coalesce_last_write
  try_coalesce-IsRestorable h = by_writes followup.applied refl h
    where
      by_pair :
          (next : AppliedWrite R Target) (o : Option (AppliedWrite R Target))
          → followup.applied ≡ next ∷ []
          → last? receipt.applied ≡ o
          → (coalesce_pair receipt followup next o).1 ≡ ok tt
          → IsRestorable before now (coalesce_pair receipt followup next o).0
      by_pair next none one last k = cc
      by_pair next (some previous) one last k = elim (Bool-cases (continues previous next)) [
        | inl e ↦ rw e (joined next previous one last e)
        | inr e ↦ absurd (ground (arith, e, k))
      ]

      by_writes :
          (l : List (AppliedWrite R Target))
          → followup.applied ≡ l
          → (coalesce_writes receipt followup l).1 ≡ ok tt
          → IsRestorable before now (coalesce_writes receipt followup l).0
      by_writes [] empty k =
          let same : (q : R) → now q ≡ between q =
            λ q. second.others q (subst (Apart q) (sym empty) tt) in
          record {
            distinct = first.distinct;
            originals = first.originals;
            others = λ q apart. same q ∙ first.others q apart;
            current =
                All-mono (λ a. between a.resource ≡ a.written) (λ a. now a.resource ≡ a.written)
                  receipt.applied (λ a kept. same a.resource ∙ kept) first.current;
            fits_original = first.fits_original;
            fits_written = first.fits_written;
          }
      by_writes (next ∷ []) one k = by_pair next (last? receipt.applied) one refl k
      by_writes (next ∷ other ∷ rest) two k = cc
