-- ===== src/Document/Snapshot.antt =====
-- Which snapshots `LiveDocumentSet::try_new_with_content_limit` accepts, and what they answer
-- (src/document.rs).
use cc_switch_core.Base.{
  nat_eq, list_eq, option_eq, string_eq, ℕ, ◌≡◌, refl, sym, ap, ◌∙◌, ◌↔◌, inl, inr, true, false,
  none, some, List, [], ◌∷◌, ◌++◌, append-nil, append_assoc, arith, ok, ◌==◌, All, Bool-cases,
  ok-injective, All-mono,
}
use cc_switch_core.App.{AppType, app_eq}
use cc_switch_core.Document.Order.{Ordered, order-ok, order_complete}
use cc_switch_core.Base.{Distinct}
use cc_switch_core.App.Target.{LogicalTarget, target_eq, target_beq}
use cc_switch_core.Registry.Targets.{targets_of, targets_of-contains}
use cc_switch_core.Operation.Validation.{WithinLimit, exceeds_iff}
use cc_switch_core.Document.{
  ObservedDocument, document_of, targets, check_document, supply, order, try_new_with_content_limit,
  LiveDocumentSet, document,
}
use cc_switch_core.Base.{contains, >>=-eq-ok}

pub record IsAdmissible (a : AppType) (maximum : ℕ) (d : ObservedDocument) : Type 0 where
  pub declared : contains (targets_of a) d.target ≡ true
  pub within_limit : WithinLimit maximum d.contents

-- No target is among those of the earlier documents.
abbrev pub Unrepeated : List ObservedDocument → List ObservedDocument → Type 0
Unrepeated supplied [] = Unit
Unrepeated supplied (d ∷ ds) =
    (contains (targets supplied) d.target ≡ false) × Unrepeated (supplied ++ (d ∷ [])) ds

-- Each declared target is supplied once, nothing else is, and the contents are within the limit.
pub record IsComplete (a : AppType) (maximum : ℕ) (documents : List ObservedDocument) : Type 0 where
  pub admissible : All (IsAdmissible a maximum) documents
  pub distinct : Unrepeated [] documents
  pub supplied :
      (t : LogicalTarget)
      → contains (targets_of a) t ≡ true
      → (d : ObservedDocument) × (document_of t documents ≡ some d)

check_document_iff :
    (a : AppType) (maximum : ℕ) (supplied : List ObservedDocument) (d : ObservedDocument)
    → (check_document a maximum supplied d ≡ ok tt)
      ↔ (IsAdmissible a maximum d × (contains (targets supplied) d.target ≡ false))
unfolding check_document
check_document_iff a maximum supplied d = (sound, complete)
  where
    sound :
        check_document a maximum supplied d ≡ ok tt
        → IsAdmissible a maximum d × (contains (targets supplied) d.target ≡ false)
    sound h = (
      record {
        declared = ground arith;
        within_limit = (exceeds_iff maximum d.contents).0 (ground arith);
      },
      ground arith,
    )

    complete :
        IsAdmissible a maximum d × (contains (targets supplied) d.target ≡ false)
        → check_document a maximum supplied d ≡ ok tt
    complete (v, new) = rw (
      sym (targets_of-contains a d.target) ∙ v.declared,
      v.declared,
      (exceeds_iff _ _).1 v.within_limit,
      new,
    )

supply-ok :
    (a : AppType) (maximum : ℕ) (supplied ds : List ObservedDocument) {r : List ObservedDocument}
    → supply a maximum supplied ds ≡ ok r
    → (r ≡ supplied ++ ds) × All (IsAdmissible a maximum) ds × Unrepeated supplied ds
unfolding supply
supply-ok a maximum supplied [] h = (cc (append-nil supplied), tt, tt)
supply-ok a maximum supplied (d ∷ ds) h =
    let (u, now, later) = >>=-eq-ok (check_document a maximum supplied d) _ h in
    let (v, new) = (check_document_iff a maximum supplied d).0 now in
    let (same, vs, news) = supply-ok a maximum (supplied ++ (d ∷ [])) ds later in
    (same ∙ append_assoc supplied (d ∷ []) ds, (v, vs), (new, news))

supply_complete :
    (a : AppType) (maximum : ℕ) (supplied ds : List ObservedDocument)
    → All (IsAdmissible a maximum) ds
    → Unrepeated supplied ds
    → supply a maximum supplied ds ≡ ok (supplied ++ ds)
unfolding supply
supply_complete a maximum supplied [] vs news = rw (append-nil supplied) refl
supply_complete a maximum supplied (d ∷ ds) (v, vs) (new, news) =
    rw ((check_document_iff a maximum supplied d).1 (v, new)) (
      supply_complete a maximum (supplied ++ (d ∷ [])) ds vs news
      ∙ ap ok (append_assoc supplied (d ∷ []) ds))

targets_of-Distinct : (a : AppType) → Distinct (targets_of a)
unfolding targets_of target_beq
targets_of-Distinct cc_switch_core.App.claude = ground arith
targets_of-Distinct _ = ground arith

document_of_present :
    (t : LogicalTarget) (ds : List ObservedDocument)
    → contains (targets ds) t ≡ true
    → (d : ObservedDocument) × (document_of t ds ≡ some d)
document_of_present t [] h = cc
document_of_present t (d ∷ ds) h = elim (Bool-cases (d.target == t)) [
  | inl e ↦ (d, rw e refl)
  | inr ne ↦ let (found, here) = document_of_present t ds (rw ne at h) in (found, rw ne here)
]

document_of_absent :
    (t : LogicalTarget) (ds : List ObservedDocument)
    → contains (targets ds) t ≡ false
    → document_of t ds ≡ none
document_of_absent t [] h = refl
document_of_absent t (d ∷ ds) h = elim (Bool-cases (d.target == t)) [
  | inl e ↦ cc (rw e at h)
  | inr ne ↦ rw ne (document_of_absent t ds (rw ne at h))
]

document_of_undeclared :
    (a : AppType) (maximum : ℕ) (t : LogicalTarget) (ds : List ObservedDocument)
    → All (IsAdmissible a maximum) ds
    → contains (targets_of a) t ≡ false
    → document_of t ds ≡ none
document_of_undeclared a maximum t [] vs h = refl
document_of_undeclared a maximum t (d ∷ ds) (v, vs) h = elim (Bool-cases (d.target == t)) [
  | inl e ↦ cc (rw ((target_eq.eqb_iff d.target t).0 e) at v.declared)
  | inr ne ↦ rw ne (document_of_undeclared a maximum t ds vs h)
]

try_new-steps :
    (a : AppType) (documents : List ObservedDocument) (maximum : ℕ) (set : LiveDocumentSet)
    → try_new_with_content_limit a documents maximum ≡ ok set
    → (set.app ≡ a)
      × All (IsAdmissible a maximum) documents
      × Unrepeated [] documents
      × Ordered (targets_of a) documents set.documents
unfolding try_new_with_content_limit
try_new-steps a documents maximum set h =
    let (supplied, ran, rest) = >>=-eq-ok (supply a maximum [] documents) _ h in
    let (same, vs, news) = supply-ok a maximum [] documents ran in
    let (r, ordered, made) =
      >>=-eq-ok (order (targets_of a) supplied) (λ r. ok (record { app = a; documents = r }))
        rest in
    rw (← ok-injective made)
      (refl, vs, news, order-ok (targets_of a) documents (rw same at ordered))

-- An accepted snapshot belongs to the application, holds one document for each declared target, in
-- the adapter's order, and answers for every target with what was supplied for it; all that was
-- supplied is within the limit.
pub try_new-ok :
    (a : AppType) (documents : List ObservedDocument) (maximum : ℕ) (set : LiveDocumentSet)
    → try_new_with_content_limit a documents maximum ≡ ok set
    → (set.app ≡ a)
      × (targets set.documents ≡ targets_of a)
      × ((t : LogicalTarget) → document set t ≡ document_of t documents)
      × All (λ d. WithinLimit maximum d.contents) documents
unfolding document
try_new-ok a documents maximum set h =
    let (owner, vs, news, (sorted, answers)) = try_new-steps a documents maximum set h in
    (
      owner,
      sorted,
      answer set.documents vs sorted answers,
      All-mono _ _ documents (λ d v. v.within_limit) vs,
    )
  where
    answer :
        (r : List ObservedDocument)
        → All (IsAdmissible a maximum) documents
        → targets r ≡ targets_of a
        → ((u : LogicalTarget)
            → contains (targets_of a) u ≡ true
            → document_of u r ≡ document_of u documents)
        → (t : LogicalTarget) → document_of t r ≡ document_of t documents
    answer r vs sorted answers t = elim (Bool-cases (contains (targets_of a) t)) [
      | inl k ↦ answers t k
      | inr k ↦
          document_of_absent t r (rw sorted k)
          ∙ sym (document_of_undeclared a maximum t documents vs k)
    ]

-- A snapshot is accepted exactly when each target that the adapter declares is supplied, none is
-- supplied twice, no other target is supplied, and all contents are within the limit.
pub try_new_iff :
    (a : AppType) (documents : List ObservedDocument) (maximum : ℕ)
    → ((set : LiveDocumentSet) × (try_new_with_content_limit a documents maximum ≡ ok set))
      ↔ IsComplete a maximum documents
unfolding try_new_with_content_limit
try_new_iff a documents maximum = (sound, complete)
  where
    sound :
        (set : LiveDocumentSet) × (try_new_with_content_limit a documents maximum ≡ ok set)
        → IsComplete a maximum documents
    sound (set, h) =
        let (owner, vs, news, (sorted, answers)) = try_new-steps a documents maximum set h in
        record {
          admissible = vs;
          distinct = news;
          supplied = λ t k.
              let (d, here) = document_of_present t set.documents (rw sorted k) in
              (d, sym (answers t k) ∙ here);
        }

    complete :
        IsComplete a maximum documents
        → (set : LiveDocumentSet) × (try_new_with_content_limit a documents maximum ≡ ok set)
    complete c =
        let (r, ordered) =
          order_complete (targets_of a) documents (targets_of-Distinct a) c.supplied in
        (
          record { app = a; documents = r },
          rw (supply_complete a maximum [] documents c.admissible c.distinct, ordered) refl,
        )
