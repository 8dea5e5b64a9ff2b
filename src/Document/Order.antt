-- ===== src/Document/Order.antt =====
-- The ordering loop of `LiveDocumentSet::try_new_with_content_limit` (src/document.rs).
use cc_switch_core.Base.{
  nat_eq, list_eq, option_eq, string_eq, beq_refl, ◌≡◌, refl, sym, ap, ◌∙◌, inl, inr, Bool, true,
  false, ◌||◌, Option, some, List, [], ◌∷◌, ok, ◌==◌, if◌then◌else◌, Bool-cases, Option-cases,
}
use cc_switch_core.Base.{Distinct}
use cc_switch_core.App.Target.{LogicalTarget, target_eq}
use cc_switch_core.Document.{ObservedDocument, document_of, targets, remove, order}
use cc_switch_core.Base.{contains, >>=-eq-ok, ok-injective}

-- A removal finds the target's document and leaves the others to be found as before.
abbrev Removed :
    LogicalTarget → List ObservedDocument → ObservedDocument → List ObservedDocument → Type 0
Removed t ds d others =
    (d.target ≡ t)
    × (document_of t ds ≡ some d)
    × ((u : LogicalTarget) → (t == u) ≡ false → document_of u others ≡ document_of u ds)

some-injective :
    {d e : ObservedDocument} {ds es : List ObservedDocument}
    → Path (Option (ObservedDocument × List ObservedDocument)) (some (d, ds)) (some (e, es))
    → (d ≡ e) × (ds ≡ es)
some-injective h = (cc, cc)

Removed-head :
    (t : LogicalTarget) (x : ObservedDocument) (xs : List ObservedDocument)
    → (x.target == t) ≡ true
    → Removed t (x ∷ xs) x xs
Removed-head t x xs e =
    let same = (target_eq.eqb_iff x.target t).0 e in (same, rw e refl, λ u ne. rw (same, ne) refl)

Removed-tail :
    (t : LogicalTarget) (x : ObservedDocument) (xs : List ObservedDocument) (d : ObservedDocument)
    (others : List ObservedDocument)
    → (x.target == t) ≡ false
    → Removed t xs d others
    → Removed t (x ∷ xs) d (x ∷ others)
Removed-tail t x xs d others e (same, found, rest) =
    (same, rw e found, λ u ne. ap (λ r. if x.target == u then some x else r) (rest u ne))

remove-some :
    (t : LogicalTarget) (ds : List ObservedDocument) {d : ObservedDocument}
    {others : List ObservedDocument}
    → remove t ds ≡ some (d, others)
    → Removed t ds d others
unfolding remove
remove-some t [] h = cc
remove-some t (x ∷ xs) {d} {others} h = elim (Bool-cases (x.target == t)) [
  | inl e ↦
      let (same, rest) = some-injective (rw e at h) in rw (← same, ← rest) (Removed-head t x xs e)
  | inr e ↦ elim (Option-cases (remove t xs)) [
    | inl absent ↦ cc (rw (e, absent) at h)
    | inr ((found, rest), hit) ↦
        let (same, others') = some-injective (rw (e, hit) at h) in
        rw (← same, ← others') (Removed-tail t x xs found rest e (remove-some t xs hit))
  ]
]

remove_total :
    (t : LogicalTarget) (ds : List ObservedDocument) (d : ObservedDocument)
    → document_of t ds ≡ some d
    → (found : ObservedDocument) × (others : List ObservedDocument) × (remove t ds
        ≡ some (found, others))
unfolding remove
remove_total t [] d h = cc
remove_total t (x ∷ xs) d h = elim (Bool-cases (x.target == t)) [
  | inl e ↦ (x, xs, rw e refl)
  | inr e ↦
      let (found, others, same) = remove_total t xs d (rw e at h) in
      (found, x ∷ others, rw (e, same) refl)
]

-- The documents stand in the order of the targets, and each target's is that of `ds`.
abbrev pub Ordered : List LogicalTarget → List ObservedDocument → List ObservedDocument → Type 0
Ordered ts ds r =
    (targets r ≡ ts)
    × ((u : LogicalTarget) → contains ts u ≡ true → document_of u r ≡ document_of u ds)

Ordered-cons :
    (t : LogicalTarget) (ts : List LogicalTarget) (ds : List ObservedDocument)
    (d : ObservedDocument) (others rest : List ObservedDocument)
    → Removed t ds d others
    → Ordered ts others rest
    → Ordered (t ∷ ts) ds (d ∷ rest)
Ordered-cons t ts ds d others rest (same, found, kept) (ordered, answers) = (
  rw (same, ordered) refl,
  λ u k. elim (Bool-cases (t == u)) [
    | inl e ↦ rw (rw (← same) at e) (rw ((target_eq.eqb_iff t u).0 e) at (sym found))
    | inr ne ↦ rw (rw (← same) at ne) (answers u (rw ne at k) ∙ kept u ne)
  ],
)

pub order-ok :
    (ts : List LogicalTarget) (ds : List ObservedDocument) {r : List ObservedDocument}
    → order ts ds ≡ ok r
    → Ordered ts ds r
unfolding order
order-ok [] ds h = rw (← ok-injective h) (refl, λ u k. cc)
order-ok (t ∷ ts) ds h = elim (Option-cases (remove t ds)) [
  | inl absent ↦ cc (rw (absent, order) at h)
  | inr ((d, others), hit) ↦
      let (rest, ran, made) =
        >>=-eq-ok (order ts others) (λ rest. ok (d ∷ rest)) (rw (hit, order) at h) in
      rw (← ok-injective made)
        (Ordered-cons t ts ds d others rest (remove-some t ds hit) (order-ok ts others ran))
]

or_true : (b : Bool) → (b || true) ≡ true
or_true true = refl
or_true false = refl

ne_of_contains :
    (ts : List LogicalTarget) (t u : LogicalTarget)
    → contains ts t ≡ false
    → contains ts u ≡ true
    → (t == u) ≡ false
ne_of_contains ts t u out in' = elim (Bool-cases (t == u)) [
  | inl e ↦ cc (rw ((target_eq.eqb_iff t u).0 e) at out)
  | inr ne ↦ ne
]

pub order_complete :
    (ts : List LogicalTarget) (ds : List ObservedDocument)
    → Distinct ts
    → ((u : LogicalTarget)
        → contains ts u ≡ true
        → (d : ObservedDocument) × (document_of u ds ≡ some d))
    → (r : List ObservedDocument) × (order ts ds ≡ ok r)
unfolding order
order_complete [] ds distinct supplied = ([], refl)
order_complete (t ∷ ts) ds (new, distinct) supplied =
    let (d₀, found₀) = supplied t (rw (beq_refl t) refl) in
    let (d, others, hit) = remove_total t ds d₀ found₀ in
    let (rest, ran) = order_complete ts others distinct (still_supplied d others hit) in
    (d ∷ rest, rw (hit, order, ran) refl)
  where
    still_supplied :
        (d : ObservedDocument) (others : List ObservedDocument)
        → remove t ds ≡ some (d, others)
        → (u : LogicalTarget) → contains ts u ≡ true
        → (found : ObservedDocument) × (document_of u others ≡ some found)
    still_supplied d others hit u k =
        let (same, here, kept) = remove-some t ds hit in
        let (found, was) = supplied u (rw k (or_true (t == u))) in
        (found, kept u (ne_of_contains ts t u new k) ∙ was)
