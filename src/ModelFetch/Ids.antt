-- ===== src/ModelFetch/Ids.antt =====
-- What `parse_model_ids` reads (src/model_fetch.rs), against a description without the loop's state:
-- the ids of a shape are those of all elements of its collection.
use cc_switch_core.Base.{
  nat_eq, list_eq, option_eq, string_eq, ◌≡◌, refl, sym, ap, ◌∙◌, ◌≢◌, ◌⊎◌, inl, inr, Bool, true,
  false, not, ◌&&◌, Option, none, some, List, [], ◌∷◌, ◌++◌, Bool-cases, Option-cases,
}
use cc_switch_core.Text.{Text}
use cc_switch_core.Base.{contains, List-cases}
use cc_switch_core.ModelFetch.{
  ModelListShape, retain_new, read_id, collect_ids, collection, parse_model_ids, to_list,
}
use cc_switch_core.Base.{Distinct}
use cc_switch_core.ModelFetch.Retain.{retain_new-Distinct, retain_new-contains}

and_true : (b : Bool) → (b && not false) ≡ b
and_true true = refl
and_true false = refl

module _ {V : Type 0} (pointer : Text → V → Option V) (as_array : V → Option (List V))
    (as_str : V → Option Text) where
  abbrev ids_of : ModelListShape → List V → List Text
  ids_of shape [] = []
  ids_of shape (item ∷ items) =
      to_list (read_id pointer as_array as_str shape item) ++ ids_of shape items

  abbrev ids_of_collection : ModelListShape → Option (List V) → List Text
  ids_of_collection shape none = []
  ids_of_collection shape (some items) = ids_of shape items

  -- Every text id in the shape's collection, in order, with repetitions.
  abbrev pub ids_in : V → ModelListShape → List Text
  ids_in payload shape = ids_of_collection shape (collection pointer as_array as_str shape payload)

  collect_ids-eq-retain_new :
      (shape : ModelListShape) (seen : List Text) (items : List V)
      → collect_ids pointer as_array as_str shape seen items ≡ retain_new seen (ids_of shape items)
  unfolding collect_ids retain_new
  collect_ids-eq-retain_new shape seen [] = refl
  collect_ids-eq-retain_new shape seen (item ∷ items) =
      elim (Option-cases (read_id pointer as_array as_str shape item)) [
        | inl e ↦ rw (e, collect_ids) (collect_ids-eq-retain_new shape seen items)
        | inr (id, e) ↦ elim (Bool-cases (contains seen id)) [
          | inl was ↦
              rw (e, was, collect_ids, retain_new) (collect_ids-eq-retain_new shape seen items)
          | inr fresh ↦
              rw (e, fresh, collect_ids, retain_new)
                (ap (λ ids. id ∷ ids) (collect_ids-eq-retain_new shape (id ∷ seen) items))
        ]
      ]

  -- The ids are those of the first shape that has any, each once; none if no shape has any.
  abbrev pub IsFirstMatch : V → List ModelListShape → List Text → Type 0
  IsFirstMatch payload [] ids = ids ≡ []
  IsFirstMatch payload (shape ∷ shapes) ids =
      ((ids_in payload shape ≡ []) × IsFirstMatch payload shapes ids)
      ⊎ ((ids_in payload shape ≢ [])
          × Distinct ids
          × ((id : Text) → contains ids id ≡ contains (ids_in payload shape) id))

  retain_new-nonempty : (l : List Text) → retain_new [] l ≡ [] → l ≡ []
  unfolding retain_new
  retain_new-nonempty [] h = refl
  retain_new-nonempty (x ∷ xs) h = cc

  nonempty : (l : List Text) (id : Text) (ids : List Text) → id ∷ ids ≡ retain_new [] l → l ≢ []
  unfolding retain_new
  nonempty [] id ids h = cc
  nonempty (x ∷ xs) id ids h = λ e. cc

  -- The ids that the loop collects are all of the collection's, each once.
  collected :
      (l ids : List Text)
      → ids ≡ retain_new [] l
      → Distinct ids × ((u : Text) → contains ids u ≡ contains l u)
  collected l ids h = (
    rw h (retain_new-Distinct [] l),
    λ u. rw h (retain_new-contains [] l u ∙ and_true (contains l u)),
  )

  -- `parse_model_ids` gives, each once, the ids of the first shape whose collection has any, and
  -- nothing if no shape's has.
  pub parse_model_ids-IsFirstMatch :
      (payload : V) (shapes : List ModelListShape)
      → IsFirstMatch payload shapes (parse_model_ids pointer as_array as_str payload shapes)
  unfolding parse_model_ids
  parse_model_ids-IsFirstMatch payload [] = refl
  parse_model_ids-IsFirstMatch payload (shape ∷ shapes) =
      elim (Option-cases (collection pointer as_array as_str shape payload)) [
        | inl e ↦ rw (e, parse_model_ids) (inl (refl, parse_model_ids-IsFirstMatch payload shapes))
        | inr (items, e) ↦
            let same = collect_ids-eq-retain_new shape [] items in
            elim (List-cases (collect_ids pointer as_array as_str shape [] items)) [
              | inl n ↦
                  rw (e, n, parse_model_ids)
                    (inl (
                      retain_new-nonempty (ids_of shape items) (sym same ∙ n),
                      parse_model_ids-IsFirstMatch payload shapes,
                    ))
              | inr (id, ids, n) ↦
                  let listed = sym n ∙ same in
                  let (distinct, members) = collected (ids_of shape items) (id ∷ ids) listed in
                  rw (e, n, parse_model_ids)
                    (inr (nonempty (ids_of shape items) id ids listed, distinct, members))
            ]
      ]
