-- ===== src/ModelFetch/Candidates.antt =====
-- The candidate URLs of `ModelFetchSpec::candidate_urls` (src/model_fetch.rs).
use cc_switch_core.Base.{
  nat_eq, list_eq, option_eq, string_eq, ◌+◌, ◌≡◌, refl, inl, inr, Bool, true, false, not, ◌&&◌,
  ◌||◌, Option, none, some, List, [], ◌∷◌, ◌++◌, append_assoc, if◌then◌else◌, length, All,
  Bool-cases, Option-cases, ltb,
}
use cc_switch_core.Text.{Text, codes, trim}
use cc_switch_core.Text.Search.{
  is_some, ends_with, ends_with-append, before_first, before_last, trim_end_matches,
}
use cc_switch_core.Base.{Distinct, is_empty}
use cc_switch_core.ModelFetch.{
  ModelEndpointInput, base_url, completion_url, ModelEndpointPolicy, models_first, versioned_first,
  ModelFetchSpec, retain_new, to_list, parent_url, completion_urls, versioned_url, stripped_root,
  root_urls, unwrap_or, fallback_urls, policy_urls, candidate_urls,
}
use cc_switch_core.ModelFetch.Retain.{retain_new-Distinct, retain_new-All}

abbrev pub IsModelList : Text → Type 0
IsModelList url = ends_with (codes "/models") url ≡ true

unversioned : (root : Text) → IsModelList (root ++ codes "/models")
unversioned root = ends_with-append root (codes "/models")

versioned : (root : Text) → IsModelList (root ++ codes "/v1/models")
versioned root =
    rw (← append_assoc root (codes "/v1") (codes "/models")) (unversioned (root ++ codes "/v1"))

-- No URL is repeated, and each asks for a model list.
abbrev pub AreCandidates : List Text → Type 0
AreCandidates urls = Distinct urls × All IsModelList urls

none_found : AreCandidates []
none_found = (tt, tt)

one_found : (url : Text) → IsModelList url → AreCandidates (url ∷ [])
one_found url h = ((refl, tt), (h, tt))

parent_url-AreCandidates : (o : Option Text) → AreCandidates (parent_url o)
parent_url-AreCandidates none = none_found
parent_url-AreCandidates (some root) = elim (Option-cases (before_first (codes "://") root)) [
  | inl e ↦ rw (e, parent_url) none_found
  | inr (scheme, e) ↦ elim (Bool-cases (ltb (length scheme + 3) (length root))) [
    | inl k ↦ rw (e, k, parent_url) (one_found _ (versioned root))
    | inr k ↦ rw (e, k, parent_url) none_found
  ]
]

completion_urls-AreCandidates : (base : Text) → AreCandidates (completion_urls base)
unfolding completion_urls
completion_urls-AreCandidates base = elim (Option-cases (before_first (codes "/v1/") base)) [
  | inl e ↦ rw (e, completion_urls) (parent_url-AreCandidates (before_last b'/' base))
  | inr (root, e) ↦ rw (e, completion_urls) (one_found _ (versioned root))
]

to_list_versioned : (base : Text) → All IsModelList (to_list (versioned_url base))
unfolding versioned_url
to_list_versioned base =
    elim (Bool-cases (ends_with (codes "/v1") base || ends_with (codes "/v1beta") base)) [
      | inl e ↦ rw (e, versioned_url) tt
      | inr e ↦ rw (e, versioned_url) (versioned base, tt)
    ]

preferred : (base : Text) → IsModelList (unwrap_or (base ++ codes "/models") (versioned_url base))
unfolding versioned_url
preferred base =
    elim (Bool-cases (ends_with (codes "/v1") base || ends_with (codes "/v1beta") base)) [
      | inl e ↦ rw (e, versioned_url) (unversioned base)
      | inr e ↦ rw (e, versioned_url) (versioned base)
    ]

root_urls-All : (stripped : Text) → All IsModelList (root_urls stripped)
unfolding root_urls
root_urls-All stripped =
    let root = trim_end_matches b'/' stripped in
    elim (Bool-cases (not (is_empty root) && is_some (before_first (codes "://") root))) [
      | inl e ↦ rw (e, root_urls) (versioned root, (unversioned root, tt))
      | inr e ↦ rw (e, root_urls) tt
    ]

fallback_urls-All :
    (base : Text) (versioned stripped : Option Text)
    → All IsModelList (fallback_urls (base ++ codes "/models") versioned stripped)
fallback_urls-All base v (some root) = root_urls-All root
fallback_urls-All base none none = tt
fallback_urls-All base (some v) none = (unversioned base, tt)

policy_urls-All :
    (policy : ModelEndpointPolicy) (base : Text) → All IsModelList (policy_urls policy base)
unfolding policy_urls
policy_urls-All models_first base = (unversioned base, to_list_versioned base)
policy_urls-All (versioned_first suffixes) base =
    (preferred base, fallback_urls-All base (versioned_url base) (stripped_root suffixes base))

base_urls-AreCandidates :
    (policy : ModelEndpointPolicy) (base : Text) (b : Bool)
    → ends_with (codes "/models") base ≡ b
    → AreCandidates (if b then base ∷ [] else retain_new [] (policy_urls policy base))
base_urls-AreCandidates policy base true e = one_found base e
base_urls-AreCandidates policy base false e = (
  retain_new-Distinct [] (policy_urls policy base),
  retain_new-All IsModelList [] (policy_urls policy base) (policy_urls-All policy base),
)

-- Whatever the rules and the input, the candidate URLs are all different, and each of them ends
-- with `/models`.
pub candidate_urls-AreCandidates :
    (spec : ModelFetchSpec) (url : Text) (input : ModelEndpointInput)
    → AreCandidates (candidate_urls spec url input)
unfolding candidate_urls
candidate_urls-AreCandidates spec url input =
    let base = trim_end_matches b'/' (trim url) in
    elim (Bool-cases (is_empty base)) [
      | inl e ↦ rw (e, candidate_urls) none_found
      | inr e ↦ rw (e, candidate_urls) (by_input base input)
    ]
  where
    by_input :
        (base : Text) (input : ModelEndpointInput)
        → AreCandidates (elim input [
          | completion_url ↦ completion_urls base
          | base_url ↦
              if ends_with (codes "/models") base
              then base ∷ []
              else retain_new [] (policy_urls spec.endpoints base)
        ])
    by_input base completion_url = completion_urls-AreCandidates base
    by_input base base_url = base_urls-AreCandidates spec.endpoints base _ refl
