-- ===== src/ModelFetch.antt =====
-- The model-list rules of src/model_fetch.rs. A JSON value is serde_json's: the arguments `pointer`,
-- `as_array` and `as_str` stand for `Value::pointer`, `Value::as_array` and `Value::as_str`.
mod Retain
pub mod Candidates
pub mod Ids
mod Examples
use cc_switch_core.Base.{
  nat_eq, list_eq, option_eq, string_eq, ◌+◌, ◌-◌, true, false, not, ◌&&◌, ◌||◌, Option, none, some,
  List, [], ◌∷◌, ◌++◌, map, if◌then◌else◌, length, ltb,
}
use cc_switch_core.Text.{Text, codes, trim}
use cc_switch_core.Text.Search.{
  is_some, strip_prefix, ends_with, before_first, before_last, trim_end_matches, to_ascii_lowercase,
  take,
}
use mathlib.Core.Option
use cc_switch_core.Base.{contains, is_empty}

pub data ModelEndpointInput : Type 0 where
  base_url completion_url : ModelEndpointInput

pub data ModelEndpointPolicy : Type 0 where
  models_first : ModelEndpointPolicy
  versioned_first : List Text → ModelEndpointPolicy

pub data ModelHeaderValue : Type 0 where
  key : Text → ModelHeaderValue
  literal : Text → ModelHeaderValue

pub record ModelListShape : Type 0 where
  pub collection_pointer : Text
  pub id_pointer : Text
  pub strip_prefix : Option Text

pub record ModelFetchSpec : Type 0 where
  pub endpoints : ModelEndpointPolicy
  pub key_headers : List (Text × ModelHeaderValue)
  pub response_shapes : List ModelListShape

abbrev pub compatible_model_lists : List ModelListShape
compatible_model_lists =
    record { collection_pointer = codes "/data"; id_pointer = codes "/id"; strip_prefix = none }
    ∷ record {
      collection_pointer = codes "/models";
      id_pointer = codes "/name";
      strip_prefix = some (codes "models/");
    }
    ∷ record { collection_pointer = []; id_pointer = codes "/id"; strip_prefix = none }
    ∷ []

abbrev pub bearer_compatible : ModelFetchSpec
bearer_compatible = record {
  endpoints = models_first;
  key_headers = (codes "Authorization", key (codes "Bearer ")) ∷ [];
  response_shapes = compatible_model_lists;
}

abbrev pub anthropic_compatible : ModelFetchSpec
anthropic_compatible = record {
  endpoints = versioned_first (
      codes "/api/claudecode"
      ∷ codes "/api/anthropic"
      ∷ codes "/apps/anthropic"
      ∷ codes "/api/coding"
      ∷ codes "/claudecode"
      ∷ codes "/anthropic"
      ∷ codes "/step_plan"
      ∷ codes "/coding"
      ∷ codes "/claude"
      ∷ []);
  key_headers =
      (codes "Authorization", key (codes "Bearer "))
      ∷ (codes "x-api-key", key [])
      ∷ (codes "anthropic-version", literal (codes "2023-06-01"))
      ∷ [];
  response_shapes = compatible_model_lists;
}

abbrev pub google_api_key : ModelFetchSpec
google_api_key = record {
  endpoints = models_first;
  key_headers = (codes "x-goog-api-key", key []) ∷ [];
  response_shapes = compatible_model_lists;
}

-- `urls.retain(|url| seen.insert(url.clone()))`
unfoldable pub retain_new : List Text → List Text → List Text
retain_new seen [] = []
retain_new seen (u ∷ us) = elim (contains seen u) [
  | true ↦ retain_new seen us
  | false ↦ u ∷ retain_new (u ∷ seen) us
]

abbrev pub to_list : Option Text → List Text
to_list none = []
to_list (some u) = u ∷ []

-- The parent path of a completion URL, if a host precedes it.
abbrev pub parent_url : Option Text → List Text
parent_url none = []
parent_url (some root) = elim (before_first (codes "://") root) [
  | none ↦ []
  | some scheme ↦
      if ltb (length scheme + 3) (length root) then (root ++ codes "/v1/models") ∷ [] else []
]

unfoldable pub completion_urls : Text → List Text
completion_urls base = elim (before_first (codes "/v1/") base) [
  | some root ↦ (root ++ codes "/v1/models") ∷ []
  | none ↦ parent_url (before_last b'/' base)
]

-- `versioned`: none if the base names a version already.
unfoldable pub versioned_url : Text → Option Text
versioned_url base =
    if ends_with (codes "/v1") base || ends_with (codes "/v1beta") base
    then none
    else some (base ++ codes "/v1/models")

-- The base without the first compatibility suffix that it ends with.
unfoldable pub stripped_root : List Text → Text → Option Text
stripped_root [] base = none
stripped_root (suffix ∷ suffixes) base =
    let later = stripped_root suffixes base in
    if ends_with (to_ascii_lowercase suffix) (to_ascii_lowercase base)
    then some (take (length base - length suffix) base)
    else later

unfoldable pub root_urls : Text → List Text
root_urls stripped =
    let root = trim_end_matches b'/' stripped in
    if not (is_empty root) && is_some (before_first (codes "://") root)
    then (root ++ codes "/v1/models") ∷ (root ++ codes "/models") ∷ []
    else []

abbrev pub unwrap_or : Text → Option Text → Text
unwrap_or u none = u
unwrap_or u (some v) = v

abbrev pub fallback_urls : Text → Option Text → Option Text → List Text
fallback_urls append_models versioned (some root) = root_urls root
fallback_urls append_models versioned none = if is_some versioned then append_models ∷ [] else []

unfoldable pub policy_urls : ModelEndpointPolicy → Text → List Text
policy_urls models_first base = (base ++ codes "/models") ∷ to_list (versioned_url base)
policy_urls (versioned_first suffixes) base =
    let append_models = base ++ codes "/models" in
    unwrap_or append_models (versioned_url base)
    ∷ fallback_urls append_models (versioned_url base) (stripped_root suffixes base)

-- `ModelFetchSpec::candidate_urls`
unfoldable pub candidate_urls : ModelFetchSpec → Text → ModelEndpointInput → List Text
candidate_urls spec url input =
    let base = trim_end_matches b'/' (trim url) in
    if is_empty base then [] else elim input [
      | completion_url ↦ completion_urls base
      | base_url ↦
          if ends_with (codes "/models") base
          then base ∷ []
          else retain_new [] (policy_urls spec.endpoints base)
    ]

abbrev header_value : Text → ModelHeaderValue → Text
header_value supplied (key prefix) = prefix ++ supplied
header_value supplied (literal value) = value

-- `ModelFetchSpec::headers_for_key`
unfoldable pub headers_for_key : ModelFetchSpec → Text → List (Text × Text)
headers_for_key spec supplied = map (λ h. (h.0, header_value supplied h.1)) spec.key_headers

-- `Option::and_then`
abbrev pub and_then {ℓ κ} : {A : Type ℓ} {B : Type κ} → Option A → (A → Option B) → Option B
and_then none f = none
and_then (some a) f = f a

module _ {V : Type 0} (pointer : Text → V → Option V) (as_array : V → Option (List V))
    (as_str : V → Option Text) where
  abbrev stripped : Option Text → Text → Text
  stripped none id = id
  stripped (some prefix) id = unwrap_or id (strip_prefix prefix id)

  -- The id of one element, if it has a text there.
  unfoldable pub read_id : ModelListShape → V → Option Text
  read_id shape item =
      Option.map (stripped shape.strip_prefix) (and_then (pointer shape.id_pointer item) as_str)

  -- The ids that were not seen, in order of arrival.
  unfoldable pub collect_ids : ModelListShape → List Text → List V → List Text
  collect_ids shape seen [] = []
  collect_ids shape seen (item ∷ items) = elim (read_id shape item) [
    | none ↦ collect_ids shape seen items
    | some id ↦ elim (contains seen id) [
      | true ↦ collect_ids shape seen items
      | false ↦ id ∷ collect_ids shape (id ∷ seen) items
    ]
  ]

  -- The elements of the shape's collection.
  unfoldable pub collection : ModelListShape → V → Option (List V)
  collection shape payload = and_then (pointer shape.collection_pointer payload) as_array

  -- `parse_model_ids`
  unfoldable pub parse_model_ids : V → List ModelListShape → List Text
  parse_model_ids payload [] = []
  parse_model_ids payload (shape ∷ shapes) = elim (collection shape payload) [
    | none ↦ parse_model_ids payload shapes
    | some items ↦ elim (collect_ids shape [] items) [
      | [] ↦ parse_model_ids payload shapes
      | id ∷ ids ↦ id ∷ ids
    ]
  ]
