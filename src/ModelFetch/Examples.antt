-- ===== src/ModelFetch/Examples.antt =====
-- Tests of the model-list rules, and their theorems at concrete inputs.
use cc_switch_core.Base.{
  nat_eq, list_eq, option_eq, string_eq, ◌≡◌, refl, Option, none, some, List, [], ◌∷◌, ◌==◌,
  if◌then◌else◌,
}
use cc_switch_core.Text.{Text, codes, trim, trim_start, trim_end, is_whitespace, ascii_lower}
use cc_switch_core.Text.Search.{
  strip_prefix, starts_with, ends_with, before_first, before_last, drop_leading, trim_end_matches,
  to_ascii_lowercase, take,
}
use cc_switch_core.ModelFetch.{
  base_url, completion_url, compatible_model_lists, bearer_compatible, anthropic_compatible,
  retain_new, completion_urls, versioned_url, stripped_root, root_urls, policy_urls, candidate_urls,
  headers_for_key, read_id, collect_ids, collection, parse_model_ids,
}
use cc_switch_core.ModelFetch.Candidates.{AreCandidates, candidate_urls-AreCandidates}
use cc_switch_core.ModelFetch.Ids.{IsFirstMatch, parse_model_ids-IsFirstMatch}

abbrev relay : Text
relay = codes " https://relay.example/API/Anthropic/"

relay_candidates :
    candidate_urls anthropic_compatible relay base_url
    ≡ codes "https://relay.example/API/Anthropic/v1/models"
      ∷ codes "https://relay.example/v1/models"
      ∷ codes "https://relay.example/models"
      ∷ []
unfolding candidate_urls trim trim_start trim_end is_whitespace trim_end_matches drop_leading
    ends_with starts_with strip_prefix policy_urls versioned_url stripped_root to_ascii_lowercase
    ascii_lower take root_urls before_first retain_new
relay_candidates = refl

completion_candidates :
    candidate_urls bearer_compatible (codes "https://host/api/chat") completion_url
    ≡ codes "https://host/api/v1/models" ∷ []
unfolding candidate_urls trim trim_start trim_end is_whitespace trim_end_matches drop_leading
    completion_urls before_first before_last starts_with strip_prefix
completion_candidates = refl

candidate_urls-AreCandidates_example :
    AreCandidates (candidate_urls bearer_compatible relay base_url)
candidate_urls-AreCandidates_example = candidate_urls-AreCandidates bearer_compatible relay base_url

headers_keep_their_order :
    headers_for_key anthropic_compatible (codes "k")
    ≡ (codes "Authorization", codes "Bearer k")
      ∷ (codes "x-api-key", codes "k")
      ∷ (codes "anthropic-version", codes "2023-06-01")
      ∷ []
unfolding headers_for_key
headers_keep_their_order = refl

-- A JSON value cut down to texts and arrays of objects with one field.
data Document : Type 0 where
  text : Text → Document
  array : List Text → Document
  object : Text → List Text → Document

abbrev texts : List Text → List Document
texts [] = []
texts (s ∷ ss) = text s ∷ texts ss

abbrev point : Text → Document → Option Document
point path (object name items) = if path == name then some (array items) else none
point path (text s) = if path == codes "/name" then some (text s) else none
point path (array items) = none

abbrev elements : Document → Option (List Document)
elements (array items) = some (texts items)
elements _ = none

abbrev as_text : Document → Option Text
as_text (text s) = some s
as_text _ = none

abbrev response : Document
response = object (codes "/models") (codes "models/a" ∷ codes "models/a" ∷ codes "b" ∷ [])

response_ids :
    parse_model_ids point elements as_text response compatible_model_lists
    ≡ codes "a" ∷ codes "b" ∷ []
unfolding parse_model_ids collection collect_ids read_id strip_prefix
response_ids = refl

parse_model_ids-IsFirstMatch_example :
    IsFirstMatch point elements as_text response compatible_model_lists
      (parse_model_ids point elements as_text response compatible_model_lists)
parse_model_ids-IsFirstMatch_example =
    parse_model_ids-IsFirstMatch point elements as_text response compatible_model_lists
