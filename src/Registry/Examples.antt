-- ===== src/Registry/Examples.antt =====
-- Tests of the registry's model, and its theorems at concrete inputs.
use cc_switch_core.Base.{
  nat_eq, list_eq, option_eq, string_eq, ◌≡◌, refl, true, false, some, [], ◌∷◌, map, ok, ◌==◌,
  contains, get_elem?,
}
use cc_switch_core.Text.{
  Text, codes, trim, trim_start, trim_end, is_whitespace, to_lowercase, ascii_lower,
}
use cc_switch_core.App.{grok_build, codex, app_index, app_eq}
use cc_switch_core.App.Target.{codex_auth, app, target_eq}
use cc_switch_core.Registry.Catalog.{
  builtin_app_integrations, builtin_app_integration, descriptor_for, from_str, find_descriptor,
  matches_id, is_additive_mode, supports_local_proxy, all_apps,
}
use cc_switch_core.Registry.Lookup.{integration_in_bounds, names, from_str-names, from_str_sound}
use cc_switch_core.Registry.Targets.{targets_of, targets_of-contains}

-- Leaves a text with characters outside ASCII as it is.
abbrev unchanged : Text → Text
unchanged s = s

integration_in_bounds_example :
    (get_elem? builtin_app_integrations (app_index grok_build)
      ≡ some (builtin_app_integration grok_build))
    × ((descriptor_for grok_build).app ≡ grok_build)
integration_in_bounds_example = integration_in_bounds grok_build

from_str-names_example : from_str unchanged (codes " GROK-build\n") ≡ ok grok_build
unfolding is_whitespace ascii_lower descriptor_for
from_str-names_example =
    from_str-names unchanged grok_build (codes " ") (codes "GROK-build") (codes "\n") (refl, tt)
      (refl, tt) refl

parses_alias : from_str unchanged (codes "grok") ≡ ok grok_build
unfolding from_str find_descriptor matches_id trim trim_start trim_end is_whitespace to_lowercase
parses_alias = refl

from_str_sound_example :
    contains
      (names (descriptor_for grok_build))
      (to_lowercase unchanged (trim (to_lowercase unchanged (trim (codes "grok")))))
    ≡ true
from_str_sound_example = from_str_sound unchanged (codes "grok") grok_build parses_alias

targets_of-contains_example : contains (targets_of codex) codex_auth ≡ app codex_auth == codex
targets_of-contains_example = targets_of-contains codex codex_auth

-- The tables of the source's tests.
additive_apps :
    map is_additive_mode all_apps
    ≡ false ∷ false ∷ false ∷ false ∷ false ∷ true ∷ true ∷ true ∷ true ∷ []
unfolding is_additive_mode
additive_apps = refl

proxied_apps :
    map supports_local_proxy all_apps
    ≡ true ∷ false ∷ true ∷ true ∷ true ∷ false ∷ false ∷ false ∷ false ∷ []
unfolding supports_local_proxy
proxied_apps = refl
