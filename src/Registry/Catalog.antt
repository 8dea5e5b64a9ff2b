-- ===== src/Registry/Catalog.antt =====
-- `AppDescriptor`, `AppIntegration`, the nine integrations and the lookups over them.
use cc_switch_core.Base.{
  nat_eq, list_eq, option_eq, string_eq, String, Bool, true, false, ◌||◌, Option, none, some, List,
  [], ◌∷◌, map, Result, ok, err, ◌==◌, contains, find, get_elem?,
}
use cc_switch_core.Text.{Text, codes, to_lowercase, trim}
use cc_switch_core.App.{
  AppType, AppCapability, provider_management, live_configuration, common_configuration,
  local_proxy, mcp, prompts, skills, ProviderConfigurationMode, switch, additive, NativeConfigRoot,
  home_relative, host_defined, app_index, app_eq, capability_eq, capability_beq,
}
use cc_switch_core.ModelFetch.{
  ModelFetchSpec, anthropic_compatible, bearer_compatible, google_api_key,
}
use cc_switch_core.App.Target.{
  LogicalTarget, claude_settings, claude_desktop_normal_config, claude_desktop_threep_config,
  claude_desktop_profile, claude_desktop_meta, codex_auth, codex_config, codex_model_catalog,
  gemini_env, gemini_settings, grok_config, open_code_config, open_claw_config, hermes_config,
  pi_models,
}

-- Without the MCP and skill contracts.
pub record AppDescriptor : Type 0 where
  pub app : AppType
  pub id : Text
  pub display_name : String
  pub brand_key : String
  pub config_root : NativeConfigRoot
  pub configuration_mode : ProviderConfigurationMode
  pub capabilities : List AppCapability
  pub default_model_fetch_spec : Option ModelFetchSpec
  pub aliases : List Text

-- Without the forms and the functions for projection and import.
pub record AppIntegration : Type 0 where
  pub descriptor : AppDescriptor
  pub targets : List LogicalTarget

abbrev pub claude_integration : AppIntegration
claude_integration = record {
  descriptor = record {
    app = AppType.claude;
    id = codes "claude";
    display_name = "Claude";
    brand_key = "claude";
    config_root = home_relative ".claude";
    configuration_mode = switch;
    capabilities =
        provider_management ∷ live_configuration ∷ common_configuration ∷ local_proxy ∷ mcp
        ∷ prompts ∷ skills ∷ [];
    default_model_fetch_spec = some anthropic_compatible;
    aliases = [];
  };
  targets = claude_settings ∷ [];
}

abbrev pub claude_desktop_integration : AppIntegration
claude_desktop_integration = record {
  descriptor = record {
    app = AppType.claude_desktop;
    id = codes "claude-desktop";
    display_name = "Claude Desktop";
    brand_key = "claude";
    config_root = host_defined;
    configuration_mode = switch;
    capabilities = provider_management ∷ live_configuration ∷ [];
    default_model_fetch_spec = none;
    aliases = codes "claude_desktop" ∷ codes "claudedesktop" ∷ [];
  };
  targets =
      claude_desktop_normal_config ∷ claude_desktop_threep_config ∷ claude_desktop_profile
      ∷ claude_desktop_meta ∷ [];
}

abbrev pub codex_integration : AppIntegration
codex_integration = record {
  descriptor = record {
    app = AppType.codex;
    id = codes "codex";
    display_name = "Codex";
    brand_key = "codex";
    config_root = home_relative ".codex";
    configuration_mode = switch;
    capabilities =
        provider_management ∷ live_configuration ∷ common_configuration ∷ local_proxy ∷ mcp
        ∷ prompts ∷ skills ∷ [];
    default_model_fetch_spec = some bearer_compatible;
    aliases = [];
  };
  targets = codex_auth ∷ codex_config ∷ codex_model_catalog ∷ [];
}

abbrev pub gemini_integration : AppIntegration
gemini_integration = record {
  descriptor = record {
    app = AppType.gemini;
    id = codes "gemini";
    display_name = "Gemini";
    brand_key = "gemini";
    config_root = home_relative ".gemini";
    configuration_mode = switch;
    capabilities =
        provider_management ∷ live_configuration ∷ common_configuration ∷ local_proxy ∷ mcp
        ∷ prompts ∷ skills ∷ [];
    default_model_fetch_spec = some google_api_key;
    aliases = [];
  };
  targets = gemini_env ∷ gemini_settings ∷ [];
}

abbrev pub grokbuild_integration : AppIntegration
grokbuild_integration = record {
  descriptor = record {
    app = AppType.grok_build;
    id = codes "grokbuild";
    display_name = "Grok Build";
    brand_key = "grok";
    config_root = home_relative ".grok";
    configuration_mode = switch;
    capabilities =
        provider_management ∷ live_configuration ∷ local_proxy ∷ mcp ∷ prompts ∷ skills ∷ [];
    default_model_fetch_spec = none;
    aliases = codes "grok-build" ∷ codes "grok_build" ∷ codes "grok" ∷ [];
  };
  targets = grok_config ∷ [];
}

abbrev pub opencode_integration : AppIntegration
opencode_integration = record {
  descriptor = record {
    app = AppType.open_code;
    id = codes "opencode";
    display_name = "OpenCode";
    brand_key = "opencode";
    config_root = home_relative ".config/opencode";
    configuration_mode = additive;
    capabilities = provider_management ∷ live_configuration ∷ mcp ∷ prompts ∷ skills ∷ [];
    default_model_fetch_spec = some bearer_compatible;
    aliases = [];
  };
  targets = open_code_config ∷ [];
}

abbrev pub openclaw_integration : AppIntegration
openclaw_integration = record {
  descriptor = record {
    app = AppType.open_claw;
    id = codes "openclaw";
    display_name = "OpenClaw";
    brand_key = "openclaw";
    config_root = home_relative ".openclaw";
    configuration_mode = additive;
    capabilities = provider_management ∷ live_configuration ∷ prompts ∷ [];
    default_model_fetch_spec = some bearer_compatible;
    aliases = [];
  };
  targets = open_claw_config ∷ [];
}

abbrev pub hermes_integration : AppIntegration
hermes_integration = record {
  descriptor = record {
    app = AppType.hermes;
    id = codes "hermes";
    display_name = "Hermes";
    brand_key = "hermes";
    config_root = host_defined;
    configuration_mode = additive;
    capabilities = provider_management ∷ live_configuration ∷ mcp ∷ prompts ∷ skills ∷ [];
    default_model_fetch_spec = some bearer_compatible;
    aliases = [];
  };
  targets = hermes_config ∷ [];
}

abbrev pub pi_integration : AppIntegration
pi_integration = record {
  descriptor = record {
    app = AppType.pi;
    id = codes "pi";
    display_name = "Pi";
    brand_key = "pi";
    config_root = home_relative ".pi/agent";
    configuration_mode = additive;
    capabilities = provider_management ∷ live_configuration ∷ prompts ∷ skills ∷ [];
    default_model_fetch_spec = some bearer_compatible;
    aliases = [];
  };
  targets = pi_models ∷ [];
}

-- `BUILTIN_APP_INTEGRATIONS`, in display order
abbrev pub builtin_app_integrations : List AppIntegration
builtin_app_integrations =
    claude_integration ∷ claude_desktop_integration ∷ codex_integration ∷ gemini_integration
    ∷ grokbuild_integration ∷ opencode_integration ∷ openclaw_integration ∷ hermes_integration
    ∷ pi_integration ∷ []

abbrev entry_or_first : Option AppIntegration → AppIntegration
entry_or_first (some integration) = integration
entry_or_first none = claude_integration

-- The table's entry at the application's index. Rust's indexing panics out of range, which no
-- application's index is; the model takes the first entry there.
unfoldable pub builtin_app_integration : AppType → AppIntegration
unfolding app_index
builtin_app_integration app = entry_or_first (get_elem? builtin_app_integrations (app_index app))

unfoldable pub descriptor_for : AppType → AppDescriptor
unfolding builtin_app_integration
descriptor_for app = (builtin_app_integration app).descriptor

-- `AppType::as_str`
unfoldable pub as_str : AppType → Text
unfolding descriptor_for
as_str app = (descriptor_for app).id

-- `AppDescriptor::supports`
unfoldable pub supports : AppDescriptor → AppCapability → Bool
supports descriptor capability = contains descriptor.capabilities capability

-- `AppType::supports_local_proxy`
unfoldable pub supports_local_proxy : AppType → Bool
unfolding descriptor_for supports capability_beq
supports_local_proxy app = supports (descriptor_for app) local_proxy

is_additive : ProviderConfigurationMode → Bool
is_additive additive = true
is_additive switch = false

-- `AppType::is_additive_mode`
unfoldable pub is_additive_mode : AppType → Bool
unfolding descriptor_for is_additive
is_additive_mode app = is_additive (descriptor_for app).configuration_mode

-- `BuiltinAppRegistry::descriptors`
abbrev pub descriptors : List AppDescriptor
descriptors = map (λ integration. integration.descriptor) builtin_app_integrations

-- `AppType::all`
abbrev pub all_apps : List AppType
all_apps = map (λ descriptor. descriptor.app) descriptors

unfoldable pub matches_id : AppDescriptor → Text → Bool
matches_id descriptor normalized =
    descriptor.id == normalized || contains descriptor.aliases normalized

-- `BuiltinAppRegistry::find`; `unicode` is the argument of `to_lowercase`.
unfoldable pub find_descriptor : (Text → Text) → Text → Option AppDescriptor
find_descriptor unicode id =
    find (λ descriptor. matches_id descriptor (to_lowercase unicode (trim id))) descriptors

abbrev pub or_unsupported : Text → Option AppDescriptor → Result Text AppType
or_unsupported normalized (some descriptor) = ok descriptor.app
or_unsupported normalized none = err normalized

-- `AppType::from_str`: the error carries the normalized identifier.
unfoldable pub from_str : (Text → Text) → Text → Result Text AppType
from_str unicode value =
    let normalized = to_lowercase unicode (trim value) in
    or_unsupported normalized (find_descriptor unicode normalized)
