-- ===== src/App/Target.antt =====
-- `LogicalTarget` and `ConfigFormat` (src/operation.rs), `NativeResourcePath` (src/resource.rs).
use cc_switch_core.App.{
  AppType, claude, claude_desktop, codex, gemini, grok_build, open_code, open_claw, hermes, pi, Eq,
  Bool, String, nat_beq, true, index_beq_iff,
}
use cc_switch_core.Base.{
  ℕ, String, ◌≡◌, refl, sym, ap, ◌∙◌, ◌↔◌, Bool, true, false, none, some, List, [], ◌∷◌, Eq,
  nat_beq, get_elem?,
}

pub data LogicalTarget : Type 0 where
  claude_settings claude_desktop_normal_config claude_desktop_threep_config : LogicalTarget
  claude_desktop_profile claude_desktop_meta codex_auth codex_config : LogicalTarget
  codex_model_catalog gemini_env gemini_settings grok_config open_code_config : LogicalTarget
  open_claw_config hermes_config pi_models : LogicalTarget

-- `LogicalTarget::ALL`
abbrev pub all_targets : List LogicalTarget
all_targets =
    claude_settings ∷ claude_desktop_normal_config ∷ claude_desktop_threep_config
    ∷ claude_desktop_profile ∷ claude_desktop_meta ∷ codex_auth ∷ codex_config ∷ codex_model_catalog
    ∷ gemini_env ∷ gemini_settings ∷ grok_config ∷ open_code_config ∷ open_claw_config
    ∷ hermes_config ∷ pi_models ∷ []

-- `LogicalTarget::app`
unfoldable pub app : LogicalTarget → AppType
app claude_settings = claude
app claude_desktop_normal_config = claude_desktop
app claude_desktop_threep_config = claude_desktop
app claude_desktop_profile = claude_desktop
app claude_desktop_meta = claude_desktop
app codex_auth = codex
app codex_config = codex
app codex_model_catalog = codex
app gemini_env = gemini
app gemini_settings = gemini
app grok_config = grok_build
app open_code_config = open_code
app open_claw_config = open_claw
app hermes_config = hermes
app pi_models = pi

pub data NativeResourcePath : Type 0 where
  config_root_relative : String → List String → NativeResourcePath
  host_defined : NativeResourcePath

relative : String → NativeResourcePath
relative preferred = config_root_relative preferred []

-- `LogicalTarget::resource_path`
unfoldable pub resource_path : LogicalTarget → NativeResourcePath
unfolding relative
resource_path claude_settings = config_root_relative "settings.json" ("claude.json" ∷ [])
resource_path codex_auth = relative "auth.json"
resource_path codex_config = relative "config.toml"
resource_path codex_model_catalog = relative "cc-switch-model-catalog.json"
resource_path gemini_env = relative ".env"
resource_path gemini_settings = relative "settings.json"
resource_path grok_config = relative "config.toml"
resource_path open_code_config = relative "opencode.json"
resource_path open_claw_config = relative "openclaw.json"
resource_path hermes_config = relative "config.yaml"
resource_path pi_models = relative "models.json"
resource_path claude_desktop_normal_config = host_defined
resource_path claude_desktop_threep_config = host_defined
resource_path claude_desktop_profile = host_defined
resource_path claude_desktop_meta = host_defined

pub data ConfigFormat : Type 0 where
  json json5 toml env yaml : ConfigFormat

-- `LogicalTarget::format`
unfoldable pub format : LogicalTarget → ConfigFormat
format codex_config = toml
format grok_config = toml
format gemini_env = env
format open_claw_config = json5
format hermes_config = yaml
format _ = json

-- `LogicalTarget::allows_removal`
unfoldable pub allows_removal : LogicalTarget → Bool
allows_removal claude_desktop_profile = true
allows_removal codex_auth = true
allows_removal codex_model_catalog = true
allows_removal _ = false

-- The position of a target in `LogicalTarget::ALL`.
unfoldable pub target_index : LogicalTarget → ℕ
target_index claude_settings = 0
target_index claude_desktop_normal_config = 1
target_index claude_desktop_threep_config = 2
target_index claude_desktop_profile = 3
target_index claude_desktop_meta = 4
target_index codex_auth = 5
target_index codex_config = 6
target_index codex_model_catalog = 7
target_index gemini_env = 8
target_index gemini_settings = 9
target_index grok_config = 10
target_index open_code_config = 11
target_index open_claw_config = 12
target_index hermes_config = 13
target_index pi_models = 14

target_at : ℕ → LogicalTarget
target_at n = elim (get_elem? all_targets n) [ none ↦ pi_models | some t ↦ t ]

target_at-index : (t : LogicalTarget) → target_at (target_index t) ≡ t
unfolding target_at target_index
target_at-index claude_settings = refl
target_at-index _ = refl

target_index-injective : (a b : LogicalTarget) → target_index a ≡ target_index b → a ≡ b
target_index-injective a b h = sym (target_at-index a) ∙ ap target_at h ∙ target_at-index b

unfoldable pub target_beq : LogicalTarget → LogicalTarget → Bool
unfolding target_index
target_beq a b = nat_beq (target_index a) (target_index b)

pub target_beq_iff : (a b : LogicalTarget) → (target_beq a b ≡ true) ↔ (a ≡ b)
unfolding target_beq
target_beq_iff = index_beq_iff target_index target_index-injective

instance abbrev pub target_eq : Eq LogicalTarget
target_eq = record { eqb = target_beq; eqb_iff = target_beq_iff }
