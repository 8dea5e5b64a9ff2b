-- ===== src/App.antt =====
-- The built-in applications and their logical native documents: `AppType` (src/app_type.rs), the
-- registry's enumerations (src/registry.rs), `LogicalTarget` and `ConfigFormat`
-- (src/operation.rs) and the resource declarations (src/resource.rs).

pub mod Target
use cc_switch_core.Base.{
  ℕ, ◌≡◌, Option, none, some, String, nat_beq, index_beq_iff, Bool, true, arith, ◌↔◌, Eq,
}

pub data AppType : Type 0 where
  claude claude_desktop codex gemini grok_build open_code open_claw hermes pi : AppType

pub data AppCapability : Type 0 where
  provider_management live_configuration common_configuration local_proxy : AppCapability
  mcp prompts skills : AppCapability

pub data ProviderConfigurationMode : Type 0 where
  switch additive : ProviderConfigurationMode

pub data NativeConfigRoot : Type 0 where
  home_relative : String → NativeConfigRoot
  host_defined : NativeConfigRoot

-- `NativeConfigRoot::home_relative_path`
pub home_relative_path : NativeConfigRoot → Option String
home_relative_path (home_relative path) = some path
home_relative_path host_defined = none

-- The position of an application's integration in the catalog.
unfoldable pub app_index : AppType → ℕ
app_index claude = 0
app_index claude_desktop = 1
app_index codex = 2
app_index gemini = 3
app_index grok_build = 4
app_index open_code = 5
app_index open_claw = 6
app_index hermes = 7
app_index pi = 8

capability_index : AppCapability → ℕ
capability_index provider_management = 0
capability_index live_configuration = 1
capability_index common_configuration = 2
capability_index local_proxy = 3
capability_index mcp = 4
capability_index prompts = 5
capability_index skills = 6

app_index-injective : (a b : AppType) → app_index a ≡ app_index b → a ≡ b
unfolding app_index
app_index-injective a b h = ground arith

capability_index-injective : (a b : AppCapability) → capability_index a ≡ capability_index b → a ≡ b
unfolding capability_index
capability_index-injective a b h = ground arith

unfoldable pub app_beq : AppType → AppType → Bool
unfolding app_index
app_beq a b = nat_beq (app_index a) (app_index b)

pub app_beq_iff : (a b : AppType) → (app_beq a b ≡ true) ↔ (a ≡ b)
unfolding app_beq
app_beq_iff = index_beq_iff app_index app_index-injective

instance abbrev pub app_eq : Eq AppType
app_eq = record { eqb = app_beq; eqb_iff = app_beq_iff }

unfoldable pub capability_beq : AppCapability → AppCapability → Bool
unfolding capability_index
capability_beq a b = nat_beq (capability_index a) (capability_index b)

pub capability_beq_iff : (a b : AppCapability) → (capability_beq a b ≡ true) ↔ (a ≡ b)
unfolding capability_beq
capability_beq_iff = index_beq_iff capability_index capability_index-injective

instance abbrev pub capability_eq : Eq AppCapability
capability_eq = record { eqb = capability_beq; eqb_iff = capability_beq_iff }
