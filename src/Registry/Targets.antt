-- ===== src/Registry/Targets.antt =====
-- Which documents the adapters manage: `AppAdapter::targets` (src/adapter.rs) against
-- `LogicalTarget::app` (src/operation.rs).
use cc_switch_core.Base.{nat_eq, list_eq, option_eq, string_eq, ◌≡◌, List, arith, ◌==◌, contains}
use cc_switch_core.App.{
  AppType, app_beq, app_eq, claude, claude_desktop, codex, gemini, grok_build, open_code, open_claw,
  hermes, pi,
}
use cc_switch_core.App.Target.{LogicalTarget, app, target_beq, target_eq}
use cc_switch_core.Registry.Catalog.{builtin_app_integration}

-- `AppAdapter::targets` of an application's adapter
unfoldable pub targets_of : AppType → List LogicalTarget
unfolding builtin_app_integration
targets_of app = (builtin_app_integration app).targets

-- An adapter declares exactly the documents that its application owns.
pub targets_of-contains : (a : AppType) (t : LogicalTarget) → contains (targets_of a) t ≡ app t == a
unfolding targets_of app target_beq app_beq
targets_of-contains claude t = ground arith
targets_of-contains claude_desktop t = ground arith
targets_of-contains codex t = ground arith
targets_of-contains gemini t = ground arith
targets_of-contains grok_build t = ground arith
targets_of-contains open_code t = ground arith
targets_of-contains open_claw t = ground arith
targets_of-contains hermes t = ground arith
targets_of-contains pi t = ground arith
