-- ===== src/Registry.antt =====
-- The built-in application registry (src/registry.rs), the integration catalog that it reads
-- (src/integration.rs, and the `INTEGRATION` constant of each application's module), and
-- `AppType`'s parsing (src/app_type.rs). Of an integration the descriptor's identity, mode,
-- capabilities, root and aliases and the targets are here; its MCP and Skill contracts, its form
-- and the functions that it points to are not.
pub mod Catalog
pub mod Lookup
mod Examples
pub mod Targets
