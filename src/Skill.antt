-- ===== src/Skill.antt =====
-- Installed skills: the shared catalog's rows (src/skill/catalog.rs) and the plan that switches one
-- for an application (src/skill/write.rs).
pub mod Catalog
pub mod CatalogLaws
pub mod Switch
pub mod Live
pub mod Steps
pub mod LiveLaws
pub mod Atomic
mod Examples
