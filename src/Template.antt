-- ===== src/Template.antt =====
-- internal/template: keys, definitions and the registry of built templates.
pub mod Key
pub mod Registry
pub mod Def
pub mod Builder
