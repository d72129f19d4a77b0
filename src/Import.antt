-- ===== src/Import.antt =====
-- The import manifest of a cluster, as transformImportYAML of main.go rewrites it for a tenant.
pub mod Value
pub mod Transform
pub mod Names
pub mod Refs
pub mod Fetch
