-- ===== src/Kwok.antt =====
-- kwok_integration.go: the manager of the KWOK clusters.
pub mod Anonymous
pub mod Names
pub mod Populate
pub mod Manager
pub mod Disk
pub mod Main
pub mod Tuning
pub mod Manifests
pub mod Processes
