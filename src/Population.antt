-- ===== src/Population.antt =====
-- What main.go makes of the template: the calls of kubectl that populate a tenant or the main cluster.
pub mod Ports
pub mod Calls
pub mod Tenant
pub mod Main
pub mod Prepared
pub mod Patch
