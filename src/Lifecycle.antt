-- ===== src/Lifecycle.antt =====
-- What main.go does for a cluster once it is connected: the parameters of its API server, the second
-- tunnel, and the calls that a real agent makes.
pub mod Params
pub mod Tunnel
pub mod Marks
pub mod Dial
pub mod Config
pub mod Steps
