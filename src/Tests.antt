-- ===== src/Tests.antt =====
-- Runs of the modelled code on concrete inputs.
mod Kwok
mod Proxy
mod Persist
mod Agent
mod Restart
mod Population
mod Rancher
mod Import
mod Configuration
mod Readiness
mod Startup
mod Credentials
mod Tuning
mod Fetch
mod Manifests
mod MockApi
mod Connect
mod Lifecycle
mod Annotator
