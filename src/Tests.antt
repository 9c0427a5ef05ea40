-- ===== src/Tests.antt =====
-- Runs of the models at concrete inputs: what each theorem says there.
pub mod Samples
pub mod Stores
pub mod Documents
pub mod Authorities
pub mod Endpoints
pub mod Tls
pub mod Published
pub mod Configured
pub mod Runs
pub mod Routes
pub mod Overlaps
pub mod Commands
pub mod Exits
pub mod Registered
pub mod Workers
pub mod Clients
pub mod Watches
pub mod Bundles
