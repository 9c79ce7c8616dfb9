-- ===== src/Deployment.antt =====
-- src/flight_delay/deployment: what may be deployed.
pub mod Patterns
pub mod Manifest
mod Examples
