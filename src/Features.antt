-- ===== src/Features.antt =====
-- src/flight_delay/features: which columns a model may read.
pub mod Leakage
mod Examples
