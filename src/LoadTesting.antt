-- ===== src/LoadTesting.antt =====
-- src/flight_delay/load_testing: synthetic traffic for the prediction API.
pub mod Requests
pub mod Traffic
mod Examples
