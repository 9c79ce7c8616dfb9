-- ===== src/Modeling.antt =====
-- src/flight_delay/modeling: the governed experiments, their protocol and their decisions.
pub mod Checks
pub mod Protocol
pub mod Ranking
pub mod Selection
