-- ===== src/Promotion.antt =====
-- src/flight_delay/promotion: which Registry version the serving alias may move to.
pub mod Keys
pub mod Candidates
pub mod Policy
pub mod Selector
pub mod Selection
pub mod Registry
pub mod Execute
mod Examples
mod InputExamples
mod RegistryExamples
mod RunExamples
