-- ===== src/Persistence.antt =====
-- src/flight_delay/persistence/dynamodb.py: the event repository.
pub mod Codec
pub mod Table
pub mod Repository
pub mod MemoryTable
mod Examples
