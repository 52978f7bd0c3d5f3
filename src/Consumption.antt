-- ===== src/Consumption.antt =====
-- src/finality_ref/state.py and sink.py: the stores of consumed capabilities. `ConsumptionStore` is
-- the protocol that the sink knows; `Memory` and `Sqlite` implement it.
mod Interface
pub mod Memory
pub mod Sqlite
pub use Interface.*
