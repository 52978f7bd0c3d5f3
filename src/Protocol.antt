-- ===== src/Protocol.antt =====
-- Theorems about the parts together: an act from the authority to the sink (authority.py, sink.py).
pub mod Crossing
pub mod Binding
pub mod History
pub mod BytesTag
pub mod Agreement
pub mod Provenance
pub mod Delivery
pub mod Possession
pub mod Clash
