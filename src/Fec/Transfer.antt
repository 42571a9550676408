-- ===== src/Fec/Transfer.antt =====
-- Sending and receiving one object over the data plane, src/aftp/fec/transfer.rs.
pub mod Blocks
pub mod Channel
pub mod Receiver
pub mod Fountain
pub mod Counting
pub mod Regions
pub mod Serving
pub mod Settling
pub mod Reassembly
pub mod Window
pub mod Weights
pub mod Nearing
pub mod Totality
pub mod Flowing
pub mod Liveness
pub mod Potential
pub mod Repair
