-- ===== src/Frame/Assembly.antt =====
-- Proofs on `FrameAssembler` of src/aftp/frame.rs.
pub mod Reads
pub mod Progress
pub mod Header
pub mod Delivery
