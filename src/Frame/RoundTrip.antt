-- ===== src/Frame/RoundTrip.antt =====
-- Proofs on the payload builders and parsers of src/aftp/frame.rs.
pub mod Session
pub mod Files
pub mod Streams
pub mod Fec
pub mod Listing
