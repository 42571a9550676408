-- ===== src/Frame/Payload.antt =====
-- The payload builders and parsers of src/aftp/frame.rs, grouped by what the frames are for.
pub mod Session
pub mod Files
pub mod Streams
pub mod Fec
