-- ===== src/Frame.antt =====
-- The AFTP wire protocol, src/aftp/frame.rs.
pub mod Utf8
pub mod Constants
pub mod Types
pub mod Wire
pub mod Reader
pub mod Yields
pub mod Payload
pub mod RoundTrip
pub mod Io
pub mod Exchange
pub mod Assembler
pub mod Assembly
