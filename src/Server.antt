-- ===== src/Server.antt =====
-- State that the AFTP server of src/aftp/server.rs keeps across connections.
pub mod RateLimit
pub mod Tally
pub mod Lockout
pub mod Sessions
pub mod Resume
pub mod Texts
pub mod Effects
pub mod Negotiation
pub mod Handshake
pub mod Connection
pub mod Agreeing
pub mod Proving
pub mod Admission
pub mod Unlimited
pub mod Rooted
pub mod Dotless
pub mod Enclosed
