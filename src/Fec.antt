-- ===== src/Fec.antt =====
-- The fountain-coded data plane, src/aftp/fec/.
pub mod Codec
pub mod Encoder
pub mod Parameters
pub mod Layout
pub mod Symcrypto
pub mod Envelope
pub mod Secrecy
pub mod Delivery
pub mod Paths
pub mod Containment
pub mod Manifest
pub mod Transfer
pub mod Sender
