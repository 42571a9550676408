-- ===== src/Fec/Manifest.antt =====
-- Packed trees, src/aftp/fec/manifest.rs.
pub mod Merkle
pub mod Codec
pub mod Accepted
pub mod Packed
pub mod EntryWire
pub mod RoundTrip
pub mod Unpack
pub mod Destination
pub mod Unpacking
pub mod Traces
pub mod Authentic
pub mod Reading
pub mod Unpacked
pub mod Prefixed
pub mod Shipped
pub mod Build
pub mod Built
pub mod Served
pub mod Contents
pub mod Packing
pub mod Stream
