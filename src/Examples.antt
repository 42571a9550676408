-- ===== src/Examples.antt =====
-- The theorems at concrete inputs, and tests of the definitions.
mod Frames
mod Payloads
mod Servers
mod Datagrams
mod Globs
mod Paths
mod Transfers
mod Senders
mod Streams
mod Handshakes
mod Manifests
