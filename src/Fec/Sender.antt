-- ===== src/Fec/Sender.antt =====
-- The sender of one object over the data plane, src/aftp/fec/transfer.rs.
pub mod Line
pub mod Answering
pub mod Loop
pub mod Ledger
pub mod Turns
pub mod Finishing
pub mod Outcome
