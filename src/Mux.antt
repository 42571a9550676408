-- ===== src/Mux.antt =====
-- Many streams over one connection, src/aftp/mux.rs.
pub mod Channels
pub mod Session
pub mod Serving
pub mod Link
pub mod Routing
pub mod Holding
pub mod Carrying
pub mod Fifo
pub mod Ids
pub mod Numbered
pub mod Ending
pub mod Opening
