-- ===== src/Sapi.antt =====
-- SAPI/, the client of the S7 programming interface.
pub mod Swap
pub mod Env
pub mod Transfer
pub mod Data
pub mod Store
pub mod Connection
pub mod Library
