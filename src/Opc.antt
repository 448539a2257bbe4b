-- ===== src/Opc.antt =====
-- OpcS7/, the client of an OPC server.
pub mod Frame
pub mod Params
pub mod Request
pub mod Answer
pub mod Items
pub mod Register
pub mod Objects
pub mod Group
pub mod Join
pub mod Single
pub mod Server
pub mod Session
pub mod Globals
pub mod Library
pub mod Exports
