-- ===== src/Examples.antt =====
-- Runs on concrete inputs, and the theorems at them.
mod Device
mod Sapi
mod Opc
mod Items
mod Register
mod Calls
mod FullTable
mod Timer
mod Server
mod Library
