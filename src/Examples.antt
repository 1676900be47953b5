-- ===== src/Examples.antt =====
-- Runs of the definitions on concrete inputs, and the theorems applied to them.
pub mod Packets
pub mod Wires
pub mod Tables
pub mod EmbeddedTables
pub mod States
pub mod Stores
pub mod Routes
pub mod Streams
pub mod Clients
pub mod Loops
