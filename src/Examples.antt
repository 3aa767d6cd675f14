-- ===== src/Examples.antt =====
-- Concrete inputs, and the theorems applied to them.
pub mod Buffers
pub mod Data
pub mod Flows
mod Concurrent
mod Cycle
mod Packets
mod Packets6
mod Overflow
mod Traffic
mod Keys
mod Kernel
mod Loader
mod Settings
mod Status
mod Startup
mod Offsets
