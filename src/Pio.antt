-- ===== src/Pio.antt =====
-- The programmable I/O blocks: src/pio of the repository.
pub mod Fifo
pub mod Decode
pub mod StateMachine
pub mod Block
pub mod Registers
mod Tests
