-- ===== src/Core.antt =====
-- The processor core: src/core and the headers it shares (include/thumb_isa.h, exceptions.h).
pub mod Registers
pub mod Alu
pub mod Bus
pub mod Memory
pub mod Thumb
pub mod Timing
pub mod Cpu
pub mod Interrupts
pub mod Atomic
pub mod Scs
mod Tests
