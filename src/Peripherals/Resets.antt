-- ===== src/Peripherals/Resets.antt =====
-- The RESETS block: peripherals/resets.h and resets.cpp.
use rp2040_simlator.Base.{ℕ, ◌==◌, refl, if◌then◌else◌, bit_and, and_not}
use rp2040_simlator.Core.Bus.{BusWidth, BusStatus, BusResult, good}
use rp2040_simlator.Core.Atomic.{Registers, Storage}

abbrev pub k_all_periphs : ℕ
k_all_periphs = 0x01FF_FFFF

pub record Resets : Type 0 where
  pub reset : ℕ
  pub wdsel : ℕ

abbrev pub fresh : Resets
fresh = record { reset = k_all_periphs; wdsel = 0 }

unfoldable pub reg_read : Resets → ℕ → BusWidth → BusResult × Resets
reg_read s reg w = (
  good (
      if reg == 0x00
      then s.reset
      else if reg == 0x04
      then s.wdsel
      else if reg == 0x08
      then and_not k_all_periphs s.reset
      else 0),
  s,
)

unfoldable pub reg_write : Resets → ℕ → ℕ → BusWidth → BusStatus × Resets
reg_write s reg value w = (
  BusStatus.ok,
  if reg == 0x00
      then record s { reset = bit_and value k_all_periphs }
      else if reg == 0x04
      then record s { wdsel = bit_and value k_all_periphs }
      else s,
)

abbrev pub registers : Registers Resets
registers = record { reg_read = reg_read; reg_write = reg_write }

-- RESET and WDSEL read back what is written to them.
pub reset-Storage : Storage registers 0x00 k_all_periphs
unfolding reg_read reg_write
reset-Storage = record { view = λ s. s.reset; reads = λ s w. refl; writes = λ s v w. refl }

pub wdsel-Storage : Storage registers 0x04 k_all_periphs
unfolding reg_read reg_write
wdsel-Storage = record { view = λ s. s.wdsel; reads = λ s w. refl; writes = λ s v w. refl }
