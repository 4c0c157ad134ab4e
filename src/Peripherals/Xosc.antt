-- ===== src/Peripherals/Xosc.antt =====
-- The crystal oscillator: `Xosc` of peripherals/clocks.h and clocks.cpp.
use rp2040_simlator.Base.{ℕ, ◌+◌, ◌/◌, ◌%◌, ◌^◌, Bool, ◌==◌, if◌then◌else◌}
use rp2040_simlator.Core.Bus.{BusStatus, BusResult, good}

-- 12 MHz.
abbrev pub k_crystal_hz : ℕ
k_crystal_hz = 12_000_000

pub record Xosc : Type 0 where
  pub ctrl : ℕ
  pub startup : ℕ

-- ENABLE is 0xFAB in bits 12 to 23.
unfoldable pub stable : Xosc → Bool
stable x = x.ctrl / 2 ^ 12 % 2 ^ 12 == 0xFAB

unfoldable pub reg_read : Xosc → ℕ → BusResult
reg_read x reg = good (
    if reg == 0x00
    then x.ctrl
    else if reg == 0x04
    then (if stable x then 2 ^ 31 + 2 ^ 12 else 0)
    else if reg == 0x0C
    then x.startup
    else 0)

unfoldable pub reg_write : Xosc → ℕ → ℕ → BusStatus × Xosc
reg_write x reg value = (
  BusStatus.ok,
  if reg == 0x00
      then record x { ctrl = value }
      else if reg == 0x0C
      then record x { startup = value }
      else x,
)
