-- ===== src/Peripherals/Rosc.antt =====
-- The ring oscillator: `Rosc` of peripherals/clocks.h and clocks.cpp.
use rp2040_simlator.Base.{
  ℕ, ◌+◌, ◌/◌, ◌%◌, ◌^◌, Bool, true, false, not, ◌==◌, if◌then◌else◌, test_bit, of_bool,
}
use rp2040_simlator.Core.Bus.{BusStatus, BusResult, good}

-- 6.5 MHz.
abbrev pub k_nominal_hz : ℕ
k_nominal_hz = 6_500_000

pub record Rosc : Type 0 where
  pub ctrl : ℕ
  pub freqa : ℕ
  pub freqb : ℕ
  pub dormant : ℕ
  pub div : ℕ
  pub phase : ℕ
  pub badwrite : Bool
  pub randbit : Bool

abbrev pub fresh_rosc : Rosc
fresh_rosc = record {
  ctrl = 0;
  freqa = 0;
  freqb = 0;
  dormant = 0x7761_6B65;
  div = 0xAA0;
  phase = 8;
  badwrite = false;
  randbit = true;
}

unfoldable pub enabled : Rosc → Bool
enabled r = not (r.ctrl / 2 ^ 12 % 2 ^ 12 == 0xD1E)

unfoldable pub reg_read : Rosc → ℕ → BusResult × Rosc
reg_read r reg =
    if reg == 0x1C then (good (of_bool r.randbit), record r { randbit = not r.randbit }) else (
      good (
          if reg == 0x00
          then r.ctrl
          else if reg == 0x04
          then r.freqa
          else if reg == 0x08
          then r.freqb
          else if reg == 0x0C
          then r.dormant
          else if reg == 0x10
          then r.div
          else if reg == 0x14
          then r.phase
          else if reg == 0x18
          then (if enabled r then 2 ^ 12 + 2 ^ 16 + 2 ^ 31 else 0)
            + (if r.badwrite then 2 ^ 24 else 0)
          else 0),
      r,
    )

-- FREQA and FREQB take a write only with the password in its upper half.
abbrev pub has_password : ℕ → Bool
has_password value = value / 2 ^ 16 % 2 ^ 16 == 0x9696

unfoldable pub reg_write : Rosc → ℕ → ℕ → BusStatus × Rosc
reg_write r reg value = (
  BusStatus.ok,
  if reg == 0x00
      then record r { ctrl = value }
      else if reg == 0x04
      then (if has_password value
          then record r { freqa = value % 2 ^ 16 }
          else record r { badwrite = true })
      else if reg == 0x08
      then (if has_password value
          then record r { freqb = value % 2 ^ 16 }
          else record r { badwrite = true })
      else if reg == 0x0C
      then record r { dormant = value }
      else if reg == 0x10
      then record r { div = value % 2 ^ 12 }
      else if reg == 0x14
      then record r { phase = value % 2 ^ 12 }
      else if reg == 0x18
      then (if test_bit value 24 then record r { badwrite = false } else r)
      else r,
)
