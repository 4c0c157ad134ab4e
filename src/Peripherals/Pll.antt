-- ===== src/Peripherals/Pll.antt =====
-- A PLL: `Pll` of peripherals/clocks.h and clocks.cpp.
use rp2040_simlator.Base.{
  ℕ, ◌*◌, ◌/◌, ◌%◌, ◌^◌, Bool, not, ◌&&◌, ◌||◌, ◌==◌, if◌then◌else◌, test_bit,
}
use rp2040_simlator.Base.Bits.{set_bit, clear_bit}
use rp2040_simlator.Core.Bus.{BusStatus, BusResult, good}

pub record Pll : Type 0 where
  pub cs : ℕ
  pub pwr : ℕ
  pub fbdiv : ℕ
  pub prim : ℕ

abbrev pub fresh_pll : Pll
fresh_pll = record { cs = 0; pwr = 0xFFFF_FFFF; fbdiv = 0; prim = 0x7_0700 }

unfoldable pub reset : Pll → Pll
reset p = fresh_pll

-- Not bypassed, and powered up.
unfoldable pub locked : Pll → Bool
locked p = not (test_bit p.cs 8) && not (test_bit p.pwr 0)

abbrev pub postdiv1 : Pll → ℕ
postdiv1 p = p.prim / 2 ^ 16 % 2 ^ 3

abbrev pub postdiv2 : Pll → ℕ
postdiv2 p = p.prim / 2 ^ 12 % 2 ^ 3

abbrev pub feedback_divider : Pll → ℕ
feedback_divider p = p.fbdiv % 2 ^ 12

-- 4095 times a reference of 12 MHz is far below 2^64.
unfoldable pub output_hz : Pll → ℕ → ℕ
output_hz p ref_hz =
    if not (locked p) || (feedback_divider p == 0) || (postdiv1 p == 0) || (postdiv2 p == 0)
    then 0
    else ref_hz * feedback_divider p / (postdiv1 p * postdiv2 p)

unfoldable pub reg_read : Pll → ℕ → BusResult
reg_read p reg =
    let cs = clear_bit p.cs 31 in
    good (
      if reg == 0x00
      then (if not (test_bit p.cs 8) && not (test_bit p.pwr 0) then set_bit cs 31 else cs)
      else if reg == 0x04
      then p.pwr
      else if reg == 0x08
      then p.fbdiv
      else if reg == 0x0C
      then p.prim
      else 0)

unfoldable pub reg_write : Pll → ℕ → ℕ → BusStatus × Pll
reg_write p reg value = (
  BusStatus.ok,
  if reg == 0x00
      then record p { cs = value }
      else if reg == 0x04
      then record p { pwr = value }
      else if reg == 0x08
      then record p { fbdiv = value % 2 ^ 12 }
      else if reg == 0x0C
      then record p { prim = value }
      else p,
)
