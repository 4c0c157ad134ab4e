-- ===== src/Peripherals/Pads.antt =====
-- The pads' registers: peripherals/padsbank0.h and padsbank0.cpp.
use rp2040_simlator.Base.{
  ℕ, zero, suc, ◌+◌, ◌-◌, ◌/◌, ◌%◌, ◌^◌, Bool, ◌&&◌, List, ltb, leb, ◌==◌, if◌then◌else◌, get_or,
  set, replicate, test_bit,
}
use rp2040_simlator.Core.Bus.{BusWidth, BusStatus, BusResult, good}
use rp2040_simlator.Core.Atomic.{Registers}
use rp2040_simlator.Peripherals.Gpio.{Gpio, set_pulls, k_num_pins}

pub record PadsBank0 : Type 0 where
  pub gpio : Gpio
  pub voltage_select : ℕ
  pub pad : List ℕ

-- The constructor sets the registers and leaves the pulls of the pads.
unfoldable pub fresh : Gpio → PadsBank0
fresh g = record { gpio = g; voltage_select = 0; pad = replicate k_num_pins 0x56 }

-- The loop of `reset` over the pins from one on: 0x56 has the pull-down and not the pull-up.
unfoldable pub reset_pulls : ℕ → ℕ → Gpio → Gpio
reset_pulls zero pin g = g
reset_pulls (suc left) pin g =
    reset_pulls left (pin + 1) (set_pulls g pin (test_bit 0x56 3) (test_bit 0x56 2))

unfoldable pub reset : PadsBank0 → PadsBank0
reset p = record {
  gpio = reset_pulls k_num_pins 0 p.gpio;
  voltage_select = 0;
  pad = replicate k_num_pins 0x56;
}

-- GPIO0 to GPIO29 stand from 0x04 on.
abbrev pub is_pad : ℕ → Bool
is_pad reg = leb 0x04 reg && ltb reg 0x7C

unfoldable pub reg_read : PadsBank0 → ℕ → BusWidth → BusResult × PadsBank0
reg_read p reg w = (
  good (
      if reg == 0x00
      then p.voltage_select
      else if is_pad reg
      then get_or p.pad ((reg - 0x04) / 4) 0
      else 0),
  p,
)

unfoldable pub reg_write : PadsBank0 → ℕ → ℕ → BusWidth → BusStatus × PadsBank0
reg_write p reg value w =
    let pin = (reg - 0x04) / 4 in
    (
      BusStatus.ok,
      if reg == 0x00
          then record p { voltage_select = value }
          else if is_pad reg
          then record p {
            pad = set p.pad pin (value % 2 ^ 8);
            gpio = set_pulls p.gpio pin (test_bit value 3) (test_bit value 2);
          }
          else p,
    )

abbrev pub registers : Registers PadsBank0
registers = record { reg_read = reg_read; reg_write = reg_write }
