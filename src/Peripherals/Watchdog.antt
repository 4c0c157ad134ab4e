-- ===== src/Peripherals/Watchdog.antt =====
-- The watchdog: peripherals/watchdog.h and watchdog.cpp.
pub mod Timeout
use rp2040_simlator.Base.{
  ℕ, zero, suc, ◌+◌, ◌-◌, ◌*◌, ◌/◌, ◌%◌, ◌^◌, Bool, true, false, ◌&&◌, List, ltb, leb, ◌==◌,
  if◌then◌else◌, get_or, set, u64, test_bit, bit_and, bit_or, and_not, Option, none, some,
}
use rp2040_simlator.Core.Bus.{BusStatus, BusResult, good}

abbrev pub k_ctrl_enable : ℕ
k_ctrl_enable = 2 ^ 30

abbrev pub k_ctrl_time_mask : ℕ
k_ctrl_time_mask = 2 ^ 24 - 1

abbrev pub k_reason_timer : ℕ
k_reason_timer = 1

abbrev pub k_reason_force : ℕ
k_reason_force = 2

-- What the machine around the watchdog answers to its providers, `none` where none is set.
pub record Providers : Type 0 where
  pub wdsel : Option ℕ
  pub resets_wdsel : Option ℕ

-- What the callbacks of a reset are called with.
pub record Reset : Type 0 where
  pub reset_core1 : Bool
  pub peripherals : ℕ

pub record Watchdog : Type 0 where
  pub cycles_per_us : ℕ
  pub accum : ℕ
  pub load : ℕ
  pub counter : ℕ
  pub enabled : Bool
  pub ctrl : ℕ
  pub reason : ℕ
  pub tick : ℕ
  pub scratch : List ℕ

abbrev provided : Option ℕ → ℕ
provided none = 0
provided (some v) = v

-- PSM_WDSEL.PROC1 is bit 16.
unfoldable pub requested : Providers → Reset
requested p = record {
  reset_core1 = test_bit (provided p.wdsel) 16;
  peripherals = provided p.resets_wdsel;
}

unfoldable pub fire_reset : Providers → Watchdog → ℕ → Option Reset × Watchdog
fire_reset p w reason_bit =
    (some (requested p), record w { reason = reason_bit; counter = 0; enabled = false })

-- The loop of `on_cycles`, on fuel. The accumulator is enough of it where a microsecond has cycles.
unfoldable pub count_down : Providers → ℕ → Watchdog → Option Reset × Watchdog
count_down p zero w = (none, w)
count_down p (suc fuel) w =
    let ticked = record w { accum = w.accum - w.cycles_per_us } in
    let rest = count_down p fuel (record ticked { counter = w.counter - 2 }) in
    if leb w.cycles_per_us w.accum
    then (if leb w.counter 2 then fire_reset p ticked k_reason_timer else rest)
    else (none, w)

unfoldable pub on_cycles : Providers → ℕ → Watchdog → Option Reset × Watchdog
on_cycles p sys_cycles w =
    let acc = u64 (w.accum + sys_cycles) in
    let counted = count_down p acc (record w { accum = acc }) in
    if w.enabled then counted else (none, w)

unfoldable pub set_cycles_per_us : Watchdog → ℕ → Watchdog
set_cycles_per_us w c = record w { cycles_per_us = if c == 0 then 1 else c }

-- SCRATCH0 to SCRATCH7 stand at 0x0C to 0x28.
abbrev pub is_scratch : ℕ → Bool
is_scratch offset = leb 0x0C offset && ltb offset 0x2C

unfoldable pub bus_read : Watchdog → ℕ → BusResult
bus_read w offset = good (
    if offset == 0x00
    then bit_or (bit_or (and_not w.ctrl k_ctrl_time_mask) (bit_and w.counter k_ctrl_time_mask))
        (if w.enabled then k_ctrl_enable else 0)
    else if offset == 0x04
    then w.load
    else if offset == 0x08
    then w.reason
    else if offset == 0x2C
    then bit_or w.tick (2 ^ 10)
    else if is_scratch offset
    then get_or w.scratch ((offset - 0x0C) / 4) 0
    else 0)

unfoldable pub bus_write : Providers → Watchdog → ℕ → ℕ → Option Reset × Watchdog
bus_write p w offset value =
    let controlled = record w { ctrl = value; enabled = test_bit value 30 } in
    let time = bit_and value k_ctrl_time_mask in
    if offset == 0x00
    then (if test_bit value 31 then fire_reset p controlled k_reason_force else (none, controlled))
    else (
      none,
      if offset == 0x04
          then record w { load = time; counter = time }
          else if offset == 0x08
          then w
          else if offset == 0x2C
          then record w { tick = value }
          else if is_scratch offset
          then record w { scratch = set w.scratch ((offset - 0x0C) / 4) value }
          else w,
    )
