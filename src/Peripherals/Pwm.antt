-- ===== src/Peripherals/Pwm.antt =====
-- The eight PWM slices: peripherals/pwm.h and pwm.cpp.
pub mod Rate
use rp2040_simlator.Base.{
  ℕ, zero, suc, ◌+◌, ◌-◌, ◌*◌, ◌/◌, ◌%◌, ◌^◌, Bool, true, false, not, ◌&&◌, ◌||◌, List, ltb, leb,
  ◌==◌, if◌then◌else◌, get_or, set, replicate, u16, u32, bit_and, bit_or, and_not, test_bit,
}
use rp2040_simlator.Base.Bits.{set_bit}
use rp2040_simlator.Core.Bus.{BusStatus, BusResult, good}
use rp2040_simlator.Core.Interrupts.{Cores, pend_all, clear_all}
use rp2040_simlator.Peripherals.Gpio.{Gpio, Driver, driver_set_pin, driver_set_pindir, func_level}

abbrev pub k_num_slices : ℕ
k_num_slices = 8

-- PWM_IRQ_WRAP is exception 20.
abbrev pub k_irq_wrap : ℕ
k_irq_wrap = 20

pub record Slice : Type 0 where
  pub csr : ℕ
  pub div : ℕ
  pub ctr : ℕ
  pub cc_a : ℕ
  pub cc_b : ℕ
  pub top : ℕ
  pub frac_accum : ℕ
  pub counting_down : Bool
  pub prev_b : Bool

abbrev pub fresh_slice : Slice
fresh_slice = record {
  csr = 0;
  div = 0x10;
  ctr = 0;
  cc_a = 0;
  cc_b = 0;
  top = 0xFFFF;
  frac_accum = 0;
  counting_down = false;
  prev_b = false;
}

pub record Pwm : Type 0 where
  pub slices : List Slice
  pub enable : ℕ
  pub intr : ℕ
  pub inte : ℕ
  pub intf : ℕ
  pub gpio : Gpio
  pub nvic : List ℕ
  pub cpus : Cores

-- Slice s; the numbers that the source uses are below 8.
abbrev pub slice : Pwm → ℕ → Slice
slice p s = get_or p.slices s fresh_slice

-- DIVMODE: 0 is free, 1 level, 2 rise, 3 fall.
abbrev pub div_mode : Slice → ℕ
div_mode sl = sl.csr / 2 ^ 4 % 4

abbrev pub differ : Bool → Bool → Bool
differ a b = if a then not b else b

-- A pin's direction, and then its level.
abbrev pub drive_pin : ℕ → Bool → Bool → Gpio → Gpio
drive_pin pin output high g =
    driver_set_pin (driver_set_pindir g Driver.pwm pin output) Driver.pwm pin high

unfoldable pub outputs : ℕ → Slice → Gpio → Gpio
outputs s sl g =
    let b_is_output = div_mode sl == 0 in
    let a_hi = differ (ltb sl.ctr sl.cc_a) (test_bit sl.csr 2) in
    let b_hi = b_is_output && differ (ltb sl.ctr sl.cc_b) (test_bit sl.csr 3) in
    drive_pin (2 * s + 1 + 16) b_is_output b_hi (
      drive_pin (2 * s + 1) b_is_output b_hi
        (drive_pin (2 * s + 16) true a_hi (drive_pin (2 * s) true a_hi g)))

unfoldable pub update_outputs : ℕ → Pwm → Pwm
update_outputs s p = record p { gpio = outputs s (slice p s) p.gpio }

-- `++ctr` and `--ctr` on uint16_t.
abbrev pub up : Slice → Slice
up sl = record sl { ctr = u16 (sl.ctr + 1) }

abbrev pub down : Slice → Slice
down sl = record sl { ctr = u16 (sl.ctr + 2 ^ 16 - 1) }

-- One count forward, and whether it wraps.
unfoldable pub forward : Slice → Bool × Slice
forward sl =
    if test_bit sl.csr 1
    then (if sl.counting_down
        then (if sl.ctr == 0
            then (true, up (record sl { counting_down = false }))
            else (false, down sl))
        else (
          false,
          if leb sl.top sl.ctr then down (record sl { counting_down = true }) else up sl,
        ))
    else (if leb sl.top sl.ctr then (true, record sl { ctr = 0 }) else (false, up sl))

-- One count backward.
unfoldable pub backward : Slice → Slice
backward sl =
    if test_bit sl.csr 1
    then (if sl.counting_down
        then (if leb sl.top sl.ctr then down (record sl { counting_down = false }) else up sl)
        else (if sl.ctr == 0 then up (record sl { counting_down = true }) else down sl))
    else (if sl.ctr == 0 then record sl { ctr = sl.top } else down sl)

unfoldable pub advance_slice : ℕ → Pwm → Pwm
advance_slice s p =
    let (wrapped, sl) = forward (slice p s) in
    update_outputs s
      (record p { slices = set p.slices s sl; intr = if wrapped then set_bit p.intr s else p.intr })

unfoldable pub retard_slice : ℕ → Pwm → Pwm
retard_slice s p = update_outputs s (record p { slices = set p.slices s (backward (slice p s)) })

unfoldable pub refresh_irq : Pwm → Pwm
refresh_irq p =
    let mis = bit_and (bit_or p.intr p.intf) p.inte in
    record p {
      cpus =
          if mis == 0
          then clear_all p.nvic k_irq_wrap p.cpus
          else pend_all p.nvic k_irq_wrap p.cpus;
    }

-- The clocks that a count takes, in sixteenths.
abbrev pub period : Slice → ℕ
period sl = let n = sl.div / 2 ^ 4 % 2 ^ 8 in (if n == 0 then 1 else n) * 16

-- One clock of the divider, and whether the slice counts.
unfoldable pub pace : Slice → Bool × Slice
pace sl =
    let acc = u32 (sl.frac_accum + (16 + sl.div % 2 ^ 4)) in
    if leb (period sl) acc
    then (true, record sl { frac_accum = acc - period sl })
    else (false, record sl { frac_accum = acc })

-- One system clock of a slice that is enabled.
unfoldable pub clock_slice : ℕ → Pwm → Pwm
clock_slice s p =
    let sl = slice p s in
    let mode = div_mode sl in
    let b = func_level p.gpio (2 * s + 1) in
    let edge = if mode == 2 then b && not sl.prev_b else not b && sl.prev_b in
    let seen = record p { slices = set p.slices s (record sl { prev_b = b }) } in
    let (due, sl') = pace sl in
    let paced = record p { slices = set p.slices s sl' } in
    if leb 2 mode
    then (if edge then advance_slice s seen else seen)
    else if mode == 1 && not b
    then p
    else if due
    then advance_slice s paced
    else paced

unfoldable pub clock_from : ℕ → ℕ → Pwm → Pwm
clock_from zero s p = p
clock_from (suc left) s p =
    clock_from left (s + 1)
      (if test_bit p.enable s || test_bit (slice p s).csr 0 then clock_slice s p else p)

unfoldable pub clocks : ℕ → Pwm → Pwm
clocks zero p = p
clocks (suc n) p = clocks n (clock_from k_num_slices 0 p)

unfoldable pub on_cycles : Pwm → ℕ → Pwm
on_cycles p sys_cycles = refresh_irq (clocks sys_cycles p)

unfoldable pub outputs_from : ℕ → ℕ → Pwm → Pwm
outputs_from zero s p = p
outputs_from (suc left) s p = outputs_from left (s + 1) (update_outputs s p)

unfoldable pub reset : Pwm → Pwm
reset p = refresh_irq (
    outputs_from k_num_slices 0 (record p {
      slices = replicate k_num_slices fresh_slice;
      enable = 0;
      intr = 0;
      inte = 0;
      intf = 0;
    }))

-- A slice has CSR, DIV, CTR, CC and TOP, at 20 bytes each.
unfoldable pub read_slice : Slice → ℕ → ℕ
read_slice sl place =
    if place == 0x00
    then sl.csr
    else if place == 0x04
    then sl.div
    else if place == 0x08
    then sl.ctr
    else if place == 0x0C
    then sl.cc_a + sl.cc_b * 2 ^ 16
    else if place == 0x10
    then sl.top
    else 0

unfoldable pub reg_read : Pwm → ℕ → BusResult
reg_read p offset = good (
    if ltb offset 0xA0
    then read_slice (slice p (offset / 0x14)) (offset % 0x14)
    else if offset == 0xA0
    then p.enable
    else if offset == 0xA4
    then p.intr
    else if offset == 0xA8
    then p.inte
    else if offset == 0xAC
    then p.intf
    else if offset == 0xB0
    then bit_and (bit_or p.intr p.intf) p.inte
    else 0)

-- A write to CSR; the strobes PH_ADV and PH_RET are not kept.
unfoldable pub write_csr : ℕ → ℕ → Pwm → Pwm
write_csr s value p =
    let kept = record (slice p s) { csr = and_not value 0xC0 } in
    let q = record p { slices = set p.slices s kept } in
    update_outputs s (
      if test_bit value 6
      then advance_slice s q
      else if test_bit value 7
      then retard_slice s q
      else q)

unfoldable pub write_slice : ℕ → ℕ → ℕ → Pwm → Pwm
write_slice s place value p =
    let sl = slice p s in
    let put = λ (l : Slice). record p { slices = set p.slices s l } in
    if place == 0x00
    then write_csr s value p
    else if place == 0x04
    then put (record sl { div = value % 2 ^ 12 })
    else if place == 0x08
    then update_outputs s (put (record sl { ctr = u16 value; counting_down = false }))
    else if place == 0x0C
    then update_outputs s (put (record sl { cc_a = u16 value; cc_b = u16 (value / 2 ^ 16) }))
    else if place == 0x10
    then put (record sl { top = u16 value })
    else p

unfoldable pub reg_write : Pwm → ℕ → ℕ → BusStatus × Pwm
reg_write p offset value = (
  BusStatus.ok,
  if ltb offset 0xA0
      then write_slice (offset / 0x14) (offset % 0x14) value p
      else if offset == 0xA0
      then record p { enable = value % 2 ^ 8 }
      else if offset == 0xA4
      then refresh_irq (record p { intr = and_not p.intr value })
      else if offset == 0xA8
      then refresh_irq (record p { inte = value % 2 ^ 8 })
      else if offset == 0xAC
      then refresh_irq (record p { intf = value % 2 ^ 8 })
      else p,
)
