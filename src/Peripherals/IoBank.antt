-- ===== src/Peripherals/IoBank.antt =====
-- The pin functions and pin interrupts of GPIO bank 0: peripherals/iobank0.h and iobank0.cpp.
pub mod Edges
use rp2040_simlator.Base.{
  ℕ, zero, suc, ◌+◌, ◌-◌, ◌*◌, ◌/◌, ◌%◌, ◌^◌, Bool, true, false, not, ◌&&◌, ◌||◌, List, [], ◌∷◌,
  Option, none, some, ltb, leb, ◌==◌, if◌then◌else◌, get_or, set, replicate, bit_and, bit_or,
  and_not, test_bit,
}
use rp2040_simlator.Base.Bits.{set_bit}
use rp2040_simlator.Core.Bus.{BusStatus, BusResult, good}
use rp2040_simlator.Core.Cpu.{pend_exception, clear_pending}
use rp2040_simlator.Core.Interrupts.{Cores, at_core}
use rp2040_simlator.Peripherals.Gpio.{
  Gpio, k_num_pins, set_funcsel, set_overrides, irq_level, pad_level, level,
}

-- IO_IRQ_BANK0 is exception 29.
abbrev pub k_irq_bank0 : ℕ
k_irq_bank0 = 29

abbrev pub k_int_groups : ℕ
k_int_groups = 4

-- `inte` and `intf` are those of core 0 and of core 1, and `core0` and `core1` name cores of `cpus`.
pub record IoBank0 : Type 0 where
  pub gpio : Gpio
  pub ctrl : List ℕ
  pub intr : List ℕ
  pub inte0 : List ℕ
  pub inte1 : List ℕ
  pub intf0 : List ℕ
  pub intf1 : List ℕ
  pub core0 : Option ℕ
  pub core1 : Option ℕ
  pub cpus : Cores
  pub prev_level : ℕ
  pub primed : Bool

-- The loops of `all_edge_mask`, of the levels, and of the pins of a group, each from an index on.
-- A pin has four bits: LEVEL_LOW, LEVEL_HIGH, EDGE_LOW and EDGE_HIGH.
unfoldable pub edge_mask_from : ℕ → ℕ → ℕ → ℕ
edge_mask_from zero i m = m
edge_mask_from (suc left) i m =
    edge_mask_from left (i + 1) (set_bit (set_bit m (i * 4 + 2)) (i * 4 + 3))

unfoldable pub all_edge_mask : ℕ
all_edge_mask = edge_mask_from 8 0 0

unfoldable pub levels_from : Gpio → ℕ → ℕ → ℕ → ℕ
levels_from g zero pin v = v
levels_from g (suc left) pin v =
    levels_from g left (pin + 1) (if irq_level g pin then set_bit v pin else v)

unfoldable pub poll_pin : ℕ → ℕ → ℕ → ℕ → ℕ → ℕ → ℕ
poll_pin levels rising falling pin base v =
    let v1 = set_bit v (base + (if test_bit levels pin then 1 else 0)) in
    let v2 = if test_bit rising pin then set_bit v1 (base + 3) else v1 in
    if test_bit falling pin then set_bit v2 (base + 2) else v2

unfoldable pub poll_pins : ℕ → ℕ → ℕ → ℕ → ℕ → ℕ → ℕ → ℕ
poll_pins levels rising falling g zero k v = v
poll_pins levels rising falling g (suc left) k v =
    let pin = g * 8 + k in
    let rest =
      poll_pins levels rising falling g left (k + 1)
        (poll_pin levels rising falling pin (k * 4) v) in
    if leb k_num_pins pin then v else rest

unfoldable pub poll_groups : ℕ → ℕ → ℕ → ℕ → List ℕ → List ℕ
poll_groups levels rising falling g [] = []
poll_groups levels rising falling g (v ∷ vs) =
    poll_pins levels rising falling g 8 0 (bit_and v all_edge_mask)
    ∷ poll_groups levels rising falling (g + 1) vs

-- The bits of `any` over the groups, as the test whether there is one.
unfoldable pub asserted : List ℕ → List ℕ → List ℕ → Bool
asserted (r ∷ rs) (e ∷ es) (f ∷ fs) = not (bit_and (bit_or r f) e == 0) || asserted rs es fs
asserted _ _ _ = false

abbrev pub drive : Option ℕ → Bool → Cores → Cores
drive none any cs = cs
drive (some c) any cs =
    at_core (λ k. if any then pend_exception k k_irq_bank0 else clear_pending k k_irq_bank0) c cs

unfoldable pub refresh_irq : IoBank0 → IoBank0
refresh_irq b = record b {
  cpus =
      drive b.core1 (asserted b.intr b.inte1 b.intf1)
        (drive b.core0 (asserted b.intr b.inte0 b.intf0) b.cpus);
}

unfoldable pub poll : IoBank0 → IoBank0
poll b =
    let levels = levels_from b.gpio k_num_pins 0 0 in
    let rising = if b.primed then and_not levels b.prev_level else 0 in
    let falling = if b.primed then and_not b.prev_level levels else 0 in
    refresh_irq (record b {
      prev_level = levels;
      primed = true;
      intr = poll_groups levels rising falling 0 b.intr;
    })

unfoldable pub reset_pins : ℕ → ℕ → Gpio → Gpio
reset_pins zero pin g = g
reset_pins (suc left) pin g =
    reset_pins left (pin + 1) (set_overrides (set_funcsel g pin 0) pin 0 0 0 0)

unfoldable pub reset : IoBank0 → IoBank0
reset b = refresh_irq (record b {
  ctrl = replicate k_num_pins 0;
  gpio = reset_pins k_num_pins 0 b.gpio;
  intr = replicate k_int_groups 0;
  inte0 = replicate k_int_groups 0;
  inte1 = replicate k_int_groups 0;
  intf0 = replicate k_int_groups 0;
  intf1 = replicate k_int_groups 0;
  prev_level = 0;
  primed = false;
})

-- A bank of four words from a base on.
abbrev pub is_bank : ℕ → ℕ → Bool
is_bank base offset = leb base offset && ltb offset (base + 16)

abbrev pub word : ℕ → ℕ → ℕ
word base offset = (offset - base) / 4

-- INTS of one core at a group.
abbrev pub status : List ℕ → List ℕ → List ℕ → ℕ → ℕ
status intr inte intf g = bit_and (bit_or (get_or intr g 0) (get_or intf g 0)) (get_or inte g 0)

unfoldable pub reg_read : IoBank0 → ℕ → BusResult
reg_read b offset =
    let pin = offset / 8 in
    good (
      if ltb offset 0xF0
      then (if test_bit offset 2
          then get_or b.ctrl pin 0
          else bit_or (if pad_level b.gpio pin then 2 ^ 9 else 0)
              (if level b.gpio pin then 2 ^ 17 else 0))
      else if is_bank 0x0F0 offset
      then get_or b.intr (word 0x0F0 offset) 0
      else if is_bank 0x100 offset
      then get_or b.inte0 (word 0x100 offset) 0
      else if is_bank 0x110 offset
      then get_or b.intf0 (word 0x110 offset) 0
      else if is_bank 0x130 offset
      then get_or b.inte1 (word 0x130 offset) 0
      else if is_bank 0x140 offset
      then get_or b.intf1 (word 0x140 offset) 0
      else if is_bank 0x120 offset
      then status b.intr b.inte0 b.intf0 (word 0x120 offset)
      else if is_bank 0x150 offset
      then status b.intr b.inte1 b.intf1 (word 0x150 offset)
      else 0)

-- A write to GPIOx_CTRL.
unfoldable pub write_ctrl : IoBank0 → ℕ → ℕ → IoBank0
write_ctrl b pin value = record b {
  ctrl = set b.ctrl pin value;
  gpio =
      set_overrides (set_funcsel b.gpio pin (value % 2 ^ 5)) pin (value / 2 ^ 8 % 4)
        (value / 2 ^ 12 % 4) (value / 2 ^ 16 % 4) (value / 2 ^ 30 % 4);
}

-- Of INTR only the edge bits are cleared.
unfoldable pub reg_write : IoBank0 → ℕ → ℕ → BusStatus × IoBank0
reg_write b offset value =
    let g = word 0x0F0 offset in
    (
      BusStatus.ok,
      if ltb offset 0xF0 && test_bit offset 2
          then write_ctrl b (offset / 8) value
          else if is_bank 0x0F0 offset
          then refresh_irq (record b {
            intr = set b.intr g (and_not (get_or b.intr g 0) (bit_and value all_edge_mask));
          })
          else if is_bank 0x100 offset
          then refresh_irq (record b { inte0 = set b.inte0 (word 0x100 offset) value })
          else if is_bank 0x110 offset
          then refresh_irq (record b { intf0 = set b.intf0 (word 0x110 offset) value })
          else if is_bank 0x130 offset
          then refresh_irq (record b { inte1 = set b.inte1 (word 0x130 offset) value })
          else if is_bank 0x140 offset
          then refresh_irq (record b { intf1 = set b.intf1 (word 0x140 offset) value })
          else b,
    )
