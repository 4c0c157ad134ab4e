-- ===== src/Pio/StateMachine.antt =====
-- The state of one PIO state machine: pio/state_machine.h, and the helpers of state_machine.cpp.
pub mod Exec
pub mod Tick
pub mod Inject
pub mod Invariant
pub mod Safety
use rp2040_simlator.Base.{
  ℕ, zero, suc, ◌+◌, ◌-◌, ◌*◌, ◌/◌, ◌%◌, ◌^◌, Bool, true, false, not, ◌&&◌, Option, none, some, ltb,
  leb, ◌==◌, if◌then◌else◌, u8, bit_or, bit_and, ◌<<<◌, ◌>>>◌, test_bit,
}
use rp2040_simlator.Peripherals.Gpio.{
  Gpio, Driver, func_level, driver_set_pin, driver_set_pindir, k_num_pins,
}
use rp2040_simlator.Pio.Fifo.{PioFifo, push, pop}
use rp2040_simlator.Pio.Decode.{PioOp, PioInstr, default_instr}

pub record SmConfig : Type 0 where
  pub out_shiftdir_right : Bool
  pub in_shiftdir_right : Bool
  pub autopull : Bool
  pub autopush : Bool
  pub pull_threshold : ℕ
  pub push_threshold : ℕ
  pub wrap_top : ℕ
  pub wrap_bottom : ℕ
  pub sideset_count : ℕ
  pub sideset_opt : Bool
  pub sideset_pindir : Bool
  pub jmp_pin : ℕ
  pub status_sel_rx : Bool
  pub status_n : ℕ
  pub in_base : ℕ
  pub out_base : ℕ
  pub out_count : ℕ
  pub set_base : ℕ
  pub set_count : ℕ
  pub sideset_base : ℕ

-- The member initialisers.
unfoldable pub default_config : SmConfig
default_config = record {
  out_shiftdir_right = true;
  in_shiftdir_right = true;
  autopull = false;
  autopush = false;
  pull_threshold = 32;
  push_threshold = 32;
  wrap_top = 31;
  wrap_bottom = 0;
  sideset_count = 0;
  sideset_opt = false;
  sideset_pindir = false;
  jmp_pin = 0;
  status_sel_rx = false;
  status_n = 0;
  in_base = 0;
  out_base = 0;
  out_count = 0;
  set_base = 0;
  set_count = 0;
  sideset_base = 0;
}

pub data Stall : Type 0 where
  not_stalled instr auto_push auto_pull : Stall

-- The GPIO and the IRQ register that the block lends to its state machines are fields here, and
-- stand for what the pointers `gpio_` and `block_irq_` point to.
pub record StateMachine : Type 0 where
  pub cfg : SmConfig
  pub tx : PioFifo
  pub rx : PioFifo
  pub x : ℕ
  pub y : ℕ
  pub osr : ℕ
  pub isr : ℕ
  pub pc : ℕ
  pub osr_shift_count : ℕ
  pub isr_shift_count : ℕ
  pub gpio : Gpio
  pub driver : Driver
  pub block_irq : ℕ
  pub sm_id : ℕ
  pub enabled : Bool
  pub delay_left : ℕ
  pub stall : Stall
  pub irq_wait_raised : Bool
  pub cur : PioInstr

abbrev pub pull_thresh : StateMachine → ℕ
pull_thresh s = if s.cfg.pull_threshold == 0 then 32 else s.cfg.pull_threshold

abbrev pub push_thresh : StateMachine → ℕ
push_thresh s = if s.cfg.push_threshold == 0 then 32 else s.cfg.push_threshold

abbrev pub wrap_pin : ℕ → ℕ
wrap_pin p = p % k_num_pins

-- The low n bits.
abbrev pub mask_n : ℕ → ℕ → ℕ
mask_n v n = if leb 32 n then v % 2 ^ 32 else v % 2 ^ n

unfoldable pub bit_reverse : ℕ → ℕ
bit_reverse v0 =
    let v1 = bit_or (bit_and v0 0xAAAA_AAAA >>> 1) (bit_and v0 0x5555_5555 <<< 1) in
    let v2 = bit_or (bit_and v1 0xCCCC_CCCC >>> 2) (bit_and v1 0x3333_3333 <<< 2) in
    let v3 = bit_or (bit_and v2 0xF0F0_F0F0 >>> 4) (bit_and v2 0x0F0F_0F0F <<< 4) in
    let v4 = bit_or (bit_and v3 0xFF00_FF00 >>> 8) (bit_and v3 0x00FF_00FF <<< 8) in
    bit_or (v4 >>> 16) ((v4 <<< 16) % 2 ^ 32)

unfoldable pub restart : StateMachine → StateMachine
restart s = record s {
  pc = s.cfg.wrap_bottom;
  osr = 0;
  isr = 0;
  osr_shift_count = 32;
  isr_shift_count = 0;
  delay_left = 0;
  stall = Stall.not_stalled;
  irq_wait_raised = false;
}

unfoldable pub full_reset : StateMachine → StateMachine
unfolding restart default_config
full_reset s = restart (record s {
  cfg = default_config;
  tx = rp2040_simlator.Pio.Fifo.fresh;
  rx = rp2040_simlator.Pio.Fifo.fresh;
  x = 0;
  y = 0;
  enabled = false;
  cur = default_instr;
})

abbrev pub sideset_bits : SmConfig → ℕ
sideset_bits c = c.sideset_count + (if c.sideset_opt then 1 else 0)

unfoldable pub delay_of : SmConfig → PioInstr → ℕ
delay_of c i = if leb 5 (sideset_bits c) then 0 else i.delay_sideset % 2 ^ (5 - sideset_bits c)

-- Whether the OSR can be used afterwards.
unfoldable pub do_autopull : StateMachine → Bool × StateMachine
do_autopull s =
    if ltb s.osr_shift_count (pull_thresh s)
    then (true, s)
    else (let (out, f) = pop s.tx in
        elim out [
          | some v ↦ (true, record s { tx = f; osr = v; osr_shift_count = 0 })
          | none ↦ (false, s)
        ])

unfoldable pub maybe_autopush : StateMachine → StateMachine
maybe_autopush s =
    if not s.cfg.autopush
    then s
    else if ltb s.isr_shift_count (push_thresh s)
    then s
    else (let (ok, f) = push s.rx s.isr in
        if ok
        then record s { rx = f; isr = 0; isr_shift_count = 0 }
        else record s { stall = Stall.auto_push })

unfoldable pub advance_pc : StateMachine → StateMachine
advance_pc s = record s {
  pc = if s.pc == s.cfg.wrap_top then s.cfg.wrap_bottom else (s.pc + 1) % 2 ^ 5;
}

-- The loop of `read_pins` from bit i on.
unfoldable pub read_pins : Gpio → ℕ → ℕ → ℕ → ℕ → ℕ
read_pins g base zero i v = v
read_pins g base (suc left) i v =
    read_pins g base left (i + 1)
      (if func_level g (wrap_pin (base + i)) then bit_or v (1 <<< i) else v)

-- The loop of `write_pins` from bit i on.
unfoldable pub write_pins : Gpio → Driver → ℕ → ℕ → ℕ → ℕ → Bool → Gpio
write_pins g d base zero i value dirs = g
write_pins g d base (suc left) i value dirs =
    let pin = wrap_pin (base + i) in
    let b = test_bit value i in
    write_pins (if dirs then driver_set_pindir g d pin b else driver_set_pin g d pin b) d base left
      (i + 1) value dirs

abbrev pub with_pins : StateMachine → ℕ → ℕ → ℕ → Bool → StateMachine
with_pins s base count value dirs = record s {
  gpio = write_pins s.gpio s.driver base count 0 value dirs;
}

-- Bit 4 asks for the state machine's number to be added within the group of four.
unfoldable pub resolve_irq : ℕ → ℕ → ℕ
resolve_irq sm_id index =
    if test_bit index 4
    then bit_or (bit_and index 4) ((index % 2 ^ 2 + sm_id) % 2 ^ 2)
    else index % 2 ^ 3

unfoldable pub apply_sideset : StateMachine → PioInstr → StateMachine
apply_sideset s i =
    let c = s.cfg in
    let delay_bits = if leb 5 (sideset_bits c) then 0 else 5 - sideset_bits c in
    if c.sideset_count == 0
    then s
    else if c.sideset_opt && not (test_bit i.delay_sideset 4)
    then s
    else with_pins s c.sideset_base c.sideset_count
        ((i.delay_sideset >>> delay_bits) % 2 ^ c.sideset_count) c.sideset_pindir
