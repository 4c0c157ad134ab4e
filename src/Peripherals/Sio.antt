-- ===== src/Peripherals/Sio.antt =====
-- The single-cycle IO block of both cores: peripherals/sio.h and sio.cpp.
pub mod Locks
pub mod Division
use rp2040_simlator.Base.{
  ℕ, zero, suc, ◌+◌, ◌-◌, ◌*◌, ◌/◌, ◌%◌, ◌^◌, Bool, true, false, not, ◌&&◌, ◌||◌, List, [], ◌∷◌,
  ◌++◌, ltb, leb, ◌==◌, if◌then◌else◌, get_or, set, length, is_empty, u32, bit_or, bit_xor, and_not,
  of_bool, Option, none, some,
}
use rp2040_simlator.Core.Bus.{BusStatus, BusResult, good}
use rp2040_simlator.Core.Cpu.{exc_external0, pend_exception, clear_pending}
use rp2040_simlator.Core.Interrupts.{Cores, at_core}
use rp2040_simlator.Peripherals.Gpio.{
  Gpio, Driver, driver_set_out, driver_set_oe, driver_out, driver_oe, func_input_bits,
}

abbrev pub k_num_spinlocks : ℕ
k_num_spinlocks = 32

abbrev pub k_fifo_depth : ℕ
k_fifo_depth = 8

abbrev pub k_irq_proc0 : ℕ
k_irq_proc0 = 31

abbrev pub k_irq_proc1 : ℕ
k_irq_proc1 = 32

abbrev pub k_div_latency_cycles : ℕ
k_div_latency_cycles = 8

pub record Divider : Type 0 where
  pub dividend : ℕ
  pub divisor : ℕ
  pub quotient : ℕ
  pub remainder : ℕ
  pub is_signed : Bool
  pub ready : Bool
  pub dirty : Bool
  pub countdown : ℕ

-- `cpu0` and `cpu1` name cores of `cpus`. `launch_stage` is `none` where the source has -1, and the
-- callback of a launch gets the three words and acts on the cores.
pub record Sio : Type 0 where
  pub gpio : Gpio
  pub cpus : Cores
  pub cpu0 : Option ℕ
  pub cpu1 : Option ℕ
  pub active : ℕ
  pub to0 : List ℕ
  pub to1 : List ℕ
  pub fifo_wof : Bool
  pub fifo_roe : Bool
  pub launch_stage : Option ℕ
  pub launch_words : List ℕ
  pub launch_cb : Option (ℕ → ℕ → ℕ → Cores → Cores)
  pub spinlock : List Bool
  pub div : Divider

unfoldable pub set_active_core : Sio → ℕ → Sio
set_active_core s core = record s { active = core % 2 }

unfoldable pub start_divide : Divider → Bool → Bool → ℕ → Divider
start_divide d is_signed dividend value = record d {
  dividend = if dividend then value else d.dividend;
  divisor = if dividend then d.divisor else value;
  is_signed = is_signed;
  ready = false;
  dirty = true;
  countdown = k_div_latency_cycles;
}

-- The sign and the magnitude of an int32_t pattern, and the pattern of a sign and a magnitude.
abbrev pub negative : ℕ → Bool
negative w = leb (2 ^ 31) w

abbrev pub magnitude : ℕ → ℕ
magnitude w = if negative w then 2 ^ 32 - w else w

abbrev pub with_sign : Bool → ℕ → ℕ
with_sign minus m = if minus then u32 (2 ^ 32 - m) else m

abbrev pub differ : Bool → Bool → Bool
differ a b = if a then not b else b

-- `a / b` and `a % b` on int32_t, which round towards 0, and the pair that they make.
abbrev pub signed_division : ℕ → ℕ → ℕ × ℕ
signed_division a b = (
  with_sign (differ (negative a) (negative b)) (magnitude a / magnitude b),
  with_sign (negative a) (magnitude a % magnitude b),
)

-- The case of INT32_MIN and -1 stands apart in the source, since its quotient does not fit.
unfoldable pub division : Bool → ℕ → ℕ → ℕ × ℕ
division is_signed a b =
    if b == 0
    then (0xFFFF_FFFF, a)
    else if is_signed
    then (if a == 2 ^ 31 && (b == 0xFFFF_FFFF) then (2 ^ 31, 0) else signed_division a b)
    else (a / b, a % b)

unfoldable pub finish_divide : Divider → Divider
finish_divide d =
    let (q, r) = division d.is_signed d.dividend d.divisor in
    record d { quotient = q; remainder = r; ready = true }

unfoldable pub div_on_cycles : Divider → ℕ → Divider
div_on_cycles d sys_cycles =
    if d.countdown == 0
    then d
    else if leb d.countdown sys_cycles
    then finish_divide (record d { countdown = 0 })
    else record d { countdown = d.countdown - sys_cycles }

unfoldable pub on_cycles : Sio → ℕ → Sio
on_cycles s sys_cycles = record s { div = div_on_cycles s.div sys_cycles }

-- One mailbox interrupt: raised while its queue holds a word.
abbrev pub refresh_one : Option ℕ → List ℕ → ℕ → Cores → Cores
refresh_one none queue exc cs = cs
refresh_one (some c) queue exc cs =
    at_core (λ k. if is_empty queue then clear_pending k exc else pend_exception k exc) c cs

unfoldable pub refresh_fifo_irqs : Sio → Sio
refresh_fifo_irqs s = record s {
  cpus = refresh_one s.cpu1 s.to1 k_irq_proc1 (refresh_one s.cpu0 s.to0 k_irq_proc0 s.cpus);
}

abbrev pub launched : Option (ℕ → ℕ → ℕ → Cores → Cores) → List ℕ → Cores → Cores
launched none words cs = cs
launched (some cb) words cs = cb (get_or words 0 0) (get_or words 1 0) (get_or words 2 0) cs

-- Core 0's side of the handshake that starts core 1.
unfoldable pub launch_step : Sio → ℕ → Option ℕ → Sio
launch_step s value none = if value == 1 then record s { launch_stage = some 0 } else s
launch_step s value (some stage) =
    let words = set s.launch_words stage value in
    if stage + 1 == 3
    then record s {
      launch_words = words;
      launch_stage = none;
      cpus = launched s.launch_cb words s.cpus;
    }
    else record s { launch_words = words; launch_stage = some (stage + 1) }

unfoldable pub mailbox_write : Sio → ℕ → Sio
mailbox_write s value =
    if leb k_fifo_depth (length (if s.active == 0 then s.to1 else s.to0))
    then record s { fifo_wof = true }
    else refresh_fifo_irqs (
        if s.active == 0
        then launch_step (record s { to1 = s.to1 ++ (value ∷ []); to0 = s.to0 ++ (value ∷ []) })
            value s.launch_stage
        else record s { to0 = s.to0 ++ (value ∷ []) })

-- A read of the mailbox, with the queue that the active core reads.
unfoldable pub mailbox_read : Sio → List ℕ → BusResult × Sio
mailbox_read s [] = (good 0, record s { fifo_roe = true })
mailbox_read s (v ∷ rest) = (
  good v,
  refresh_fifo_irqs (if s.active == 0 then record s { to0 = rest } else record s { to1 = rest }),
)

unfoldable pub fifo_status : Sio → ℕ
fifo_status s =
    let (incoming, outgoing) = if s.active == 0 then (s.to0, s.to1) else (s.to1, s.to0) in
    of_bool (not (is_empty incoming))
    + 2 * of_bool (ltb (length outgoing) k_fifo_depth)
    + 4 * of_bool s.fifo_wof
    + 8 * of_bool s.fifo_roe

-- The spinlocks stand at 0x100 to 0x17C.
abbrev pub is_spinlock : ℕ → Bool
is_spinlock offset = leb 0x100 offset && ltb offset 0x180

unfoldable pub bus_read : Sio → ℕ → BusResult × Sio
bus_read s offset =
    let n = (offset - 0x100) / 4 in
    if is_spinlock offset
    then (if get_or s.spinlock n false
        then (good 0, s)
        else (good (2 ^ n), record s { spinlock = set s.spinlock n true }))
    else if offset == 0x058
    then mailbox_read s (if s.active == 0 then s.to0 else s.to1)
    else if offset == 0x070
    then (good s.div.quotient, record s { div = record (s.div) { dirty = false } })
    else (
      good (
          if offset == 0x000
          then s.active
          else if offset == 0x004
          then func_input_bits s.gpio
          else if offset == 0x010
          then driver_out s.gpio Driver.sio
          else if offset == 0x020
          then driver_oe s.gpio Driver.sio
          else if offset == 0x050
          then fifo_status s
          else if offset == 0x074
          then s.div.remainder
          else if offset == 0x078
          then of_bool s.div.ready + 2 * of_bool s.div.dirty
          else 0),
      s,
    )

-- The writes to the GPIO registers; the others leave the pads.
unfoldable pub write_gpio : Gpio → ℕ → ℕ → Gpio
write_gpio g offset value =
    let out = driver_out g Driver.sio in
    let oe = driver_oe g Driver.sio in
    if offset == 0x010
    then driver_set_out g Driver.sio value
    else if offset == 0x014
    then driver_set_out g Driver.sio (bit_or out value)
    else if offset == 0x018
    then driver_set_out g Driver.sio (and_not out value)
    else if offset == 0x01C
    then driver_set_out g Driver.sio (bit_xor out value)
    else if offset == 0x020
    then driver_set_oe g Driver.sio value
    else if offset == 0x024
    then driver_set_oe g Driver.sio (bit_or oe value)
    else if offset == 0x028
    then driver_set_oe g Driver.sio (and_not oe value)
    else if offset == 0x02C
    then driver_set_oe g Driver.sio (bit_xor oe value)
    else g

unfoldable pub write_div : Divider → ℕ → ℕ → Divider
write_div d offset value =
    if offset == 0x060
    then start_divide d false true value
    else if offset == 0x064
    then start_divide d false false value
    else if offset == 0x068
    then start_divide d true true value
    else if offset == 0x06C
    then start_divide d true false value
    else d

unfoldable pub bus_write : Sio → ℕ → ℕ → BusStatus × Sio
bus_write s offset value = (
  BusStatus.ok,
  if is_spinlock offset
      then record s { spinlock = set s.spinlock ((offset - 0x100) / 4) false }
      else if offset == 0x050
      then record s { fifo_wof = false; fifo_roe = false }
      else if offset == 0x054
      then mailbox_write s value
      else record s { gpio = write_gpio s.gpio offset value; div = write_div s.div offset value },
)
