-- ===== src/Peripherals/Timer.antt =====
-- The microsecond timer and its four alarms: peripherals/timer.h and timer.cpp.
pub mod Alarm
pub mod Clock
use rp2040_simlator.Base.{
  ℕ, zero, suc, ◌+◌, ◌-◌, ◌*◌, ◌/◌, ◌%◌, ◌^◌, Bool, true, false, ◌&&◌, List, ltb, leb, ◌==◌,
  if◌then◌else◌, get_or, set, replicate, u32, u64, test_bit, bit_and, bit_or, and_not, of_bool,
}
use rp2040_simlator.Base.Bits.{set_bit, clear_bit}
use rp2040_simlator.Core.Bus.{BusStatus, BusResult, good}
use rp2040_simlator.Core.Interrupts.{Cores, pend_all, clear_all}
use rp2040_simlator.Peripherals.Pacing.{drain}

abbrev pub k_num_alarms : ℕ
k_num_alarms = 4

-- TIMER_IRQ_0 is exception 16.
abbrev pub k_irq0 : ℕ
k_irq0 = 16

-- What a microsecond changes: the counter, the alarms, and the cores behind the interrupt lines.
-- `nvic` lists the cores that the controller is connected to.
pub record Alarms : Type 0 where
  pub counter : ℕ
  pub alarm : List ℕ
  pub armed : ℕ
  pub intr : ℕ
  pub inte : ℕ
  pub intf : ℕ
  pub nvic : List ℕ
  pub cpus : Cores

pub record Timer : Type 0 where
  pub cycles_per_us : ℕ
  pub accum : ℕ
  pub write_staging_hi : ℕ
  pub read_latch_hi : ℕ
  pub paused : Bool
  pub alarms : Alarms

unfoldable pub asserted : Alarms → ℕ
asserted a = bit_and (bit_or a.intr a.intf) a.inte

-- The loop of `refresh_irqs` from alarm i on.
unfoldable pub refresh_from : ℕ → ℕ → List ℕ → ℕ → Cores → Cores
refresh_from zero i nvic lines cpus = cpus
refresh_from (suc left) i nvic lines cpus =
    refresh_from left (i + 1) nvic lines (
      if test_bit lines i
      then pend_all nvic (k_irq0 + i) cpus
      else clear_all nvic (k_irq0 + i) cpus)

unfoldable pub refresh_irqs : Alarms → Alarms
refresh_irqs a = record a { cpus = refresh_from k_num_alarms 0 a.nvic (asserted a) a.cpus }

-- The body of the loop of `fire_due_alarms`.
unfoldable pub fire_one : ℕ → Alarms → Alarms
fire_one i a =
    if test_bit a.armed i && (get_or a.alarm i 0 == u32 a.counter)
    then record a { armed = clear_bit a.armed i; intr = set_bit a.intr i }
    else a

-- That loop from alarm i on.
unfoldable pub fire_from : ℕ → ℕ → Alarms → Alarms
fire_from zero i a = a
fire_from (suc left) i a = fire_from left (i + 1) (fire_one i a)

unfoldable pub fire_due_alarms : Alarms → Alarms
fire_due_alarms a = refresh_irqs (fire_from k_num_alarms 0 a)

-- One microsecond.
unfoldable pub tick : Alarms → Alarms
tick a = fire_due_alarms (record a { counter = u64 (a.counter + 1) })

unfoldable pub on_cycles : ℕ → Timer → Timer
on_cycles sys_cycles t =
    let acc = u64 (t.accum + sys_cycles) in
    let (rest, a) = drain tick t.cycles_per_us acc acc t.alarms in
    if t.paused then t else record t { accum = rest; alarms = a }

unfoldable pub set_cycles_per_us : Timer → ℕ → Timer
set_cycles_per_us t c = record t { cycles_per_us = if c == 0 then 1 else c }

unfoldable pub reset : Timer → Timer
reset t = record t {
  accum = 0;
  write_staging_hi = 0;
  read_latch_hi = 0;
  paused = false;
  alarms = refresh_irqs (record (t.alarms) {
    counter = 0;
    alarm = replicate k_num_alarms 0;
    armed = 0;
    intr = 0;
    inte = 0;
    intf = 0;
  });
}

-- The alarm register at an offset, if it is one.
abbrev pub is_alarm : ℕ → Bool
is_alarm offset = leb 0x10 offset && ltb offset 0x20

unfoldable pub reg_read : Timer → ℕ → BusResult × Timer
reg_read t offset =
    let a = t.alarms in
    let low = u32 a.counter in
    let high = u32 (a.counter / 2 ^ 32) in
    if offset == 0x0C then (good low, record t { read_latch_hi = high }) else (
      good (
          if offset == 0x08
          then t.read_latch_hi
          else if offset == 0x28
          then low
          else if offset == 0x24
          then high
          else if offset == 0x20
          then a.armed
          else if offset == 0x30
          then of_bool t.paused
          else if offset == 0x34
          then a.intr
          else if offset == 0x38
          then a.inte
          else if offset == 0x3C
          then a.intf
          else if offset == 0x40
          then asserted a
          else if is_alarm offset
          then get_or a.alarm ((offset - 0x10) / 4) 0
          else 0),
      t,
    )

-- The writes that reach the alarms; the others leave them.
unfoldable pub write_alarms : Alarms → ℕ → ℕ → Alarms
write_alarms a offset value =
    let i = (offset - 0x10) / 4 in
    if offset == 0x20
    then refresh_irqs (record a { armed = and_not a.armed (value % 2 ^ 4) })
    else if offset == 0x34
    then refresh_irqs (record a { intr = and_not a.intr (value % 2 ^ 4) })
    else if offset == 0x38
    then refresh_irqs (record a { inte = value % 2 ^ 4 })
    else if offset == 0x3C
    then refresh_irqs (record a { intf = value % 2 ^ 4 })
    else if is_alarm offset
    then fire_due_alarms (record a { alarm = set a.alarm i value; armed = set_bit a.armed i })
    else a

unfoldable pub reg_write : Timer → ℕ → ℕ → BusStatus × Timer
reg_write t offset value = (
  BusStatus.ok,
  if offset == 0x00
      then record t { write_staging_hi = value }
      else if offset == 0x04
      then record t { alarms = record (t.alarms) { counter = t.write_staging_hi * 2 ^ 32 + value } }
      else if offset == 0x30
      then record t { paused = test_bit value 0 }
      else record t { alarms = write_alarms t.alarms offset value },
)
