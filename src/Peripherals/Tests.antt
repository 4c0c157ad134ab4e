-- ===== src/Peripherals/Tests.antt =====
-- Concrete timers, watchdogs and system blocks, and the theorems about them at those.
use rp2040_simlator.Base.{
  ℕ, suc, ◌+◌, ◌*◌, ◌^◌, ◌≡◌, refl, true, false, ◌&&◌, arith, [], ◌∷◌, none, some, replicate,
  get_or, set, test_bit, ltb,
}
use rp2040_simlator.Core.Bus.{BusWidth}
use rp2040_simlator.Core.Cpu.{CoreState, is_pending, num_rp2040_irqs}
use rp2040_simlator.Core.Interrupts.{Cores}
use rp2040_simlator.Core.Atomic.{bus_read, bus_write}
use rp2040_simlator.Core.Atomic.Aliases.{aliased, bus_write-aliased}
use rp2040_simlator.Core.Scs.{Bank, Scs, bank, cur}
use rp2040_simlator.Core.Scs.Nvic.{Register, line, updated, bus_write-line}
use rp2040_simlator.Core.Scs.SysTick.{Ticked, on_cycles-ticks}
use rp2040_simlator.Peripherals.Adc.{Adc, on_cycles, reg_read, reg_write, reset}
use rp2040_simlator.Peripherals.Adc.Samples.{Fits, Fits-kept}
use rp2040_simlator.Peripherals.Gpio.{fresh_pin}
use rp2040_simlator.Peripherals.IoBank.{IoBank0}
use rp2040_simlator.Peripherals.Rtc.{DateTime, next_second}
use rp2040_simlator.Peripherals.Rtc.Calendar.{IsDate, second_number, next_second-counts}
use rp2040_simlator.Peripherals.Resets.{Resets, registers, k_all_periphs, reset-Storage}
use rp2040_simlator.Peripherals.Timer.{Alarms, Timer, k_irq0}
use rp2040_simlator.Peripherals.Timer.Clock.{on_cycles-add, on_cycles-raises}
use rp2040_simlator.Peripherals.Watchdog.{Watchdog, Providers}
use rp2040_simlator.Peripherals.Watchdog.Timeout.{expected, on_cycles-expires}
use rp2040_simlator.Peripherals.Pacing.{ticks}
use rp2040_simlator.Peripherals.Pwm.{Pwm, Slice, fresh_slice, slice, clock_slice}
use rp2040_simlator.Peripherals.Pwm.Rate.{IsFree, Rated, clock_slice-Rated}
use rp2040_simlator.Peripherals.Uart.{Line, tick_bit, bits_per_frame}
use rp2040_simlator.Peripherals.Uart.Frames.{Idle, ticks-sends}
use rp2040_simlator.Peripherals.Sio.{Divider, Sio, start_divide, div_on_cycles}
use rp2040_simlator.Peripherals.Sio.Division.{Answers, div_on_cycles-Answers}
use rp2040_simlator.Peripherals.Sio.Locks.{System, Step, Reach, tried, reach-exclusive}

abbrev quiet : CoreState
quiet = record {
  cycles = 0;
  vtor = 0;
  pending = 0;
  irq_enabled = 0;
  priority = replicate 42 0;
  svc_imm = 0;
  bkpt_imm = 0;
  asleep = false;
  sleep_is_wfe = false;
  event = false;
  sleep_on_exit = false;
}

abbrev pub cores : Cores
cores k = quiet

-- Alarm 0 is 2 us ahead, at 4 clocks for a microsecond, of which one has passed.
abbrev timer : Timer
timer = record {
  cycles_per_us = 4;
  accum = 1;
  write_staging_hi = 0;
  read_latch_hi = 0;
  paused = false;
  alarms = record {
    counter = 5;
    alarm = 7 ∷ 0 ∷ 0 ∷ 0 ∷ [];
    armed = 1;
    intr = 0;
    inte = 1;
    intf = 0;
    nvic = 0 ∷ 1 ∷ [];
    cpus = cores;
  };
}

on_cycles-add_example :
    rp2040_simlator.Peripherals.Timer.on_cycles 5
      (rp2040_simlator.Peripherals.Timer.on_cycles 3 timer)
    ≡ rp2040_simlator.Peripherals.Timer.on_cycles 8 timer
on_cycles-add_example = on_cycles-add timer 3 5 (omega arith) (omega arith)

on_cycles-raises_example :
    let a' = (rp2040_simlator.Peripherals.Timer.on_cycles 7 timer).alarms in
    (test_bit a'.intr 0 ≡ true) × ((true && is_pending (a'.cpus 1) (k_irq0 + 0)) ≡ (true && true))
on_cycles-raises_example =
    on_cycles-raises timer 7 1 0 1 refl (omega arith) (omega arith) (omega arith) (omega arith)
      (refl, refl)

-- Five microseconds are left of a count of 9.
abbrev dog : Watchdog
dog = record {
  cycles_per_us = 3;
  accum = 0;
  load = 9;
  counter = 9;
  enabled = true;
  ctrl = 2 ^ 30;
  reason = 0;
  tick = 0;
  scratch = replicate 8 0;
}

abbrev no_providers : Providers
no_providers = record { wdsel = none; resets_wdsel = none }

on_cycles-expires_example :
    rp2040_simlator.Peripherals.Watchdog.on_cycles no_providers 16 dog
    ≡ expected no_providers 5 1 (record dog { accum = 16 })
on_cycles-expires_example =
    on_cycles-expires no_providers dog 16 5 1 refl (omega arith) refl (omega arith)

abbrev divider : Divider
divider = record {
  dividend = 0;
  divisor = 0;
  quotient = 0;
  remainder = 0;
  is_signed = false;
  ready = true;
  dirty = false;
  countdown = 0;
}

-- -7 by 2.
div_on_cycles-Answers_example :
    let busy =
      div_on_cycles (start_divide (start_divide divider true true 0xFFFF_FFF9) true false 2) 3 in
    let done = div_on_cycles busy 6 in
    (busy.ready ≡ false)
    × (busy.quotient ≡ 0)
    × (busy.remainder ≡ 0)
    × (done.ready ≡ true)
    × Answers true 0xFFFF_FFF9 2 done.quotient done.remainder
div_on_cycles-Answers_example =
    div_on_cycles-Answers divider true 0xFFFF_FFF9 2 3 6 (omega arith) (omega arith) (omega arith)
      (omega arith)

abbrev sio : Sio
sio = record {
  gpio = record { pins = []; out = replicate 6 0; oe = replicate 6 0 };
  cpus = cores;
  cpu0 = some 0;
  cpu1 = some 1;
  active = 0;
  to0 = [];
  to1 = [];
  fifo_wof = false;
  fifo_roe = false;
  launch_stage = none;
  launch_words = replicate 3 0;
  launch_cb = none;
  spinlock = replicate 32 false;
  div = divider;
}

abbrev started : System
started = record { sio = sio; holds = λ c n. false }

-- Core 0 takes lock 3, and core 1 then tries it.
abbrev contended : System
contended = tried 1 3 (tried 0 3 started)

contended-Reach : Reach contended
contended-Reach =
    Reach.next (Reach.next (Reach.start sio refl) (Step.try_lock 0 3 started (omega arith)))
      (Step.try_lock 1 3 (tried 0 3 started) (omega arith))

contended_held : contended.holds 0 3 ≡ true
unfolding rp2040_simlator.Peripherals.Sio.bus_read
contended_held = refl

abbrev core0 : ℕ
core0 = 0

reach-exclusive_example : (core0 ≡ core0) × (get_or contended.sio.spinlock 3 false ≡ true)
reach-exclusive_example =
    reach-exclusive contended-Reach core0 core0 3 contended_held contended_held

-- Core 0 counts down from 2, reloads 3, and has TICKINT.
abbrev scs : Scs
scs = record {
  cpus = cores;
  has_core1 = true;
  active = 0;
  banks = λ k. record { syst_csr = 3; syst_rvr = 3; syst_cvr = 2; scr = 0 };
}

on_cycles-ticks_example :
    let s' = rp2040_simlator.Core.Scs.on_cycles scs 3 in
    Ticked 3 (bank scs, cur scs) (bank s', cur s')
on_cycles-ticks_example = on_cycles-ticks scs 3 refl (omega arith) (omega arith)

bus_write-line_example :
    line (rp2040_simlator.Core.Scs.bus_write scs 0x100 0x21).2 Register.iser 5
    ≡ (ltb 5 num_rp2040_irqs && updated Register.iser (line scs Register.iser 5) (test_bit 0x21 5))
bus_write-line_example = bus_write-line scs Register.iser 0x21 5

-- Bit 5 of RESET is cleared through the CLR alias.
bus_write-aliased_example :
    let s' =
      (bus_write registers rp2040_simlator.Peripherals.Resets.fresh
        (3 * 2 ^ 12 + 0)
        0x20
        BusWidth.word).1 in
    test_bit (bus_read registers s' 0 BusWidth.word).0.value 5 ≡ (
      test_bit k_all_periphs 5
      && aliased 3
          (test_bit
            (bus_read registers rp2040_simlator.Peripherals.Resets.fresh 0 BusWidth.word).0.value
            5)
          (test_bit 0x20 5))
bus_write-aliased_example =
    bus_write-aliased registers 0 k_all_periphs reset-Storage
      rp2040_simlator.Peripherals.Resets.fresh 3 0x20 5 BusWidth.word (omega arith) (omega arith)

-- A divider of 2 1/2.
abbrev halves : Slice
halves = record fresh_slice { div = 0x28 }

abbrev pwm : Pwm
pwm = record {
  slices = replicate 8 halves;
  enable = 0;
  intr = 0;
  inte = 0;
  intf = 0;
  gpio = record { pins = replicate 30 fresh_pin; out = []; oe = [] };
  nvic = [];
  cpus = λ _. quiet;
}

halves-IsFree : IsFree halves
halves-IsFree = record {
  free = refl;
  upward = refl;
  top_fits = omega arith;
  counter = omega arith;
  step_fits = omega arith;
  accum = omega arith;
}

clock_slice-Rated_example : Rated 4 halves (slice (ticks (clock_slice 3) 4 pwm) 3)
clock_slice-Rated_example = clock_slice-Rated 4 pwm 3 (omega arith) halves-IsFree

-- Three bytes of eight bits, without parity.
abbrev wire : Line
wire = record {
  rx = [];
  rx_wire = [];
  tx_fifo = 72 ∷ 105 ∷ 33 ∷ [];
  tx_log = [];
  lcr_h = 0x60;
  cr = 0x301;
  imsc = 0;
  ris = 0;
  oe = false;
  tx_bits_left = 0;
  tx_shift = 0;
  rx_bits_left = 0;
  rx_shift = record { data_byte = 0; err = 0 };
  irq = 36;
  nvic = 0 ∷ [];
  cpus = cores;
}

ticks-sends_example :
    let l' = ticks tick_bit (2 * suc (bits_per_frame wire)) wire in
    (l'.tx_log ≡ 72 ∷ 105 ∷ []) × (l'.tx_fifo ≡ 33 ∷ []) × Idle l'
ticks-sends_example =
    ticks-sends (72 ∷ 105 ∷ []) (33 ∷ []) wire
      (record { enabled = refl; no_break = refl; at_rest = refl }) refl

-- Pins 3 and 9 are pulled up; 3 was high before, and so was 10.
abbrev bank0 : IoBank0
bank0 = record {
  gpio = record {
    pins =
        set (set (replicate 30 fresh_pin) 3 (record fresh_pin { pull_up = true })) 9
          (record fresh_pin { pull_up = true });
    out = replicate 6 0;
    oe = replicate 6 0;
  };
  ctrl = replicate 30 0;
  intr = 0x4000_0000 ∷ 0 ∷ 0 ∷ 0 ∷ [];
  inte0 = replicate 4 0;
  inte1 = 0xFFFF_FFFF ∷ replicate 3 0;
  intf0 = replicate 4 0;
  intf1 = replicate 4 0;
  core0 = some 0;
  core1 = none;
  cpus = cores;
  prev_level = 0x408;
  primed = true;
}

-- The last second of February of a leap year, which was a Thursday.
abbrev leap_day : DateTime
leap_day = record { year = 2024; month = 2; day = 29; dotw = 4; hour = 23; min = 59; sec = 59 }

leap_day-IsDate : IsDate leap_day
leap_day-IsDate = record {
  a_month = (omega arith, omega arith);
  a_day = (omega arith, omega arith);
  a_time = (omega arith, omega arith, omega arith);
  a_week = omega arith;
}

next_second-counts_example :
    (second_number (next_second leap_day) ≡ suc (second_number leap_day))
    × IsDate (next_second leap_day)
next_second-counts_example = next_second-counts leap_day leap_day-IsDate (omega arith)

-- A converter that free runs on all inputs, with a full FIFO.
abbrev adc : Adc
adc = record {
  adc_hz = 48;
  sys_hz = 125;
  input = 100 ∷ 200 ∷ 300 ∷ 400 ∷ 500 ∷ [];
  fifo = 1 ∷ 2 ∷ 3 ∷ 4 ∷ [];
  result = 4;
  cs = 0x1F_000B;
  fcs = 1;
  div = 0;
  inte = 1;
  intf = 0;
  adc_clk_accum = 0;
  conv_countdown = 1;
  converting = true;
  nvic = 0 ∷ [];
  cpus = cores;
}

adc-Fits : Fits adc
unfolding Fits
adc-Fits = omega arith

Fits-kept_example :
    Fits (on_cycles adc 3)
    × Fits (reg_read adc 0x0C).1
    × Fits (reg_write adc 0x0C 0x5).1
    × Fits (reset adc)
Fits-kept_example = Fits-kept adc 3 0x0C 0x5 adc-Fits
