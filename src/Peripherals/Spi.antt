-- ===== src/Peripherals/Spi.antt =====
-- The SPI controller: peripherals/spi.h and spi.cpp.
pub mod Loopback
use rp2040_simlator.Base.{
  ℕ, zero, suc, ◌+◌, ◌-◌, ◌*◌, ◌/◌, ◌%◌, ◌^◌, Bool, true, false, not, ◌&&◌, ◌||◌, List, [], ◌∷◌,
  ◌++◌, Option, none, some, ltb, leb, ◌==◌, if◌then◌else◌, length, is_empty, u8, u16, u32, u64,
  bit_and, bit_or, test_bit, of_bool, get_or,
}
use rp2040_simlator.Core.Bus.{BusStatus, BusResult, good}
use rp2040_simlator.Core.Interrupts.{Cores, pend_all, clear_all}
use rp2040_simlator.Peripherals.Gpio.{
  Gpio, Driver, pin_of, k_num_pins, driver_set_pin, driver_set_pindir,
}
use rp2040_simlator.Peripherals.Pacing.{drain}

abbrev pub k_fifo_depth : ℕ
k_fifo_depth = 8

abbrev pub k_spi0_base : ℕ
k_spi0_base = 0x4003_C000

-- The roles of the pins, by the pin's number modulo 4.
abbrev pub k_role_sck : ℕ
k_role_sck = 2

abbrev pub k_role_tx : ℕ
k_role_tx = 3

-- `xfer_cb` is the callback of the test bench, on a state `X` of its own, `ext`. `gpio` is `none`
-- where no GPIO is connected.
pub record Spi (X : Type 0) : Type 0 where
  pub base : ℕ
  pub irq : ℕ
  pub gpio : Option Gpio
  pub rx : List ℕ
  pub miso : List ℕ
  pub tx_fifo : List ℕ
  pub mosi_log : List ℕ
  pub xfer_cb : Option (ℕ → X → ℕ × X)
  pub ext : X
  pub cr0 : ℕ
  pub cr1 : ℕ
  pub cpsdvsr : ℕ
  pub imsc : ℕ
  pub dmacr : ℕ
  pub spi_hz : ℕ
  pub sys_hz : ℕ
  pub clk_accum : ℕ
  pub bit_cycle_accum : ℕ
  pub bits_left : ℕ
  pub tx_shift : ℕ
  pub nvic : List ℕ
  pub cpus : Cores

-- DSS, of CR0.
unfoldable pub frame_bits : ℕ → ℕ
frame_bits cr0 = suc (cr0 % 2 ^ 4)

unfoldable pub bit_period_cycles : ℕ → ℕ → ℕ
bit_period_cycles cr0 cpsdvsr =
    if ltb cpsdvsr 2 || test_bit cpsdvsr 0 then 0 else cpsdvsr * (1 + cr0 / 2 ^ 8 % 2 ^ 8)

-- The loop over the pins that have the role in this instance.
unfoldable pub drive_from : Driver → ℕ → ℕ → Bool → ℕ → ℕ → Gpio → Gpio
drive_from drv instance_no role level zero pin g = g
drive_from drv instance_no role level (suc left) pin g =
    let chosen = (pin_of g pin).funcsel == 1 && (pin / 8 % 2 == instance_no) && (pin % 4 == role) in
    drive_from drv instance_no role level left (pin + 1)
      (if chosen then driver_set_pin (driver_set_pindir g drv pin true) drv pin level else g)

module _ {X : Type 0} where
  unfoldable pub live_ris : Spi X → ℕ
  live_ris s =
      if test_bit s.cr1 1
      then of_bool (ltb (length s.tx_fifo) k_fifo_depth) * 2 ^ 3
        + of_bool (not (is_empty s.rx)) * 2 ^ 2
      else 0

  unfoldable pub refresh_irq : Spi X → Spi X
  refresh_irq s = record s {
    cpus =
        if bit_and (live_ris s) s.imsc == 0
        then clear_all s.nvic s.irq s.cpus
        else pend_all s.nvic s.irq s.cpus;
  }

  unfoldable pub drive_pins : Spi X → ℕ → Bool → Spi X
  drive_pins s role level =
      let first = s.base == k_spi0_base in
      record s {
        gpio = elim s.gpio [
          | none ↦ none
          | some g ↦ some (
              drive_from (if first then Driver.spi0 else Driver.spi1) (if first then 0 else 1) role
                level k_num_pins 0 g)
        ];
      }

  -- `tx_shift_ >> (bits_left_ - 1)` is only read in a frame.
  unfoldable pub drive_waveform : Spi X → Bool → Spi X
  drive_waveform s at_half =
      let cpol = test_bit s.cr0 7 in
      let cpha = test_bit s.cr0 6 in
      let active = ltb 0 s.bits_left && (if cpha then not at_half else at_half) in
      let clocked = drive_pins s k_role_sck (if cpol then not active else active) in
      let mosi = ltb 0 s.bits_left && test_bit s.tx_shift (s.bits_left - 1) in
      if at_half then clocked else drive_pins clocked k_role_tx mosi

  -- Without a callback, the queue of the test bench or an idle line answers.
  abbrev pub from_queue : Spi X → List ℕ → ℕ × Spi X
  from_queue s [] = (0xFFFF, s)
  from_queue s (b ∷ rest) = (b, record s { miso = rest })

  abbrev pub from_callback : Spi X → ℕ × X → ℕ × Spi X
  from_callback s (v, x) = (v, record s { ext = x })

  unfoldable pub answer : Spi X → ℕ → ℕ × Spi X
  answer s mosi8 =
      if test_bit s.cr1 0
      then (s.tx_shift, s)
      else elim s.xfer_cb [ some f ↦ from_callback s (f mosi8 s.ext) | none ↦ from_queue s s.miso ]

  abbrev pub receive : ℕ × Spi X → Spi X
  receive (miso, s) =
      if ltb (length s.rx) k_fifo_depth
      then record s { rx = s.rx ++ (miso % 2 ^ frame_bits s.cr0 ∷ []) }
      else s

  -- The end of a frame.
  unfoldable pub finish_frame : Spi X → Spi X
  finish_frame s =
      let mosi8 = u8 s.tx_shift in
      refresh_irq (receive (answer (record s { mosi_log = s.mosi_log ++ (mosi8 ∷ []) }) mosi8))

  -- The start of a frame, from the queue.
  abbrev pub start_frame : Spi X → List ℕ → Spi X
  start_frame s [] = s
  start_frame s (b ∷ rest) =
      refresh_irq (record s { tx_shift = b; tx_fifo = rest; bits_left = frame_bits s.cr0 })

  -- By the bits that are left.
  abbrev pub tick_with : ℕ → Spi X → Spi X
  tick_with zero s = if test_bit s.cr1 1 then start_frame s s.tx_fifo else s
  tick_with (suc zero) s = finish_frame (record s { bits_left = 0 })
  tick_with (suc (suc k)) s = record s { bits_left = suc k }

  unfoldable pub tick_bit : Spi X → Spi X
  tick_bit s = tick_with s.bits_left s

  -- One SSPCLK cycle.
  unfoldable pub spi_clock : Spi X → Spi X
  spi_clock s =
      let period = bit_period_cycles s.cr0 s.cpsdvsr in
      let acc = u32 (s.bit_cycle_accum + 1) in
      let half = period / 2 in
      let counted = record s { bit_cycle_accum = acc } in
      let waved =
        if not (half == 0) && (acc == half) then drive_waveform counted true else counted in
      let ended = drive_waveform (tick_bit (record waved { bit_cycle_accum = 0 })) false in
      if period == 0 then s else if leb period acc then ended else waved

  unfoldable pub on_cycles : Spi X → ℕ → Spi X
  on_cycles s sys_cycles =
      let acc = u64 (s.clk_accum + u64 (sys_cycles * s.spi_hz)) in
      let (rest, s') = drain spi_clock s.sys_hz acc acc s in
      if test_bit s.cr1 1 then record s' { clk_accum = rest } else s

  unfoldable pub set_clock_hz : Spi X → ℕ → ℕ → Spi X
  set_clock_hz s spi_hz sys_hz = record s {
    spi_hz = if spi_hz == 0 then 1 else spi_hz;
    sys_hz = if sys_hz == 0 then 1 else sys_hz;
  }

  unfoldable pub feed : Spi X → ℕ → Spi X
  feed s miso_byte = record s { miso = s.miso ++ (miso_byte ∷ []) }

  unfoldable pub take_output : Spi X → List ℕ × Spi X
  take_output s = (s.mosi_log, record s { mosi_log = [] })

  unfoldable pub tx_dreq_ready : Spi X → Bool
  tx_dreq_ready s = test_bit s.dmacr 1 && ltb (length s.tx_fifo) k_fifo_depth

  unfoldable pub rx_dreq_ready : Spi X → Bool
  rx_dreq_ready s = test_bit s.dmacr 0 && not (is_empty s.rx)

  unfoldable pub read_sr : Spi X → ℕ
  read_sr s =
      of_bool (is_empty s.tx_fifo)
      + of_bool (ltb (length s.tx_fifo) k_fifo_depth) * 2
      + of_bool (not (is_empty s.rx)) * 2 ^ 2
      + of_bool (leb k_fifo_depth (length s.rx)) * 2 ^ 3
      + of_bool (not (is_empty s.tx_fifo) || ltb 0 s.bits_left) * 2 ^ 4

  unfoldable pub reset : Spi X → Spi X
  reset s = refresh_irq (record s {
    rx = [];
    tx_fifo = [];
    cr0 = 0;
    cr1 = 0;
    cpsdvsr = 0;
    imsc = 0;
    dmacr = 0;
    clk_accum = 0;
    bit_cycle_accum = 0;
    bits_left = 0;
    tx_shift = 0;
  })

  -- A read of SSPDR.
  abbrev pub read_data : Spi X → List ℕ → BusResult × Spi X
  read_data s [] = (good 0, s)
  read_data s (v ∷ rest) = (good v, refresh_irq (record s { rx = rest }))

  unfoldable pub bus_read : Spi X → ℕ → BusResult × Spi X
  bus_read s offset = if offset == 0x08 then read_data s s.rx else (
    good (
        if offset == 0x00
        then s.cr0
        else if offset == 0x04
        then s.cr1
        else if offset == 0x0C
        then read_sr s
        else if offset == 0x10
        then s.cpsdvsr
        else if offset == 0x14
        then s.imsc
        else if offset == 0x24
        then s.dmacr
        else if offset == 0x18
        then live_ris s
        else if offset == 0x1C
        then bit_and (live_ris s) s.imsc
        else 0),
    s,
  )

  unfoldable pub bus_write : Spi X → ℕ → ℕ → BusStatus × Spi X
  bus_write s offset value = (
    BusStatus.ok,
    if offset == 0x08
        then refresh_irq (
            if ltb (length s.tx_fifo) k_fifo_depth
            then record s { tx_fifo = s.tx_fifo ++ (value % 2 ^ frame_bits s.cr0 ∷ []) }
            else s)
        else if offset == 0x00
        then record s { cr0 = value }
        else if offset == 0x04
        then refresh_irq (record s { cr1 = value })
        else if offset == 0x10
        then record s { cpsdvsr = value % 2 ^ 8 }
        else if offset == 0x14
        then refresh_irq (record s { imsc = value % 2 ^ 4 })
        else if offset == 0x24
        then record s { dmacr = value % 2 ^ 2 }
        else s,
  )
