-- ===== src/Peripherals/Uart.antt =====
-- The UART: peripherals/uart.h and uart.cpp.
pub mod Frames
use rp2040_simlator.Base.{
  ℕ, zero, suc, ◌+◌, ◌-◌, ◌*◌, ◌/◌, ◌%◌, ◌^◌, Bool, true, false, not, ◌&&◌, ◌||◌, List, [], ◌∷◌,
  ◌++◌, ltb, leb, ◌==◌, if◌then◌else◌, length, is_empty, u8, u32, u64, bit_and, bit_or, and_not,
  test_bit, of_bool,
}
use rp2040_simlator.Base.Bits.{set_bit}
use rp2040_simlator.Core.Bus.{BusStatus, BusResult, good}
use rp2040_simlator.Core.Interrupts.{Cores, pend_all, clear_all}

abbrev pub k_fifo_depth : ℕ
k_fifo_depth = 32

-- Bits 6 to 10: the receive timeout and the four errors.
abbrev pub k_int_sticky : ℕ
k_int_sticky = 0x7C0

pub record RxEntry : Type 0 where
  pub data_byte : ℕ
  pub err : ℕ

-- What the baud rate generator drives: the transmitter, the receiver and the interrupt. A byte that
-- has been sent is appended to `tx_log`; the callback for it is outside.
pub record Line : Type 0 where
  pub rx : List RxEntry
  pub rx_wire : List RxEntry
  pub tx_fifo : List ℕ
  pub tx_log : List ℕ
  pub lcr_h : ℕ
  pub cr : ℕ
  pub imsc : ℕ
  pub ris : ℕ
  pub oe : Bool
  pub tx_bits_left : ℕ
  pub tx_shift : ℕ
  pub rx_bits_left : ℕ
  pub rx_shift : RxEntry
  pub irq : ℕ
  pub nvic : List ℕ
  pub cpus : Cores

pub record Uart : Type 0 where
  pub line : Line
  pub dmacr : ℕ
  pub last_rx_err : ℕ
  pub ibrd : ℕ
  pub fbrd : ℕ
  pub uart_hz : ℕ
  pub sys_hz : ℕ
  pub clk_accum : ℕ
  pub bit_accum_x64 : ℕ

unfoldable pub bits_per_frame : Line → ℕ
bits_per_frame l =
    let data_bits = 5 + l.lcr_h / 2 ^ 5 % 4 in
    let parity_bits = if test_bit l.lcr_h 1 then 1 else 0 in
    let stop_bits = if test_bit l.lcr_h 3 then 2 else 1 in 1 + data_bits + parity_bits + stop_bits

unfoldable pub bit_period_x64 : Uart → ℕ
bit_period_x64 u = 1024 * u.ibrd + 16 * u.fbrd

-- A transmitter that may not start, or has nothing to send, waits.
abbrev pub start_tx : List ℕ → Line → Line
start_tx [] l = l
start_tx (b ∷ rest) l = record l { tx_shift = b; tx_fifo = rest; tx_bits_left = bits_per_frame l }

unfoldable pub tick_tx_bit : Line → Line
tick_tx_bit l =
    let counted = record l { tx_bits_left = l.tx_bits_left - 1 } in
    if ltb 0 l.tx_bits_left
    then (if l.tx_bits_left == 1
        then record counted { tx_log = l.tx_log ++ (l.tx_shift ∷ []) }
        else counted)
    else if not (test_bit l.cr 8) || test_bit l.lcr_h 0
    then l
    else start_tx l.tx_fifo l

-- The error flags of UARTRIS that a received byte raises: FE, PE and BE are bits 7 to 9.
abbrev pub raise_if : Bool → ℕ → ℕ → ℕ
raise_if b n ris = if b then set_bit ris n else ris

abbrev pub receive : Line → Line
receive l =
    let e = l.rx_shift in
    if ltb (length l.rx) k_fifo_depth
    then record l {
      rx = l.rx ++ (e ∷ []);
      ris =
          raise_if (test_bit e.err 2) 9
            (raise_if (test_bit e.err 1) 8 (raise_if (test_bit e.err 0) 7 l.ris));
    }
    else record l { oe = true; ris = set_bit l.ris 10 }

abbrev pub start_rx : List RxEntry → Line → Line
start_rx [] l = l
start_rx (e ∷ rest) l = record l { rx_shift = e; rx_wire = rest; rx_bits_left = bits_per_frame l }

unfoldable pub tick_rx_bit : Line → Line
tick_rx_bit l =
    let counted = record l { rx_bits_left = l.rx_bits_left - 1 } in
    if ltb 0 l.rx_bits_left
    then (if l.rx_bits_left == 1 then receive counted else counted)
    else if not (test_bit l.cr 9)
    then l
    else start_rx l.rx_wire l

unfoldable pub read_ris : Line → ℕ
read_ris l =
    let sticky = bit_and l.ris k_int_sticky in
    let with_rx = if is_empty l.rx then sticky else set_bit sticky 4 in
    if test_bit l.cr 0
    then (if ltb (length l.tx_fifo) k_fifo_depth then set_bit with_rx 5 else with_rx)
    else sticky

unfoldable pub refresh_irq : Line → Line
refresh_irq l = record l {
  cpus =
      if bit_and (read_ris l) l.imsc == 0
      then clear_all l.nvic l.irq l.cpus
      else pend_all l.nvic l.irq l.cpus;
}

unfoldable pub tick_bit : Line → Line
tick_bit l = refresh_irq (tick_rx_bit (tick_tx_bit l))

-- The inner loop of `on_cycles`, on fuel: the accumulator is enough, as the period is above 0.
unfoldable pub bits : ℕ → ℕ → Uart → Uart
bits zero period u = u
bits (suc fuel) period u =
    let rest =
      bits fuel period
        (record u { bit_accum_x64 = u.bit_accum_x64 - period; line = tick_bit u.line }) in
    if leb period u.bit_accum_x64 then rest else u

-- One UARTCLK cycle.
unfoldable pub uart_clock : Uart → Uart
uart_clock u =
    let acc = u32 (u.bit_accum_x64 + 64) in
    let period = bit_period_x64 u in
    if period == 0 then u else bits acc period (record u { bit_accum_x64 = acc })

-- The outer loop, on fuel in the same way, as `sys_hz` is never 0.
unfoldable pub clocks : ℕ → Uart → Uart
clocks zero u = u
clocks (suc fuel) u =
    let rest = clocks fuel (uart_clock (record u { clk_accum = u.clk_accum - u.sys_hz })) in
    if leb u.sys_hz u.clk_accum then rest else u

unfoldable pub on_cycles : Uart → ℕ → Uart
on_cycles u sys_cycles =
    let acc = u64 (u.clk_accum + u64 (sys_cycles * u.uart_hz)) in
    if test_bit u.line.cr 0 then clocks acc (record u { clk_accum = acc }) else u

unfoldable pub set_clock_hz : Uart → ℕ → ℕ → Uart
set_clock_hz u uart_hz sys_hz = record u {
  uart_hz = if uart_hz == 0 then 1 else uart_hz;
  sys_hz = if sys_hz == 0 then 1 else sys_hz;
}

unfoldable pub feed : Uart → ℕ → ℕ → Uart
feed u byte err = record u {
  line = record (u.line) {
    rx_wire = u.line.rx_wire ++ (record { data_byte = byte; err = err } ∷ []);
  };
}

unfoldable pub read_fr : Line → ℕ
read_fr l =
    let idle = l.tx_bits_left == 0 in
    of_bool (is_empty l.tx_fifo && idle) * 2 ^ 7
    + of_bool (leb k_fifo_depth (length l.tx_fifo)) * 2 ^ 5
    + of_bool (is_empty l.rx) * 2 ^ 4
    + of_bool (leb k_fifo_depth (length l.rx)) * 2 ^ 6
    + of_bool (not (is_empty l.tx_fifo) || not idle) * 2 ^ 3

unfoldable pub tx_dreq_ready : Uart → Bool
tx_dreq_ready u = test_bit u.dmacr 1 && ltb (length u.line.tx_fifo) k_fifo_depth

unfoldable pub rx_dreq_ready : Uart → Bool
rx_dreq_ready u = test_bit u.dmacr 0 && not (is_empty u.line.rx)

unfoldable pub reset : Uart → Uart
reset u = record u {
  line = refresh_irq (record (u.line) {
    rx = [];
    rx_wire = [];
    tx_fifo = [];
    lcr_h = 0;
    cr = 0x300;
    imsc = 0;
    ris = 0;
    oe = false;
    tx_bits_left = 0;
    tx_shift = 0;
    rx_bits_left = 0;
    rx_shift = record { data_byte = 0; err = 0 };
  });
  dmacr = 0;
  last_rx_err = 0;
  ibrd = 0;
  fbrd = 0;
  clk_accum = 0;
  bit_accum_x64 = 0;
}

-- A read of UARTDR.
unfoldable pub read_data : Uart → List RxEntry → BusResult × Uart
read_data u [] = (good 0, u)
read_data u (e ∷ rest) = (
  good (bit_or (bit_or e.data_byte (e.err * 2 ^ 8)) (if u.line.oe then 2 ^ 11 else 0)),
  record u { last_rx_err = e.err; line = refresh_irq (record (u.line) { rx = rest }) },
)

unfoldable pub bus_read : Uart → ℕ → BusResult × Uart
bus_read u offset =
    let l = u.line in
    if offset == 0x00 then read_data u l.rx else (
      good (
          if offset == 0x04
          then bit_or u.last_rx_err (if l.oe then 8 else 0)
          else if offset == 0x18
          then read_fr l
          else if offset == 0x2C
          then l.lcr_h
          else if offset == 0x24
          then u.ibrd
          else if offset == 0x28
          then u.fbrd
          else if offset == 0x30
          then l.cr
          else if offset == 0x38
          then l.imsc
          else if offset == 0x48
          then u.dmacr
          else if offset == 0x3C
          then read_ris l
          else if offset == 0x40
          then bit_and (read_ris l) l.imsc
          else 0),
      u,
    )

-- The writes that reach the line; the others leave it. 0x780 is FE, PE, BE and OE.
unfoldable pub write_line : ℕ → ℕ → Line → Line
write_line offset value l =
    if offset == 0x00
    then refresh_irq (
        if ltb (length l.tx_fifo) k_fifo_depth
        then record l { tx_fifo = l.tx_fifo ++ (u8 value ∷ []) }
        else l)
    else if offset == 0x04
    then refresh_irq (record l { oe = false; ris = and_not l.ris 0x780 })
    else if offset == 0x2C
    then record l { lcr_h = value }
    else if offset == 0x30
    then refresh_irq (record l { cr = value })
    else if offset == 0x38
    then refresh_irq (record l { imsc = value % 2 ^ 11 })
    else if offset == 0x44
    then refresh_irq (record l { ris = and_not l.ris (bit_and value k_int_sticky) })
    else l

unfoldable pub bus_write : Uart → ℕ → ℕ → BusStatus × Uart
bus_write u offset value =
    let w = record u { line = write_line offset value u.line } in
    (
      BusStatus.ok,
      if offset == 0x04
          then record w { last_rx_err = 0 }
          else if offset == 0x24
          then record w { ibrd = value % 2 ^ 16 }
          else if offset == 0x28
          then record w { fbrd = value % 2 ^ 6 }
          else if offset == 0x48
          then record w { dmacr = value % 2 ^ 3 }
          else w,
    )
