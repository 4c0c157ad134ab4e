-- ===== src/Peripherals/Adc.antt =====
-- The analogue-to-digital converter: peripherals/adc.h and adc.cpp.
pub mod Samples
use rp2040_simlator.Base.{
  ℕ, zero, suc, ◌+◌, ◌-◌, ◌*◌, ◌/◌, ◌%◌, ◌^◌, Bool, true, false, not, ◌&&◌, ◌||◌, List, [], ◌∷◌,
  ◌++◌, ltb, leb, ◌==◌, if◌then◌else◌, length, get_or, set, u32, u64, bit_and, bit_or, and_not,
  test_bit, of_bool,
}
use rp2040_simlator.Base.Bits.{set_bit}
use rp2040_simlator.Core.Bus.{BusStatus, BusResult, good}
use rp2040_simlator.Core.Interrupts.{Cores, pend_all, clear_all}
use rp2040_simlator.Peripherals.Pacing.{drain}

abbrev pub k_num_inputs : ℕ
k_num_inputs = 5

abbrev pub k_temp_channel : ℕ
k_temp_channel = 4

abbrev pub k_fifo_depth : ℕ
k_fifo_depth = 4

-- ADC_IRQ_FIFO is exception 38.
abbrev pub k_irq : ℕ
k_irq = 38

-- FCS.ERR, OVER and UNDER.
abbrev pub k_fcs_sticky : ℕ
k_fcs_sticky = 0xC04

pub record Adc : Type 0 where
  pub adc_hz : ℕ
  pub sys_hz : ℕ
  pub input : List ℕ
  pub fifo : List ℕ
  pub result : ℕ
  pub cs : ℕ
  pub fcs : ℕ
  pub div : ℕ
  pub inte : ℕ
  pub intf : ℕ
  pub adc_clk_accum : ℕ
  pub conv_countdown : ℕ
  pub converting : Bool
  pub nvic : List ℕ
  pub cpus : Cores

unfoldable pub dreq_ready : Adc → Bool
dreq_ready a = test_bit a.fcs 3 && not (length a.fifo == 0)

unfoldable pub set_input : Adc → ℕ → ℕ → Adc
set_input a channel raw12 =
    if ltb channel k_num_inputs
    then record a { input = set a.input channel (raw12 % 2 ^ 12) }
    else a

-- RROBIN, the channels in the round.
abbrev pub rrobin_mask : ℕ → ℕ
rrobin_mask cs = cs / 2 ^ 16 % 2 ^ 5

-- The loop over the channels that follow one, from a step on.
unfoldable pub search_rrobin : ℕ → ℕ → ℕ → ℕ → ℕ
search_rrobin mask from zero step = from
search_rrobin mask from (suc left) step =
    let ch = (from + step) % k_num_inputs in
    let rest = search_rrobin mask from left (step + 1) in if test_bit mask ch then ch else rest

unfoldable pub next_rrobin : Adc → ℕ → ℕ
next_rrobin a from =
    let mask = rrobin_mask a.cs in
    if mask == 0 then from else search_rrobin mask from k_num_inputs 1

unfoldable pub refresh_irq : Adc → Adc
refresh_irq a =
    let thresh = a.fcs / 2 ^ 24 % 2 ^ 4 in
    let ris = of_bool (leb (if thresh == 0 then 1 else thresh) (length a.fifo)) in
    let mis = bit_and (bit_or ris (a.intf % 2)) (a.inte % 2) in
    record a {
      cpus = if mis == 0 then clear_all a.nvic k_irq a.cpus else pend_all a.nvic k_irq a.cpus;
    }

-- The sample of a channel; the temperature sensor reads 0 where it is off.
unfoldable pub code_of : Adc → ℕ → ℕ
code_of a ch =
    (if ch == k_temp_channel && not (test_bit a.cs 1) then 0 else get_or a.input ch 0) % 2 ^ 12

-- The sample into the FIFO, or the overflow flag.
unfoldable pub store : Adc → ℕ → Adc
store a code =
    let sample = if test_bit a.fcs 1 then code / 2 ^ 4 % 2 ^ 8 else code in
    if not (test_bit a.fcs 0)
    then a
    else if leb k_fifo_depth (length a.fifo)
    then record a { fcs = set_bit a.fcs 10 }
    else record a { fifo = a.fifo ++ sample ∷ [] }

-- The next channel of the round, where there is one.
unfoldable pub advance : Adc → ℕ → Adc
advance a ch =
    if rrobin_mask a.cs == 0
    then a
    else record a { cs = bit_or (and_not a.cs (7 * 2 ^ 12)) (next_rrobin a ch * 2 ^ 12) }

unfoldable pub convert : Adc → Adc
convert a =
    let sel = a.cs / 2 ^ 12 % 2 ^ 3 in
    let ch = if leb k_num_inputs sel then 0 else sel in
    let code = code_of a ch in
    refresh_irq (advance (store (record a { result = code; cs = set_bit a.cs 8 }) code) ch)

-- The clocks of a conversion.
abbrev pub conversion : Adc → ℕ
conversion a = 96 + a.div / 2 ^ 8 % 2 ^ 16

abbrev pub started : Adc → Adc
started a = record a { converting = true; conv_countdown = conversion a; cs = and_not a.cs (2 ^ 8) }

-- `--conv_countdown_` is on 32 bits.
unfoldable pub finish_clock : Adc → Adc
finish_clock a =
    let left = u32 (a.conv_countdown + 2 ^ 32 - 1) in
    if not a.converting
    then a
    else if left == 0
    then convert (record a { conv_countdown = left; converting = false })
    else record a { conv_countdown = left }

-- One clock of the converter.
unfoldable pub adc_clock : Adc → Adc
adc_clock a =
    let a' = finish_clock a in if not a'.converting && test_bit a'.cs 3 then started a' else a'

unfoldable pub on_cycles : Adc → ℕ → Adc
on_cycles a sys_cycles =
    let acc = u64 (a.adc_clk_accum + u64 (sys_cycles * a.adc_hz)) in
    let (rest, a') = drain adc_clock a.sys_hz acc acc a in
    if test_bit a.cs 0 then record a' { adc_clk_accum = rest } else a

unfoldable pub set_clock_hz : Adc → ℕ → ℕ → Adc
set_clock_hz a adc_hz sys_hz = record a {
  adc_hz = if adc_hz == 0 then 1 else adc_hz;
  sys_hz = if sys_hz == 0 then 1 else sys_hz;
}

unfoldable pub reset : Adc → Adc
reset a = refresh_irq (record a {
  fifo = [];
  result = 0;
  cs = 0;
  fcs = 0;
  div = 0;
  inte = 0;
  intf = 0;
  adc_clk_accum = 0;
  conv_countdown = 0;
  converting = false;
})

-- FCS with the level of the FIFO, and EMPTY and FULL added to the word that was written.
unfoldable pub read_fcs : Adc → ℕ
read_fcs a =
    let v = bit_or (and_not a.fcs (0xF * 2 ^ 16)) (length a.fifo % 2 ^ 4 * 2 ^ 16) in
    let v1 = if length a.fifo == 0 then set_bit v 8 else v in
    if leb k_fifo_depth (length a.fifo) then set_bit v1 9 else v1

unfoldable pub read_fifo : Adc → BusResult × Adc
read_fifo a = go a.fifo
  where
    go : List ℕ → BusResult × Adc
    go [] = (good 0, record a { fcs = set_bit a.fcs 11 })
    go (v ∷ vs) = (good v, refresh_irq (record a { fifo = vs }))

unfoldable pub reg_read : Adc → ℕ → BusResult × Adc
reg_read a offset =
    let some_sample = of_bool (leb 1 (length a.fifo)) in
    if offset == 0x0C then read_fifo a else (
      good (
          if offset == 0x00
          then a.cs
          else if offset == 0x04
          then a.result
          else if offset == 0x08
          then read_fcs a
          else if offset == 0x10
          then a.div
          else if offset == 0x14
          then some_sample
          else if offset == 0x18
          then a.inte
          else if offset == 0x1C
          then a.intf
          else if offset == 0x20
          then bit_and (bit_or some_sample a.intf) a.inte
          else 0),
      a,
    )

-- A write to CS, which stores neither READY nor START_ONCE.
unfoldable pub write_cs : Adc → ℕ → Adc
write_cs a value =
    let a' = record a { cs = and_not (and_not value (2 ^ 8)) (2 ^ 2) } in
    refresh_irq
      (if test_bit value 2 && test_bit a'.cs 0 && not a.converting then started a' else a')

unfoldable pub reg_write : Adc → ℕ → ℕ → BusStatus × Adc
reg_write a offset value = (
  BusStatus.ok,
  if offset == 0x00
      then write_cs a value
      else if offset == 0x08
      then refresh_irq (record a {
        fcs =
            bit_or (and_not value k_fcs_sticky)
              (and_not (bit_and a.fcs k_fcs_sticky) (bit_and value k_fcs_sticky));
      })
      else if offset == 0x10
      then record a { div = value }
      else if offset == 0x18
      then refresh_irq (record a { inte = value % 2 })
      else if offset == 0x1C
      then refresh_irq (record a { intf = value % 2 })
      else a,
)
