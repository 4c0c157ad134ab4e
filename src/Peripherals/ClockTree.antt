-- ===== src/Peripherals/ClockTree.antt =====
-- The frequencies that the clock registers amount to: peripherals/clock_tree.h and clock_tree.cpp.
pub mod Rates
use rp2040_simlator.Base.{
  ℕ, ◌+◌, ◌-◌, ◌*◌, ◌/◌, ◌%◌, ◌^◌, Bool, true, false, not, ◌||◌, ◌==◌, if◌then◌else◌, u32, bit_xor,
}
use rp2040_simlator.Peripherals.Xosc.{Xosc, k_crystal_hz, stable}
use rp2040_simlator.Peripherals.Rosc.{Rosc, k_nominal_hz, enabled}
use rp2040_simlator.Peripherals.Pll.{Pll, output_hz}
use rp2040_simlator.Peripherals.Clocks.{
  Clocks, k_ref, k_sys, k_peri, k_adc, k_rtc, gen_ctrl, gen_div, gen_configured, signature,
}

abbrev pub k_default_ref_hz : ℕ
k_default_ref_hz = 12_000_000

abbrev pub k_default_sys_hz : ℕ
k_default_sys_hz = 125_000_000

abbrev pub k_default_adc_hz : ℕ
k_default_adc_hz = 48_000_000

abbrev pub k_default_rtc_hz : ℕ
k_default_rtc_hz = 46_875

-- The components that the tree refers to. `tick` is WATCHDOG_TICK.
pub record ClockTree : Type 0 where
  pub xosc : Xosc
  pub rosc : Rosc
  pub pll_sys : Pll
  pub pll_usb : Pll
  pub clocks : Clocks
  pub tick : ℕ

-- Every rate is at most 4095 times the crystal, and 256 times that is below 2^64.
unfoldable pub apply_div : ℕ → ℕ → Bool → ℕ
apply_div in_hz div_reg has_frac =
    let denom = div_reg / 2 ^ 8 * 256 + (if has_frac then div_reg % 2 ^ 8 else 0) in
    if denom == 0 then in_hz else in_hz * 256 / denom

unfoldable pub xosc_hz : ClockTree → ℕ
xosc_hz t = if stable t.xosc then k_crystal_hz else 0

unfoldable pub rosc_hz : ClockTree → ℕ
rosc_hz t = if enabled t.rosc then k_nominal_hz else 0

unfoldable pub pll_sys_hz : ClockTree → ℕ
pll_sys_hz t = output_hz t.pll_sys k_crystal_hz

unfoldable pub pll_usb_hz : ClockTree → ℕ
pll_usb_hz t = output_hz t.pll_usb k_crystal_hz

-- A rate that came out as 0 is replaced.
abbrev pub or_default : ℕ → ℕ → ℕ
or_default out default_hz = if out == 0 then default_hz else out

-- AUXSRC of a generator, in three bits.
abbrev pub auxsrc : ClockTree → ℕ → ℕ
auxsrc t g = gen_ctrl t.clocks g / 2 ^ 5 % 2 ^ 3

unfoldable pub clk_ref_hz : ClockTree → ℕ
clk_ref_hz t =
    let ctrl = gen_ctrl t.clocks k_ref in
    let src =
      if ctrl % 4 == 0
      then rosc_hz t
      else if ctrl % 4 == 2
      then xosc_hz t
      else if ctrl / 2 ^ 5 % 4 == 0
      then pll_usb_hz t
      else 0 in
    if gen_configured t.clocks k_ref
    then or_default (apply_div src (gen_div t.clocks k_ref) false) k_default_ref_hz
    else k_default_ref_hz

unfoldable pub aux_source_hz : ClockTree → ℕ → ℕ
aux_source_hz t aux =
    if aux == 0
    then pll_sys_hz t
    else if aux == 1
    then pll_usb_hz t
    else if aux == 2
    then rosc_hz t
    else if aux == 3
    then xosc_hz t
    else 0

unfoldable pub clk_sys_hz : ClockTree → ℕ
clk_sys_hz t =
    let src =
      if gen_ctrl t.clocks k_sys % 2 == 0 then clk_ref_hz t else aux_source_hz t (auxsrc t k_sys) in
    if gen_configured t.clocks k_sys
    then or_default (apply_div src (gen_div t.clocks k_sys) true) k_default_sys_hz
    else k_default_sys_hz

unfoldable pub clk_peri_hz : ClockTree → ℕ
clk_peri_hz t =
    let aux = auxsrc t k_peri in
    let src = if aux == 0 then clk_sys_hz t else aux_source_hz t (aux - 1) in
    if gen_configured t.clocks k_peri then or_default src (clk_sys_hz t) else clk_sys_hz t

-- AUXSRC of the ADC and of the RTC names the PLLs the other way round.
abbrev pub swapped_source_hz : ClockTree → ℕ → ℕ
swapped_source_hz t aux =
    if aux == 0
    then pll_usb_hz t
    else if aux == 1
    then pll_sys_hz t
    else if aux == 2
    then rosc_hz t
    else if aux == 3
    then xosc_hz t
    else 0

unfoldable pub clk_adc_hz : ClockTree → ℕ
clk_adc_hz t =
    if gen_configured t.clocks k_adc
    then or_default
        (apply_div (swapped_source_hz t (auxsrc t k_adc)) (gen_div t.clocks k_adc) false)
        k_default_adc_hz
    else k_default_adc_hz

unfoldable pub clk_rtc_hz : ClockTree → ℕ
clk_rtc_hz t =
    if gen_configured t.clocks k_rtc
    then or_default (apply_div (swapped_source_hz t (auxsrc t k_rtc)) (gen_div t.clocks k_rtc) true)
        k_default_rtc_hz
    else k_default_rtc_hz

-- `wd_.tick_cycles()`.
abbrev pub tick_cycles : ClockTree → ℕ
tick_cycles t = t.tick % 2 ^ 9

abbrev pub pll_signature : Pll → ℕ
pll_signature p = bit_xor (bit_xor (bit_xor p.cs p.pwr) p.fbdiv) p.prim

unfoldable pub tree_signature : ClockTree → ℕ
tree_signature t =
    bit_xor
      (bit_xor
        (bit_xor
          (bit_xor (bit_xor (signature t.clocks) (u32 (pll_signature t.pll_sys * 2_654_435_761)))
            (u32 (pll_signature t.pll_usb * 40_503)))
          (u32 (t.xosc.ctrl * 7)))
        (u32 (bit_xor t.rosc.ctrl t.rosc.div * 131)))
      (u32 (tick_cycles t * 2 ^ 20))

unfoldable pub timer_us_cycles : ClockTree → ℕ
timer_us_cycles t =
    let sys = clk_sys_hz t in
    let ref = clk_ref_hz t in
    let tick = if tick_cycles t == 0 then ref / 1_000_000 else tick_cycles t in
    let cyc = tick * sys / ref in
    if tick == 0 || (ref == 0) then u32 (sys / 1_000_000) else if cyc == 0 then 1 else u32 cyc
