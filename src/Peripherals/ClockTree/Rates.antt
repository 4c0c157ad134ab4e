-- ===== src/Peripherals/ClockTree/Rates.antt =====
-- Bounds on the frequencies of the clock tree.
use native.Mathlib.Nat.{div-le_self, div-le_of_le-mul}
use rp2040_simlator.Base.{
  ℕ, ◌+◌, ◌-◌, ◌*◌, ◌/◌, ◌%◌, ◌^◌, ◌≤◌, ◌<◌, Bool, true, false, ◌||◌, not, ◌==◌, if◌then◌else◌,
  arith, if_intro,
}
use rp2040_simlator.Peripherals.Xosc.{k_crystal_hz}
use rp2040_simlator.Peripherals.Pll.{Pll, locked, feedback_divider, postdiv1, postdiv2, output_hz}
use rp2040_simlator.Peripherals.Clocks.{
  k_ref, k_sys, k_peri, k_adc, k_rtc, gen_ctrl, gen_div, gen_configured,
}
use rp2040_simlator.Peripherals.ClockTree.{
  ClockTree, k_default_ref_hz, k_default_sys_hz, k_default_adc_hz, k_default_rtc_hz, apply_div,
  or_default, auxsrc, xosc_hz, rosc_hz, pll_sys_hz, pll_usb_hz, aux_source_hz, swapped_source_hz,
  clk_ref_hz, clk_sys_hz, clk_peri_hz, clk_adc_hz, clk_rtc_hz,
}

-- The largest rate of a source, and what a divider below 1 makes of it at most.
abbrev pub k_max_source : ℕ
k_max_source = k_crystal_hz * 4095

abbrev pub k_max_rate : ℕ
k_max_rate = k_max_source * 256

-- A rate that is neither 0 nor above a bound.
abbrev pub Proper : ℕ → ℕ → Type 0
Proper bound hz = (0 < hz) × (hz ≤ bound)

output_hz-le : (p : Pll) → output_hz p k_crystal_hz ≤ k_max_source
unfolding output_hz
output_hz-le p =
    if_intro (λ hz. hz ≤ k_max_source)
      (not (locked p) || (feedback_divider p == 0) || (postdiv1 p == 0) || (postdiv2 p == 0)) 0
      (k_crystal_hz * feedback_divider p / (postdiv1 p * postdiv2 p)) (λ _. omega arith)
      (λ _.
        omega (arith, div-le_self (k_crystal_hz * feedback_divider p) (postdiv1 p * postdiv2 p)))

sources :
    (t : ClockTree)
    → (xosc_hz t ≤ k_max_source)
      × (rosc_hz t ≤ k_max_source)
      × (pll_sys_hz t ≤ k_max_source)
      × (pll_usb_hz t ≤ k_max_source)
unfolding xosc_hz rosc_hz pll_sys_hz pll_usb_hz
sources t = (ground arith, ground arith, output_hz-le t.pll_sys, output_hz-le t.pll_usb)

-- Without a fraction a divider does not make a rate larger, and with one at most 256 times.
apply_div-le : (hz div : ℕ) → (apply_div hz div false ≤ hz) × (apply_div hz div true ≤ hz * 256)
unfolding apply_div
apply_div-le hz div = (
  if_intro (λ x. x ≤ hz) (div / 2 ^ 8 * 256 + 0 == 0) hz (hz * 256 / (div / 2 ^ 8 * 256 + 0))
      (λ _. omega arith) (λ e. whole (div / 2 ^ 8) (ground (arith, e))),
  if_intro (λ x. x ≤ hz * 256) (div / 2 ^ 8 * 256 + div % 2 ^ 8 == 0) hz
      (hz * 256 / (div / 2 ^ 8 * 256 + div % 2 ^ 8)) (λ _. omega arith)
      (λ _. div-le_self (hz * 256) (div / 2 ^ 8 * 256 + div % 2 ^ 8)),
)
  where
    whole : (d : ℕ) → 0 < d → hz * 256 / (d * 256 + 0) ≤ hz
    whole d pos = div-le_of_le-mul (d * 256 + 0) (grind (arith, pos))

proper :
    (out default_hz bound : ℕ)
    → out ≤ bound
    → Proper bound default_hz
    → Proper bound (or_default out default_hz)
proper out default_hz bound le d = ground (arith, le, d)

aux_source_hz-le : (t : ClockTree) (aux : ℕ) → aux_source_hz t aux ≤ k_max_source
unfolding aux_source_hz
aux_source_hz-le t aux = ground (arith, sources t)

swapped_source_hz-le : (t : ClockTree) (aux : ℕ) → swapped_source_hz t aux ≤ k_max_source
swapped_source_hz-le t aux = ground (arith, sources t)

-- What a generator makes of a source, its default included.
generated :
    (configured has_frac : Bool) (hz div default_hz : ℕ)
    → hz ≤ k_max_source
    → Proper k_max_source default_hz
    → Proper k_max_rate
        (if configured then or_default (apply_div hz div has_frac) default_hz else default_hz)
generated configured has_frac hz div default_hz le d =
    if_intro (Proper k_max_rate) configured (or_default (apply_div hz div has_frac) default_hz)
      default_hz
      (λ _. proper (apply_div hz div has_frac) default_hz k_max_rate (scaled has_frac) wide)
      (λ _. wide)
  where
    wide : Proper k_max_rate default_hz
    wide = (d.0, omega (arith, d.1))

    scaled : (frac : Bool) → apply_div hz div frac ≤ k_max_rate
    scaled true = omega (arith, le, (apply_div-le hz div).1)
    scaled false = omega (arith, le, (apply_div-le hz div).0)

-- The same of a generator whose divider has no fraction.
generated_whole :
    (configured : Bool) (hz div default_hz : ℕ)
    → hz ≤ k_max_source
    → Proper k_max_source default_hz
    → Proper k_max_source
        (if configured then or_default (apply_div hz div false) default_hz else default_hz)
generated_whole configured hz div default_hz le d =
    if_intro (Proper k_max_source) configured (or_default (apply_div hz div false) default_hz)
      default_hz
      (λ _.
        proper (apply_div hz div false) default_hz k_max_source
          (omega (arith, le, (apply_div-le hz div).0)) d)
      (λ _. d)

ref_source_hz-le :
    (t : ClockTree) (ctrl : ℕ)
    → (if ctrl % 4 == 0
        then rosc_hz t
        else if ctrl % 4 == 2
        then xosc_hz t
        else if ctrl / 2 ^ 5 % 4 == 0
        then pll_usb_hz t
        else 0)
      ≤ k_max_source
ref_source_hz-le t ctrl = ground (arith, sources t)

Proper-clk_ref_hz : (t : ClockTree) → Proper k_max_source (clk_ref_hz t)
unfolding clk_ref_hz
Proper-clk_ref_hz t =
    generated_whole (gen_configured t.clocks k_ref) _ (gen_div t.clocks k_ref) k_default_ref_hz
      (ref_source_hz-le t (gen_ctrl t.clocks k_ref)) (ground arith)

Proper-clk_sys_hz : (t : ClockTree) → Proper k_max_rate (clk_sys_hz t)
unfolding clk_sys_hz
Proper-clk_sys_hz t =
    generated (gen_configured t.clocks k_sys) true _ (gen_div t.clocks k_sys) k_default_sys_hz
      (if_intro (λ hz. hz ≤ k_max_source) (gen_ctrl t.clocks k_sys % 2 == 0) (clk_ref_hz t)
        (aux_source_hz t (auxsrc t k_sys)) (λ _. (Proper-clk_ref_hz t).1)
        (λ _. aux_source_hz-le t (auxsrc t k_sys)))
      (ground arith)

Proper-clk_peri_hz : (t : ClockTree) → Proper k_max_rate (clk_peri_hz t)
unfolding clk_peri_hz
Proper-clk_peri_hz t =
    if_intro (Proper k_max_rate) (gen_configured t.clocks k_peri) _ (clk_sys_hz t)
      (λ _. proper _ (clk_sys_hz t) k_max_rate source (Proper-clk_sys_hz t))
      (λ _. Proper-clk_sys_hz t)
  where
    source :
        (if auxsrc t k_peri == 0 then clk_sys_hz t else aux_source_hz t (auxsrc t k_peri - 1))
        ≤ k_max_rate
    source =
        if_intro (λ hz. hz ≤ k_max_rate) (auxsrc t k_peri == 0) (clk_sys_hz t)
          (aux_source_hz t (auxsrc t k_peri - 1)) (λ _. (Proper-clk_sys_hz t).1)
          (λ _. omega (arith, aux_source_hz-le t (auxsrc t k_peri - 1)))

Proper-clk_adc_hz : (t : ClockTree) → Proper k_max_source (clk_adc_hz t)
unfolding clk_adc_hz
Proper-clk_adc_hz t =
    generated_whole (gen_configured t.clocks k_adc) (swapped_source_hz t (auxsrc t k_adc))
      (gen_div t.clocks k_adc) k_default_adc_hz (swapped_source_hz-le t (auxsrc t k_adc))
      (ground arith)

Proper-clk_rtc_hz : (t : ClockTree) → Proper k_max_rate (clk_rtc_hz t)
unfolding clk_rtc_hz
Proper-clk_rtc_hz t =
    generated (gen_configured t.clocks k_rtc) true (swapped_source_hz t (auxsrc t k_rtc))
      (gen_div t.clocks k_rtc) k_default_rtc_hz (swapped_source_hz-le t (auxsrc t k_rtc))
      (ground arith)

fits : k_max_rate * 256 < 2 ^ 64
fits = ground arith

-- Whatever firmware wrote to the oscillators, the PLLs and the generators, no clock of the tree
-- has the rate 0: the reference clock and the ADC clock run between 1 Hz and 4095 times the
-- crystal, the system, peripheral and RTC clocks, whose dividers may be below 1, between 1 Hz and
-- 256 times that, so that every product of a rate and 256 stays below 2^64.
pub Proper-rates :
    (t : ClockTree)
    → Proper k_max_source (clk_ref_hz t)
      × Proper k_max_source (clk_adc_hz t)
      × Proper k_max_rate (clk_sys_hz t)
      × Proper k_max_rate (clk_peri_hz t)
      × Proper k_max_rate (clk_rtc_hz t)
      × (k_max_rate * 256 < 2 ^ 64)
Proper-rates t = (
  Proper-clk_ref_hz t,
  Proper-clk_adc_hz t,
  Proper-clk_sys_hz t,
  Proper-clk_peri_hz t,
  Proper-clk_rtc_hz t,
  fits,
)
