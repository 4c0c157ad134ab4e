-- ===== src/Peripherals/Clocks.antt =====
-- The clock generators: `Clocks` of peripherals/clocks.h and clocks.cpp.
use rp2040_simlator.Base.{
  ℕ, ◌+◌, ◌*◌, ◌/◌, ◌%◌, ◌^◌, Bool, ◌&&◌, List, [], ◌∷◌, ltb, ◌==◌, if◌then◌else◌, get_or, set, u32,
  test_bit,
}
use rp2040_simlator.Base.Bits.{set_bit}
use rp2040_simlator.Core.Bus.{BusStatus, BusResult, good}

abbrev pub k_num_generators : ℕ
k_num_generators = 10

-- CTRL, DIV and SELECTED of a generator.
abbrev pub k_gen_stride : ℕ
k_gen_stride = 0x0C

-- The enumerators of `Generator` that the clock tree uses.
abbrev pub k_ref : ℕ
k_ref = 4

abbrev pub k_sys : ℕ
k_sys = 5

abbrev pub k_peri : ℕ
k_peri = 6

abbrev pub k_adc : ℕ
k_adc = 8

abbrev pub k_rtc : ℕ
k_rtc = 9

pub record Gen : Type 0 where
  pub ctrl : ℕ
  pub div : ℕ

abbrev pub fresh_gen : Gen
fresh_gen = record { ctrl = 0; div = 0x1_0000 }

pub record Clocks : Type 0 where
  pub gen : List Gen
  pub configured : ℕ

abbrev pub gen_of : Clocks → ℕ → Gen
gen_of c g = get_or c.gen g (record { ctrl = 0; div = 0 })

unfoldable pub gen_ctrl : Clocks → ℕ → ℕ
gen_ctrl c g = if ltb g k_num_generators then (gen_of c g).ctrl else 0

unfoldable pub gen_div : Clocks → ℕ → ℕ
gen_div c g = if ltb g k_num_generators then (gen_of c g).div else 0

unfoldable pub gen_configured : Clocks → ℕ → Bool
gen_configured c g = ltb g k_num_generators && test_bit c.configured g

-- The loop of `signature`.
unfoldable pub mix : List Gen → ℕ → ℕ
mix [] s = s
mix (g ∷ gs) s = mix gs (u32 (u32 (u32 (s * 1_000_003) + u32 (g.ctrl * 31)) + g.div))

unfoldable pub signature : Clocks → ℕ
signature c = mix c.gen c.configured

unfoldable pub reg_read : Clocks → ℕ → BusResult
reg_read c reg =
    let g = gen_of c (reg / k_gen_stride) in
    good (
      if ltb reg (k_num_generators * k_gen_stride)
      then (if reg % k_gen_stride == 0x00
          then g.ctrl
          else if reg % k_gen_stride == 0x04
          then g.div
          else if reg % k_gen_stride == 0x08
          then 2 ^ (g.ctrl % 4)
          else 0)
      else 0)

-- The generator with a new value, and the mark that firmware has written it.
abbrev pub configure : Clocks → ℕ → Gen → Clocks
configure c g x = record { gen = set c.gen g x; configured = set_bit c.configured g }

unfoldable pub reg_write : Clocks → ℕ → ℕ → BusStatus × Clocks
reg_write c reg value =
    let g = reg / k_gen_stride in
    (
      BusStatus.ok,
      if ltb reg (k_num_generators * k_gen_stride)
          then (if reg % k_gen_stride == 0x00
              then configure c g (record (gen_of c g) { ctrl = value })
              else if reg % k_gen_stride == 0x04
              then configure c g (record (gen_of c g) { div = value })
              else c)
          else c,
    )
