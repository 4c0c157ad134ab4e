-- ===== src/Peripherals/Adc/Samples.antt =====
-- The samples of the converter stay within its FIFO.
use rp2040_simlator.Base.{
  ℕ, zero, suc, ◌+◌, ◌≤◌, ◌≡◌, refl, Bool, true, false, not, List, [], ◌∷◌, ◌++◌, leb,
  if◌then◌else◌, length, arith, ◌-◌, ◌*◌, ◌/◌, ◌%◌, ◌^◌, ◌&&◌, ◌==◌, and_not, u32, u64, Bool-cases,
  inl, inr, test_bit,
}
use rp2040_simlator.Base.Bits.{set_bit}
use rp2040_simlator.Peripherals.Adc.{
  Adc, k_num_inputs, k_fifo_depth, rrobin_mask, code_of, store, advance, convert, refresh_irq,
  finish_clock, adc_clock, on_cycles, reset, read_fifo, reg_read, started, write_cs, reg_write,
}
use rp2040_simlator.Peripherals.Pacing.{drain}

-- The FIFO holds no more than its depth.
unfoldable pub Fits : Adc → Type 0
Fits a = length a.fifo ≤ k_fifo_depth

length_snoc : (xs : List ℕ) (x : ℕ) → length (xs ++ x ∷ []) ≡ suc (length xs)
length_snoc [] x = refl
length_snoc (y ∷ xs) x = omega (arith, length_snoc xs x)

either-Fits : (b : Bool) (x y : Adc) → Fits x → Fits y → Fits (if b then x else y)
either-Fits true x y hx hy = hx
either-Fits false x y hx hy = hy

store-Fits : (a : Adc) (code : ℕ) → Fits a → Fits (store a code)
unfolding Fits store
store-Fits a code h = elim (Bool-cases (test_bit a.fcs 0)) [
  | inr e ↦ rw (e) h
  | inl e ↦ elim (Bool-cases (leb k_fifo_depth (length a.fifo))) [
    | inl f ↦ rw (e, f) h
    | inr f ↦
        rw (e, f, length_snoc a.fifo (if test_bit a.fcs 1 then code / 2 ^ 4 % 2 ^ 8 else code))
          (ground (arith, f))
  ]
]

advance-Fits : (a : Adc) (ch : ℕ) → Fits a → Fits (advance a ch)
unfolding Fits advance
advance-Fits a ch h = elim (Bool-cases (rrobin_mask a.cs == 0)) [
  | inl e ↦ rw (e) h
  | inr e ↦ rw (e) h
]

convert-Fits : (a : Adc) → Fits a → Fits (convert a)
unfolding Fits convert refresh_irq
convert-Fits a h = advance-Fits (store sampled code) ch (store-Fits sampled code h)
  where
    ch : ℕ
    ch = if leb k_num_inputs (a.cs / 2 ^ 12 % 2 ^ 3) then 0 else a.cs / 2 ^ 12 % 2 ^ 3

    code : ℕ
    code = code_of a ch

    sampled : Adc
    sampled = record a { result = code; cs = set_bit a.cs 8 }

finish_clock-Fits : (a : Adc) → Fits a → Fits (finish_clock a)
unfolding Fits finish_clock
finish_clock-Fits a h = elim (Bool-cases a.converting) [
  | inr e ↦ rw (e) h
  | inl e ↦ elim (Bool-cases (left == 0)) [
    | inl f ↦ rw (e, f) (convert-Fits (record a { conv_countdown = left; converting = false }) h)
    | inr f ↦ rw (e, f) h
  ]
]
  where
    left : ℕ
    left = u32 (a.conv_countdown + 2 ^ 32 - 1)

adc_clock-Fits : (a : Adc) → Fits a → Fits (adc_clock a)
unfolding Fits adc_clock
adc_clock-Fits a h =
    elim (Bool-cases (not (finish_clock a).converting && test_bit (finish_clock a).cs 3)) [
      | inl e ↦ rw (e) (finish_clock-Fits a h)
      | inr e ↦ rw (e) (finish_clock-Fits a h)
    ]

drain-Fits : (period fuel acc : ℕ) (a : Adc) → Fits a → Fits (drain adc_clock period fuel acc a).1
unfolding drain
drain-Fits period zero acc a h = h
drain-Fits period (suc fuel) acc a h = elim (Bool-cases (leb period acc)) [
  | inl e ↦ rw (e) (drain-Fits period fuel (acc - period) (adc_clock a) (adc_clock-Fits a h))
  | inr e ↦ rw (e) h
]

on_cycles-Fits : (a : Adc) (n : ℕ) → Fits a → Fits (on_cycles a n)
unfolding Fits on_cycles
on_cycles-Fits a n h = elim (Bool-cases (test_bit a.cs 0)) [
  | inl e ↦ rw (e) (
      drain-Fits a.sys_hz (u64 (a.adc_clk_accum + u64 (n * a.adc_hz)))
        (u64 (a.adc_clk_accum + u64 (n * a.adc_hz))) a h)
  | inr e ↦ rw (e) h
]

read_fifo-Fits : (a : Adc) → Fits a → Fits (read_fifo a).1
unfolding Fits read_fifo refresh_irq
read_fifo-Fits a h = popped a.fifo h
  where
    popped : (vs : List ℕ) → length vs ≤ k_fifo_depth → Fits (read_fifo (record a { fifo = vs })).1
    popped [] le = omega arith
    popped (v ∷ vs) le = omega (arith, le)

reg_read-Fits : (a : Adc) (offset : ℕ) → Fits a → Fits (reg_read a offset).1
unfolding Fits reg_read
reg_read-Fits a offset h = elim (Bool-cases (offset == 0x0C)) [
  | inl e ↦ rw (e) (read_fifo-Fits a h)
  | inr e ↦ rw (e) h
]

write_cs-Fits : (a : Adc) (value : ℕ) → Fits a → Fits (write_cs a value)
unfolding Fits write_cs refresh_irq
write_cs-Fits a value h =
    either-Fits (test_bit value 2 && test_bit cs 0 && not a.converting)
      (started (record a { cs = cs })) (record a { cs = cs }) h h
  where
    cs : ℕ
    cs = and_not (and_not value (2 ^ 8)) (2 ^ 2)

reg_write-Fits : (a : Adc) (offset value : ℕ) → Fits a → Fits (reg_write a offset value).1
unfolding Fits reg_write refresh_irq
reg_write-Fits a offset value h = elim (Bool-cases (offset == 0x00)) [
  | inl e ↦ rw (e) (write_cs-Fits a value h)
  | inr e ↦ elim (Bool-cases (offset == 0x08)) [
    | inl f ↦ rw (e, f) h
    | inr f ↦ elim (Bool-cases (offset == 0x10)) [
      | inl g ↦ rw (e, f, g) h
      | inr g ↦ elim (Bool-cases (offset == 0x18)) [
        | inl k ↦ rw (e, f, g, k) h
        | inr k ↦ elim (Bool-cases (offset == 0x1C)) [
          | inl l ↦ rw (e, f, g, k, l) h
          | inr l ↦ rw (e, f, g, k, l) h
        ]
      ]
    ]
  ]
]

-- From a converter whose FIFO holds no more than its depth, each of these leaves it so: any number
-- of system clocks, a read and a write of any register, and a reset.
pub Fits-kept :
    (a : Adc) (n offset value : ℕ)
    → Fits a
    → Fits (on_cycles a n)
      × Fits (reg_read a offset).1
      × Fits (reg_write a offset value).1
      × Fits (reset a)
unfolding Fits reset refresh_irq
Fits-kept a n offset value h =
    (on_cycles-Fits a n h, reg_read-Fits a offset h, reg_write-Fits a offset value h, omega arith)
