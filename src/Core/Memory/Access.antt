-- ===== src/Core/Memory/Access.antt =====
-- Reading back what was written: the SRAM side of core/memory.cpp.
use rp2040_simlator.Base.{
  ℕ, zero, suc, ◌+◌, ◌*◌, ◌^◌, ◌≤◌, ◌<◌, ◌≡◌, ◌⊎◌, refl, arith, u8, ◌>>>◌, ap,
}
use native.Mathlib.Nat.{add-zero}
use native.Mathlib.Numerals.{towards_suc}
use rp2040_simlator.Base.Bits.{bit_or_above}
use rp2040_simlator.Core.Bus.{BusWidth, bytes, bits_mod}
use rp2040_simlator.Core.Memory.{update}
use rp2040_simlator.Core.Memory.Scalar.{assemble, scatter}

-- Little-endian: the value of `n` bytes from `off` on.
abbrev pub bytes_value : (ℕ → ℕ) → ℕ → BusWidth → ℕ
bytes_value p off BusWidth.byte = p off
bytes_value p off BusWidth.half = p off + p (off + 1) * 2 ^ 8
bytes_value p off BusWidth.word =
    p off + p (off + 1) * 2 ^ 8 + p (off + 2) * 2 ^ 16 + p (off + 3) * 2 ^ 24

-- Every byte of the SRAM is a byte.
abbrev pub IsBytes : (ℕ → ℕ) → Type 0
IsBytes p = (i : ℕ) → p i < 256

-- What the loop of `read_scalar` adds to its accumulator.
pub rest : (ℕ → ℕ) → ℕ → ℕ → ℕ → ℕ
rest p off zero i = 0
rest p off (suc left) i = p (off + i) * 2 ^ (8 * i) + rest p off left (i + 1)

next_byte : (i : ℕ) → 2 ^ (8 * (i + 1)) ≡ 256 * 2 ^ (8 * i)
next_byte i = rw eight (simp towards_suc (omega arith))
  where
    eight : 8 * (i + 1) ≡ 8 * i + 8
    eight = omega arith

assemble-rest :
    (p : ℕ → ℕ) (off left i value : ℕ)
    → IsBytes p
    → value < 2 ^ (8 * i)
    → assemble p off left i value ≡ value + rest p off left i
unfolding assemble rest
assemble-rest p off zero i value h v = omega arith
assemble-rest p off (suc left) i value h v =
    rw (bit_or_above (8 * i) value (p (off + i)) v)
      (omega (arith, assemble-rest p off left (i + 1) (value + p (off + i) * 2 ^ (8 * i)) h fits))
  where
    fits : value + p (off + i) * 2 ^ (8 * i) < 2 ^ (8 * (i + 1))
    fits = grind (arith, next_byte i, h (off + i))

-- The loop of `read_scalar` computes the little-endian value of the bytes.
pub assemble_value :
    (p : ℕ → ℕ) (off : ℕ) (w : BusWidth)
    → IsBytes p
    → assemble p off (bytes w) 0 0 ≡ bytes_value p off w
unfolding rest
assemble_value p off BusWidth.byte h =
    omega (arith, assemble-rest p off 1 0 0 h (omega arith), ap p (add-zero off))
assemble_value p off BusWidth.half h =
    omega (arith, assemble-rest p off 2 0 0 h (omega arith), ap p (add-zero off))
assemble_value p off BusWidth.word h =
    omega (arith, assemble-rest p off 4 0 0 h (omega arith), ap p (add-zero off))

-- The bytes that the loop of `write_scalar` leaves: those of the value inside the span, the old
-- ones outside.
pub scatter_outside :
    (p : ℕ → ℕ) (off left i raw j : ℕ)
    → (j < off + i) ⊎ (off + i + left ≤ j)
    → scatter p off left i raw j ≡ p j
unfolding scatter
scatter_outside p off zero i raw j h = refl
scatter_outside p off (suc left) i raw j h =
    ground
      (arith, scatter_outside (update p (off + i) (u8 (raw >>> (8 * i)))) off left (i + 1) raw j)

pub scatter-IsBytes :
    (p : ℕ → ℕ) (off left i raw : ℕ) → IsBytes p → IsBytes (scatter p off left i raw)
unfolding scatter
scatter-IsBytes p off zero i raw h = h
scatter-IsBytes p off (suc left) i raw h =
    scatter-IsBytes (update p (off + i) (u8 (raw >>> (8 * i)))) off left (i + 1) raw
      (λ j. ground (arith, h j))

pub scatter_value :
    (p : ℕ → ℕ) (off raw : ℕ) (w : BusWidth)
    → raw < bits_mod w
    → bytes_value (scatter p off (bytes w) 0 raw) off w ≡ raw
unfolding scatter
scatter_value p off raw BusWidth.byte h = ground arith
scatter_value p off raw BusWidth.half h = ground arith
scatter_value p off raw BusWidth.word h = ground arith
