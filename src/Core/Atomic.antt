-- ===== src/Core/Atomic.antt =====
-- The register aliases of a peripheral: core/atomic_peripheral.h.
pub mod Aliases
use rp2040_simlator.Base.{
  ℕ, ◌+◌, ◌-◌, ◌/◌, ◌%◌, ◌^◌, ◌==◌, ◌≡◌, if◌then◌else◌, bit_and, bit_or, bit_xor, and_not,
}
use rp2040_simlator.Core.Bus.{BusWidth, BusStatus, BusResult, good}

-- The virtual functions that a subclass implements, on its state S.
pub record Registers (S : Type 0) : Type 0 where
  pub reg_read : S → ℕ → BusWidth → BusResult × S
  pub reg_write : S → ℕ → ℕ → BusWidth → BusStatus × S

-- A register that can be written and read back: `view` is what it holds, reads give it and change
-- nothing, and a write sets it in the bits of `mask`.
pub record Storage {S : Type 0} (p : Registers S) (reg mask : ℕ) : Type 0 where
  pub view : S → ℕ
  pub reads : (s : S) (w : BusWidth) → p.reg_read s reg w ≡ (good (view s), s)
  pub writes : (s : S) (v : ℕ) (w : BusWidth) → view (p.reg_write s reg v w).1 ≡ bit_and v mask

module _ {S : Type 0} (p : Registers S) where
  unfoldable pub bus_read : S → ℕ → BusWidth → BusResult × S
  bus_read s offset w = p.reg_read s (offset % 2 ^ 12) w

  -- The alias is bits 12 and 13 of the offset. Only an alias reads the register first.
  unfoldable pub bus_write : S → ℕ → ℕ → BusWidth → BusStatus × S
  bus_write s offset value w =
      let reg = offset % 2 ^ 12 in
      let alias = offset / 2 ^ 12 % 4 in
      let (r, s') = p.reg_read s reg w in
      let old = r.value in
      if alias == 1
      then p.reg_write s' reg (bit_xor old value) w
      else if alias == 2
      then p.reg_write s' reg (bit_or old value) w
      else if alias == 3
      then p.reg_write s' reg (and_not old value) w
      else p.reg_write s reg value w
