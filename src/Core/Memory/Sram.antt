-- ===== src/Core/Memory/Sram.antt =====
-- The bus path on the SRAM: what a store leaves behind, seen through later loads.
use rp2040_simlator.Base.{
  ℕ, ◌+◌, ◌-◌, ◌%◌, ◌≤◌, ◌<◌, ◌≡◌, ◌⊎◌, refl, Bool, true, false, arith, some, ap, inl, inr, ◌∙◌,
}
use rp2040_simlator.Core.Bus.{BusWidth, BusStatus, Devices, good, bytes, bits_mod}
use rp2040_simlator.Core.Memory.{Memory, Store, k_sram, backing, store}
use rp2040_simlator.Core.Memory.Scalar.{assemble, scatter, read_scalar, write_scalar, misaligned}
use rp2040_simlator.Core.Memory.Watchpoints.{check_watchpoints}
use rp2040_simlator.Core.Memory.Access.{
  IsBytes, assemble_value, scatter_value, scatter-IsBytes, scatter_outside,
}

-- A watchpoint check changes the latch only.
pub check_watchpoints_keeps :
    (m : Memory) (addr n : ℕ) (is_write : Bool)
    → let m' = check_watchpoints m addr n is_write in
      (m'.rom ≡ m.rom)
      × (m'.flash ≡ m.flash)
      × (m'.sram ≡ m.sram)
      × (m'.peripherals ≡ m.peripherals)
      × (m'.watchpoints ≡ m.watchpoints)
unfolding check_watchpoints
check_watchpoints_keeps m addr n is_write = ground arith

-- An aligned access of a width that lies in the SRAM.
pub record InSram (addr : ℕ) (w : BusWidth) : Type 0 where
  pub aligned : addr % bytes w ≡ 0
  pub low : k_sram.base ≤ addr
  pub high : addr + bytes w ≤ k_sram.base + k_sram.size

pub backing_sram :
    (addr : ℕ) (w : BusWidth)
    → InSram addr w
    → backing addr (bytes w) ≡ some (Store.in_sram, addr - k_sram.base)
unfolding backing
backing_sram addr BusWidth.byte h = ground arith
backing_sram addr BusWidth.half h = ground arith
backing_sram addr BusWidth.word h = ground arith

misaligned_sram : (addr : ℕ) (w : BusWidth) → InSram addr w → misaligned addr w ≡ false
misaligned_sram addr w h = rw h.aligned

module _ {S : Type 0} (devs : Devices S) (m : Memory) (s : S) (addr : ℕ) (w : BusWidth)
    (inside : InSram addr w) where
  pub write_scalar_sram :
      (value : ℕ)
      → write_scalar devs m s addr value w ≡ (
        BusStatus.ok,
        check_watchpoints
            (record m { sram = scatter m.sram (addr - k_sram.base) (bytes w) 0 value })
            addr
            (bytes w)
            true,
        s,
      )
  unfolding write_scalar
  write_scalar_sram value = rw (misaligned_sram addr w inside, backing_sram addr w inside)

  pub read_scalar_sram : read_scalar devs m s addr w ≡ (
    good (assemble m.sram (addr - k_sram.base) (bytes w) 0 0),
    check_watchpoints m addr (bytes w) false,
    s,
  )
  unfolding read_scalar
  read_scalar_sram = rw (misaligned_sram addr w inside, backing_sram addr w inside)

-- The same for a word in any of the three stores.
pub read_scalar_backed :
    {S : Type 0} (devs : Devices S) (m : Memory) (s : S) (addr off : ℕ) (st : Store)
    → addr % 4 ≡ 0
    → backing addr 4 ≡ some (st, off)
    → read_scalar devs m s addr BusWidth.word
      ≡ (good (assemble (store m st) off 4 0 0), check_watchpoints m addr 4 false, s)
unfolding read_scalar
read_scalar_backed devs m s addr off st h b = rw (h, b) refl

module _ {S : Type 0} (devs : Devices S) where
  -- A store to an aligned SRAM address succeeds, touches no peripheral, and the value is what a
  -- load of the same width reads back.
  read-write_scalar :
      (m : Memory) (s : S) (addr value : ℕ) (w : BusWidth)
      → InSram addr w
      → IsBytes m.sram
      → value < bits_mod w
      → let (st, m', s') = write_scalar devs m s addr value w in
        (st ≡ BusStatus.ok) × (s' ≡ s) × ((read_scalar devs m' s' addr w).0 ≡ good value)
  read-write_scalar m s addr value w inside h v =
      rw (write_scalar_sram devs m s addr w inside value)
        (refl, refl, rw (read_scalar_sram devs after s addr w inside) (ap good seen))
    where
      written : Memory
      written = record m { sram = scatter m.sram (addr - k_sram.base) (bytes w) 0 value }

      after : Memory
      after = check_watchpoints written addr (bytes w) true

      seen : assemble after.sram (addr - k_sram.base) (bytes w) 0 0 ≡ value
      seen = rw ((check_watchpoints_keeps written addr (bytes w) true).2) (
          assemble_value written.sram (addr - k_sram.base) w
            (scatter-IsBytes m.sram (addr - k_sram.base) (bytes w) 0 value h)
          ∙ scatter_value m.sram (addr - k_sram.base) value w v)

  -- A store to an aligned SRAM address leaves every other byte of the memory as it was, and the
  -- SRAM a vector of bytes: only the bytes [addr, addr + width) of the SRAM change.
  write_scalar_frame :
      (m : Memory) (s : S) (addr value : ℕ) (w : BusWidth)
      → InSram addr w
      → let m' = (write_scalar devs m s addr value w).1 in
        (m'.rom ≡ m.rom)
        × (m'.flash ≡ m.flash)
        × (m'.peripherals ≡ m.peripherals)
        × ((j : ℕ)
            → (k_sram.base + j < addr) ⊎ (addr + bytes w ≤ k_sram.base + j)
            → m'.sram j ≡ m.sram j)
  write_scalar_frame m s addr value w inside =
      let written = record m { sram = scatter m.sram (addr - k_sram.base) (bytes w) 0 value } in
      let kept = check_watchpoints_keeps written addr (bytes w) true in
      rw (write_scalar_sram devs m s addr w inside value) (
        kept.0,
        kept.1,
        kept.3,
        λ j out.
            ap (λ f. f j) kept.2
            ∙ scatter_outside m.sram (addr - k_sram.base) (bytes w) 0 value j (place j out),
      )
    where
      place :
          (j : ℕ)
          → (k_sram.base + j < addr) ⊎ (addr + bytes w ≤ k_sram.base + j)
          → (j < addr - k_sram.base + 0) ⊎ (addr - k_sram.base + 0 + bytes w ≤ j)
      place j (inl h) = inl (omega arith)
      place j (inr h) = inr (omega (arith, inside.low))

  -- A store to an aligned SRAM address succeeds and touches no peripheral, a load of the same width
  -- reads the value back, and nothing else has changed: not the ROM, the flash or the mappings, and
  -- of the SRAM, a vector of bytes, only the bytes [addr, addr + width).
  pub write_scalar_lem :
      (m : Memory) (s : S) (addr value : ℕ) (w : BusWidth)
      → InSram addr w
      → IsBytes m.sram
      → value < bits_mod w
      → let (st, m', s') = write_scalar devs m s addr value w in
        ((st ≡ BusStatus.ok) × (s' ≡ s) × ((read_scalar devs m' s' addr w).0 ≡ good value))
        × ((m'.rom ≡ m.rom)
            × (m'.flash ≡ m.flash)
            × (m'.peripherals ≡ m.peripherals)
            × ((j : ℕ)
                → (k_sram.base + j < addr) ⊎ (addr + bytes w ≤ k_sram.base + j)
                → m'.sram j ≡ m.sram j))
  write_scalar_lem m s addr value w inside h v =
      (read-write_scalar m s addr value w inside h v, write_scalar_frame m s addr value w inside)
