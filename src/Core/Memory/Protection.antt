-- ===== src/Core/Memory/Protection.antt =====
-- What the bus path refuses, and that a refusal changes nothing.
use rp2040_simlator.Base.{
  ℕ, ◌+◌, ◌-◌, ◌%◌, ◌≤◌, ◌≡◌, ◌≢◌, ◌⊎◌, true, arith, some, if◌then◌else◌, inl, inr,
}
use rp2040_simlator.Core.Bus.{BusWidth, BusStatus, Devices, fail, bytes}
use rp2040_simlator.Core.Memory.{Memory, Store, k_rom, k_flash, backing}
use rp2040_simlator.Core.Memory.Scalar.{read_scalar, write_scalar, misaligned}

-- An address that lies in the ROM or in the flash window with its whole access.
abbrev pub InReadOnly : ℕ → BusWidth → Type 0
InReadOnly addr w =
    (addr + bytes w ≤ k_rom.base + k_rom.size)
    ⊎ ((k_flash.base ≤ addr) × (addr + bytes w ≤ k_flash.base + k_flash.size))

backing_read_only :
    (addr : ℕ) (w : BusWidth)
    → InReadOnly addr w
    → (backing addr (bytes w) ≡ some (Store.in_rom, addr - k_rom.base))
      ⊎ (backing addr (bytes w) ≡ some (Store.in_flash, addr - k_flash.base))
unfolding backing
backing_read_only addr BusWidth.byte (inl h) = inl (ground arith)
backing_read_only addr BusWidth.half (inl h) = inl (ground arith)
backing_read_only addr BusWidth.word (inl h) = inl (ground arith)
backing_read_only addr BusWidth.byte (inr h) = inr (ground arith)
backing_read_only addr BusWidth.half (inr h) = inr (ground arith)
backing_read_only addr BusWidth.word (inr h) = inr (ground arith)

module _ {S : Type 0} (devs : Devices S) where
  -- A misaligned access, read or write, is answered with MisalignedAccess, wherever it points; it
  -- reaches no peripheral and changes nothing.
  misaligned_refused :
      (m : Memory) (s : S) (addr value : ℕ) (w : BusWidth)
      → addr % bytes w ≢ 0
      → (read_scalar devs m s addr w ≡ (fail BusStatus.misaligned_access, m, s))
        × (write_scalar devs m s addr value w ≡ (BusStatus.misaligned_access, m, s))
  unfolding read_scalar write_scalar
  misaligned_refused m s addr value w h = (rw is_misaligned, rw is_misaligned)
    where
      is_misaligned : misaligned addr w ≡ true
      is_misaligned = ground arith

  -- A store to ROM or flash is refused, with WriteToReadOnly where it is aligned, and leaves the
  -- memory and the peripherals as they were.
  read_only_refused :
      (m : Memory) (s : S) (addr value : ℕ) (w : BusWidth)
      → InReadOnly addr w
      → write_scalar devs m s addr value w ≡ (
        if misaligned addr w then BusStatus.misaligned_access else BusStatus.write_to_read_only,
        m,
        s,
      )
  unfolding write_scalar
  read_only_refused m s addr value w h = elim (backing_read_only addr w h) [
    | inl e ↦ rw e (ground arith)
    | inr e ↦ rw e (ground arith)
  ]

  -- A misaligned access, read or write, is answered with MisalignedAccess, wherever it points, and an
  -- aligned store to ROM or flash with WriteToReadOnly; neither changes the memory or reaches a
  -- peripheral.
  pub refusals :
      (m : Memory) (s : S) (odd addr value : ℕ) (w : BusWidth)
      → odd % bytes w ≢ 0
      → InReadOnly addr w
      → (read_scalar devs m s odd w ≡ (fail BusStatus.misaligned_access, m, s))
        × (write_scalar devs m s odd value w ≡ (BusStatus.misaligned_access, m, s))
        × (write_scalar devs m s addr value w ≡ (
          if misaligned addr w then BusStatus.misaligned_access else BusStatus.write_to_read_only,
          m,
          s,
        ))
  refusals m s odd addr value w h k =
      let (read, write) = misaligned_refused m s odd value w h in
      (read, write, read_only_refused m s addr value w k)
