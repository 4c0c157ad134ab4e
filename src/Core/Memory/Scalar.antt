-- ===== src/Core/Memory/Scalar.antt =====
-- `read_scalar` and `write_scalar` of core/memory.cpp, the path that every CPU access takes.
use rp2040_simlator.Base.{
  ℕ, zero, suc, ◌+◌, ◌-◌, ◌*◌, ◌%◌, Bool, true, false, not, ◌&&◌, none, some, ◌==◌, if◌then◌else◌,
  u8, bit_and, bit_or, bit_xor, and_not, ◌<<<◌, ◌>>>◌,
}
use rp2040_simlator.Core.Bus.{
  BusWidth, BusStatus, BusResult, Devices, fail, good, is_ok, bytes, bits_mod,
}
use rp2040_simlator.Core.Memory.{
  Memory, Store, PeripheralMapping, contains, k_register_space, backing, store, update,
  find_peripheral,
}
use rp2040_simlator.Core.Memory.Watchpoints.{check_watchpoints}

-- The loop of `read_scalar`, with `left` rounds to go: value | (p[i] << 8 i).
unfoldable pub assemble : (ℕ → ℕ) → ℕ → ℕ → ℕ → ℕ → ℕ
assemble p off zero i value = value
assemble p off (suc left) i value =
    assemble p off left (i + 1) (bit_or value (p (off + i) <<< (8 * i)))

-- The loop of `write_scalar`: p[i] = (uint8_t)(raw >> 8 i).
unfoldable pub scatter : (ℕ → ℕ) → ℕ → ℕ → ℕ → ℕ → ℕ → ℕ
scatter p off zero i raw = p
scatter p off (suc left) i raw =
    scatter (update p (off + i) (u8 (raw >>> (8 * i)))) off left (i + 1) raw

abbrev pub misaligned : ℕ → BusWidth → Bool
misaligned addr w = not (addr % bytes w == 0)

module _ {S : Type 0} (devs : Devices S) where
  open devs use {bus_read, bus_write}

  -- After a peripheral has answered.
  abbrev pub watched_read : Memory → ℕ → BusWidth → BusResult × S → BusResult × Memory × S
  watched_read m addr w (r, s) = (
    record { value = r.value % bits_mod w; status = r.status },
    if is_ok r.status then check_watchpoints m addr (bytes w) false else m,
    s,
  )

  unfoldable pub read_scalar : Memory → S → ℕ → BusWidth → BusResult × Memory × S
  read_scalar m s addr w =
      if misaligned addr w
      then (fail BusStatus.misaligned_access, m, s)
      else elim (backing addr (bytes w)) [
        | some (st, off) ↦ (
          good (assemble (store m st) off (bytes w) 0 0),
          check_watchpoints m addr (bytes w) false,
          s,
        )
        | none ↦ elim (find_peripheral m addr (bytes w)) [
          | some pm ↦ watched_read m addr w (bus_read pm.peripheral (addr - pm.region.base) w s)
          | none ↦ (fail BusStatus.invalid_address, m, s)
        ]
      ]

  abbrev pub watched_write : Memory → ℕ → BusWidth → BusStatus × S → BusStatus × Memory × S
  watched_write m addr w (st, s) =
      (st, if is_ok st then check_watchpoints m addr (bytes w) true else m, s)

  -- XOR, SET and CLEAR, by bits [13:12] of the address.
  abbrev pub alias_op : ℕ → ℕ → ℕ → ℕ
  alias_op alias cur v =
      if alias == 0x1000
      then bit_xor cur v
      else if alias == 0x2000
      then bit_or cur v
      else if alias == 0x3000
      then and_not cur v
      else cur

  -- The read-modify-write of the register at the unaliased address.
  unfoldable pub alias_write :
      Memory → S → PeripheralMapping → ℕ → ℕ → ℕ → BusWidth → BusStatus × Memory × S
  alias_write m s pm base_addr alias value w =
      let offset = base_addr - pm.region.base in
      let (cur, s') = bus_read pm.peripheral offset w s in
      if is_ok cur.status
      then watched_write m base_addr w
          (bus_write pm.peripheral offset (alias_op alias cur.value value) w s')
      else (cur.status, m, s')

  unfoldable pub write_scalar : Memory → S → ℕ → ℕ → BusWidth → BusStatus × Memory × S
  unfolding alias_write
  write_scalar m s addr value w =
      if misaligned addr w
      then (BusStatus.misaligned_access, m, s)
      else elim (backing addr (bytes w)) [
        | some (Store.in_sram, off) ↦ (
          BusStatus.ok,
          check_watchpoints (record m { sram = scatter m.sram off (bytes w) 0 value }) addr
              (bytes w) true,
          s,
        )
        | some (_, off) ↦ (BusStatus.write_to_read_only, m, s)
        | none ↦ elim (find_peripheral m addr (bytes w)) [
          | some pm ↦
              watched_write m addr w (bus_write pm.peripheral (addr - pm.region.base) value w s)
          | none ↦
              let alias = bit_and addr 0x3000 in
              let base_addr = and_not addr 0x3000 in
              if contains k_register_space addr && not (alias == 0)
              then elim (find_peripheral m base_addr (bytes w)) [
                | some pm ↦ alias_write m s pm base_addr alias value w
                | none ↦ (BusStatus.invalid_address, m, s)
              ]
              else (BusStatus.invalid_address, m, s)
        ]
      ]
