-- ===== src/Core/Memory/Backdoor.antt =====
-- `load` and `dump` of core/memory.cpp: no protection, no alignment rule, no side effects.
use rp2040_simlator.Base.{
  ℕ, zero, suc, ◌+◌, Bool, true, false, List, [], ◌∷◌, Option, none, some, ltb, ◌==◌, if◌then◌else◌,
  length,
}
use rp2040_simlator.Core.Memory.{Memory, Store, backing, store, update}

abbrev pub copy_in : (ℕ → ℕ) → ℕ → List ℕ → ℕ → ℕ
copy_in p off [] = p
copy_in p off (b ∷ bs) = copy_in (update p off b) (off + 1) bs

abbrev pub put_store : Memory → Store → (ℕ → ℕ) → Memory
put_store m Store.in_rom p = record m { rom = p }
put_store m Store.in_flash p = record m { flash = p }
put_store m Store.in_sram p = record m { sram = p }

unfoldable pub load : Memory → ℕ → List ℕ → Bool × Memory
load m addr bs =
    if length bs == 0
    then (true, m)
    else if ltb 0xFFFF_FFFF (length bs)
    then (false, m)
    else elim (backing addr (length bs)) [
      | none ↦ (false, m)
      | some (st, off) ↦ (true, put_store m st (copy_in (store m st) off bs))
    ]

abbrev pub copy_out : (ℕ → ℕ) → ℕ → ℕ → List ℕ
copy_out p off zero = []
copy_out p off (suc n) = p off ∷ copy_out p (off + 1) n

-- `none` is the result false; otherwise the bytes that are written to `out`.
unfoldable pub dump : Memory → ℕ → ℕ → Option (List ℕ)
dump m addr size =
    if size == 0 then some [] else if ltb 0xFFFF_FFFF size then none else elim (backing addr size) [
      | none ↦ none
      | some (st, off) ↦ some (copy_out (store m st) off size)
    ]
