-- ===== src/Core/Memory/Attach.antt =====
-- `attach_peripheral` of core/memory.cpp.
use rp2040_simlator.Base.{
  ℕ, ◌+◌, Bool, true, false, not, ◌&&◌, ◌||◌, List, [], ◌∷◌, ◌++◌, Option, none, some, ltb, ◌==◌,
  if◌then◌else◌, u32,
}
use rp2040_simlator.Core.Memory.{
  Memory, PeripheralMapping, contains_span, k_register_space, k_sio, k_ppb,
}

-- `none` stands for a null pointer.

unfoldable pub overlaps_any : List PeripheralMapping → ℕ → ℕ → Bool
overlaps_any [] base size = false
overlaps_any (m ∷ ms) base size =
    (ltb base (u32 (m.region.base + m.region.size)) && ltb m.region.base (u32 (base + size)))
    || overlaps_any ms base size

unfoldable pub attach_peripheral : Memory → ℕ → ℕ → Option ℕ → Bool × Memory
attach_peripheral m base size none = (false, m)
attach_peripheral m base size (some p) =
    if size == 0
    then (false, m)
    else if ltb (u32 (base + size)) base
    then (false, m)
    else if not (contains_span k_register_space base size)
        && (not (contains_span k_sio base size) && not (contains_span k_ppb base size))
    then (false, m)
    else if overlaps_any m.peripherals base size
    then (false, m)
    else (
      true,
      record m {
        peripherals =
            m.peripherals
            ++ (record { region = record { base = base; size = size }; peripheral = p } ∷ []);
      },
    )
