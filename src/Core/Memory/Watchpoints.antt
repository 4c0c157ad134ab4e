-- ===== src/Core/Memory/Watchpoints.antt =====
-- The debug watchpoints of core/memory.cpp.
use rp2040_simlator.Base.{
  ℕ, ◌+◌, Bool, true, false, ◌&&◌, ◌||◌, List, [], ◌∷◌, ◌++◌, Option, none, some, ltb, ◌==◌,
  if◌then◌else◌, u32,
}
use rp2040_simlator.Core.Memory.{Memory, Watchpoint}

unfoldable pub add_watchpoint : Memory → ℕ → ℕ → Bool → Bool → Memory
add_watchpoint m addr len on_read on_write = record m {
  watchpoints =
      m.watchpoints
      ++ (record {
        addr = addr;
        len = if len == 0 then 1 else len;
        on_read = on_read;
        on_write = on_write;
      }
          ∷ []);
}

remove_at : ℕ → List Watchpoint → List Watchpoint
remove_at a [] = []
remove_at a (w ∷ ws) = let rest = remove_at a ws in if w.addr == a then rest else w ∷ rest

unfoldable pub remove_watchpoint : Memory → ℕ → Memory
unfolding remove_at
remove_watchpoint m addr = record m { watchpoints = remove_at addr m.watchpoints }

-- The hit that is taken, as address and direction, and the memory with the latch cleared.
unfoldable pub take_watchpoint_hit : Memory → Option (ℕ × Bool) × Memory
take_watchpoint_hit m =
    if m.wp_hit
    then (some (m.wp_hit_addr, m.wp_hit_was_write), record m { wp_hit = false })
    else (none, m)

-- The first watchpoint that the access trips. The sums wrap as uint32_t does.
unfoldable pub tripped : List Watchpoint → ℕ → ℕ → Bool → Option ℕ
tripped [] addr n is_write = none
tripped (w ∷ ws) addr n is_write =
    if ltb addr (u32 (w.addr + w.len))
      && ltb w.addr (u32 (addr + n))
      && (if is_write then w.on_write else w.on_read)
    then some w.addr
    else tripped ws addr n is_write

unfoldable pub check_watchpoints : Memory → ℕ → ℕ → Bool → Memory
check_watchpoints m addr n is_write =
    if m.suppress_wp || m.wp_hit then m else elim (tripped m.watchpoints addr n is_write) [
      | none ↦ m
      | some a ↦ record m { wp_hit = true; wp_hit_addr = a; wp_hit_was_write = is_write }
    ]
