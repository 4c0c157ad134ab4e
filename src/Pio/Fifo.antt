-- ===== src/Pio/Fifo.antt =====
-- The FIFO of a PIO state machine: pio/pio_fifo.h.
pub mod Queue
use rp2040_simlator.Base.{
  ℕ, ◌+◌, ◌-◌, ◌%◌, Bool, true, false, List, ◌==◌, if◌then◌else◌, get_or, set, replicate, Option,
  none, some,
}

abbrev pub k_default_depth : ℕ
k_default_depth = 4

abbrev pub k_joined_depth : ℕ
k_joined_depth = 8

pub record PioFifo : Type 0 where
  pub buf : List ℕ
  pub head : ℕ
  pub count : ℕ
  pub depth : ℕ

-- The state after construction.
unfoldable pub fresh : PioFifo
fresh = record { buf = replicate k_joined_depth 0; head = 0; count = 0; depth = k_default_depth }

unfoldable pub clear : PioFifo → PioFifo
clear f = record f { head = 0; count = 0 }

unfoldable pub set_depth : PioFifo → ℕ → PioFifo
unfolding clear
set_depth f d = clear (record f { depth = d })

unfoldable pub empty : PioFifo → Bool
empty f = f.count == 0

unfoldable pub full : PioFifo → Bool
full f = f.count == f.depth

unfoldable pub level : PioFifo → ℕ
level f = f.count

unfoldable pub push : PioFifo → ℕ → Bool × PioFifo
unfolding full
push f v =
    if full f
    then (false, f)
    else (true, record f { buf = set f.buf ((f.head + f.count) % f.depth) v; count = f.count + 1 })

-- `none` is the result `false`, which leaves `out` alone.
unfoldable pub pop : PioFifo → Option ℕ × PioFifo
unfolding empty
pop f = if empty f then (none, f) else (
  some (get_or f.buf f.head 0),
  record f { head = (f.head + 1) % f.depth; count = f.count - 1 },
)

unfoldable pub peek : PioFifo → ℕ
unfolding empty
peek f = if empty f then 0 else get_or f.buf f.head 0
