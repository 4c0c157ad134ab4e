-- ===== src/Pio/Block.antt =====
-- A PIO block, four state machines with their clock dividers: pio/pio_block.h and pio_block.cpp.
pub mod Divider
use rp2040_simlator.Base.{
  ℕ, zero, suc, ◌+◌, ◌-◌, ◌*◌, ◌%◌, ◌^◌, Bool, true, false, List, [], ◌∷◌, Option, none, some, ltb,
  leb, ◌==◌, if◌then◌else◌, get_or, set, replicate, add32, sub32, u64,
}
use rp2040_simlator.Base.Bits.{set_bit, clear_bit}
use rp2040_simlator.Peripherals.Gpio.{Gpio}
use rp2040_simlator.Pio.StateMachine.{StateMachine, full_reset}
use rp2040_simlator.Pio.StateMachine.Tick.{TickOutcome, no_outcome, tick}

abbrev pub k_num_sm : ℕ
k_num_sm = 4

abbrev pub k_instr_words : ℕ
k_instr_words = 32

-- One entry of each of the per-machine arrays of the class.
pub record Lane : Type 0 where
  pub sm : StateMachine
  pub clkdiv : ℕ
  pub clkacc : ℕ
  pub last_outcome : TickOutcome
  pub instr_retired : ℕ

pub record PioBlock : Type 0 where
  pub gpio : Gpio
  pub program : List ℕ
  pub irq : ℕ
  pub lanes : List Lane

unfoldable pub write_instruction : PioBlock → ℕ → ℕ → PioBlock
write_instruction b addr word =
    if ltb addr k_instr_words then record b { program = set b.program addr word } else b

unfoldable pub instruction : PioBlock → ℕ → ℕ
instruction b addr = if ltb addr k_instr_words then get_or b.program addr 0 else 0

unfoldable pub set_irq : PioBlock → ℕ → Bool → PioBlock
set_irq b n v =
    if leb 8 n then b else record b { irq = if v then set_bit b.irq n else clear_bit b.irq n }

-- `set_clkdiv` on the lane it names; one that does not exist is no lane.
unfoldable pub set_clkdiv : Lane → ℕ → ℕ → Lane
set_clkdiv l int_part frac = record l {
  clkdiv = (if int_part == 0 then 65536 else int_part) * 256 + frac;
  clkacc = 0;
}

unfoldable pub restart_clkdiv : Lane → Lane
restart_clkdiv l = record l { clkacc = 0 }

unfoldable pub reset_lane : Lane → Lane
reset_lane l = record l {
  sm = full_reset l.sm;
  clkdiv = 256;
  clkacc = 0;
  last_outcome = no_outcome;
  instr_retired = 0;
}

abbrev pub map_lanes : (Lane → Lane) → List Lane → List Lane
map_lanes f [] = []
map_lanes f (l ∷ ls) = f l ∷ map_lanes f ls

unfoldable pub reset : PioBlock → PioBlock
unfolding reset_lane
reset b = record b {
  program = replicate k_instr_words 0;
  irq = 0;
  lanes = map_lanes reset_lane b.lanes;
}

-- The accumulator after one system clock, and whether the machine's divided clock ticks.
unfoldable pub divide : ℕ → ℕ → Bool × ℕ
divide clkdiv clkacc =
    let acc = add32 clkacc 256 in if leb clkdiv acc then (true, acc - clkdiv) else (false, acc)

-- One lane at a system clock, with the GPIO and the IRQ register of the block lent to it.
unfoldable pub tick_lane : ℕ → List ℕ → Gpio → ℕ → Lane → Option Lane
unfolding divide
tick_lane fuel program gpio irq l0 =
    let s = record (l0.sm) { gpio = gpio; block_irq = irq } in
    let l = record l0 { sm = s; last_outcome = no_outcome } in
    let (due, acc) = divide l.clkdiv l.clkacc in
    if s.enabled
    then (if due
        then elim (tick fuel program s) [
          | some (o, s') ↦ some (record l {
            sm = s';
            clkacc = acc;
            last_outcome = o;
            instr_retired = if o.executed then u64 (l.instr_retired + 1) else l.instr_retired;
          })
          | none ↦ none
        ]
        else some (record l { clkacc = acc }))
    else some l

infixl 5 ◌>>=◌
abbrev ◌>>=◌ : {A B : Type 0} → Option A → (A → Option B) → Option B
none >>= f = none
some a >>= f = f a

-- The loop of `tick`: each machine sees what those before it did to the GPIO and the IRQ register.
unfoldable pub tick_lanes : ℕ → List ℕ → Gpio → ℕ → List Lane → Option (Gpio × ℕ × List Lane)
unfolding tick_lane
tick_lanes fuel program gpio irq [] = some (gpio, irq, [])
tick_lanes fuel program gpio irq (l ∷ ls) = do
  l' ← tick_lane fuel program gpio irq l
  (g, i, ls') ← tick_lanes fuel program l'.sm.gpio l'.sm.block_irq ls
  some (g, i, l' ∷ ls')

unfoldable pub tick_block : ℕ → PioBlock → Option PioBlock
unfolding tick_lanes
tick_block fuel b = do
  (g, i, ls) ← tick_lanes fuel b.program b.gpio b.irq b.lanes
  some (record b { gpio = g; irq = i; lanes = ls })
