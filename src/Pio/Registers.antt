-- ===== src/Pio/Registers.antt =====
-- The registers of a PIO block as the bus sees them: pio/pio_registers.h and pio_registers.cpp.
pub mod Config
pub mod Windows
use rp2040_simlator.Base.{
  ℕ, zero, suc, ◌+◌, ◌-◌, ◌*◌, ◌/◌, ◌%◌, ◌^◌, Bool, true, false, not, ◌&&◌, List, [], ◌∷◌, Option,
  none, some, ltb, leb, ◌==◌, if◌then◌else◌, get_or, set, replicate, of_bool, bit_and, bit_or,
  and_not, test_bit,
}
use rp2040_simlator.Base.Bits.{set_bit}
use rp2040_simlator.Core.Bus.{BusStatus, BusResult, good}
use rp2040_simlator.Core.Interrupts.{Cores, pend_all, clear_all}
use rp2040_simlator.Pio.Fifo.{full, empty, level, push, pop}
use rp2040_simlator.Pio.StateMachine.{StateMachine, restart}
use rp2040_simlator.Pio.StateMachine.Tick.{exec_immediate}
use rp2040_simlator.Pio.Block.{
  PioBlock, Lane, write_instruction, instruction, set_irq, restart_clkdiv, k_num_sm,
}
use Config.{ConfigWords, write_config, read_config, fresh_words}

-- `words` are the four configuration registers of each machine, `nvic` the cores that the interrupt
-- controller is connected to.
pub record PioRegisters : Type 0 where
  pub block : PioBlock
  pub nvic : List ℕ
  pub nvic_irq0 : ℕ
  pub cpus : Cores
  pub ctrl : ℕ
  pub words : List ConfigWords
  pub irq0_inte : ℕ
  pub irq0_intf : ℕ
  pub irq1_inte : ℕ
  pub irq1_intf : ℕ
  pub fdebug : ℕ

-- Lane i, where the block has one, and a change to it.
abbrev pub on_lane : {A : Type 0} → (Lane → A) → A → List Lane → ℕ → A
on_lane f a [] i = a
on_lane f a (l ∷ ls) zero = f l
on_lane f a (l ∷ ls) (suc i) = on_lane f a ls i

abbrev pub at_lane : (Lane → Lane) → List Lane → ℕ → List Lane
at_lane f [] i = []
at_lane f (l ∷ ls) zero = f l ∷ ls
at_lane f (l ∷ ls) (suc i) = l ∷ at_lane f ls i

abbrev pub update_lane : (Lane → Lane) → ℕ → PioRegisters → PioRegisters
update_lane f i s = record s { block = record (s.block) { lanes = at_lane f s.block.lanes i } }

-- The body of the loop of `write_ctrl`.
unfoldable pub control_lane : ℕ → ℕ → Lane → Lane
control_lane value i l =
    let m = record (l.sm) { enabled = test_bit value i } in
    let l1 = record l { sm = if test_bit value (4 + i) then restart m else m } in
    if test_bit value (8 + i) then restart_clkdiv l1 else l1

unfoldable pub control_lanes : ℕ → ℕ → List Lane → List Lane
control_lanes value i [] = []
control_lanes value i (l ∷ ls) = control_lane value i l ∷ control_lanes value (i + 1) ls

unfoldable pub write_ctrl : PioRegisters → ℕ → PioRegisters
write_ctrl s value = record s {
  ctrl = value % 2 ^ 12;
  block = record (s.block) { lanes = control_lanes value 0 s.block.lanes };
}

-- The sum over the lanes from lane i on of what a lane contributes to a status word; the
-- contributions of the lanes have no bit in common.
unfoldable pub collect : (ℕ → Lane → ℕ) → ℕ → List Lane → ℕ
collect f i [] = 0
collect f i (l ∷ ls) = f i l + collect f (i + 1) ls

unfoldable pub read_fstat : PioRegisters → ℕ
read_fstat s =
    collect
      (λ i l.
        of_bool (empty l.sm.tx) * 2 ^ (24 + i)
        + of_bool (full l.sm.tx) * 2 ^ (16 + i)
        + of_bool (empty l.sm.rx) * 2 ^ (8 + i)
        + of_bool (full l.sm.rx) * 2 ^ i)
      0 s.block.lanes

unfoldable pub read_flevel : PioRegisters → ℕ
read_flevel s =
    collect (λ i l. level l.sm.tx % 2 ^ 4 * 2 ^ (8 * i) + level l.sm.rx % 2 ^ 4 * 2 ^ (8 * i + 4)) 0
      s.block.lanes

unfoldable pub compute_intr : PioRegisters → ℕ
compute_intr s =
    collect
      (λ i l. of_bool (not (empty l.sm.rx)) * 2 ^ i + of_bool (not (full l.sm.tx)) * 2 ^ (4 + i)) 0
      s.block.lanes
    + s.block.irq % 2 ^ 4 * 2 ^ 8

unfoldable pub debug_lanes : ℕ → List Lane → ℕ → ℕ
debug_lanes i [] v = v
debug_lanes i (l ∷ ls) v =
    let v1 = if l.last_outcome.rx_stall then set_bit v (28 + i) else v in
    debug_lanes (i + 1) ls (if l.last_outcome.tx_stall then set_bit v1 (16 + i) else v1)

unfoldable pub poll_fdebug : PioRegisters → PioRegisters
poll_fdebug s = record s { fdebug = debug_lanes 0 s.block.lanes s.fdebug }

-- What an interrupt line shows, and the exception it drives.
unfoldable pub masked : PioRegisters → ℕ → ℕ → ℕ
masked s intf inte = bit_and (bit_or (compute_intr s) intf) inte

abbrev pub drive : List ℕ → ℕ → ℕ → Cores → Cores
drive nvic mis exc cpus = if mis == 0 then clear_all nvic exc cpus else pend_all nvic exc cpus

unfoldable pub poll_interrupts : PioRegisters → PioRegisters
poll_interrupts s =
    let mis0 = masked s s.irq0_intf s.irq0_inte in
    let mis1 = masked s s.irq1_intf s.irq1_inte in
    if s.nvic_irq0 == 0 then s else record s {
      cpus = drive s.nvic mis1 (s.nvic_irq0 + 1) (drive s.nvic mis0 s.nvic_irq0 s.cpus);
    }

unfoldable pub reset : PioRegisters → PioRegisters
reset s = record s {
  ctrl = 0;
  words = replicate k_num_sm fresh_words;
  irq0_inte = 0;
  irq0_intf = 0;
  irq1_inte = 0;
  irq1_intf = 0;
  fdebug = 0;
  block = rp2040_simlator.Pio.Block.reset s.block;
}

-- The windows of registers: TXF0 to 3, RXF0 to 3, the instructions, and the machines' blocks.
abbrev pub is_txf : ℕ → Bool
is_txf offset = leb 0x10 offset && ltb offset 0x20

abbrev pub is_rxf : ℕ → Bool
is_rxf offset = leb 0x20 offset && ltb offset 0x30

abbrev pub is_instr_mem : ℕ → Bool
is_instr_mem offset = leb 0x48 offset && ltb offset 0xC8

abbrev pub is_sm : ℕ → Bool
is_sm offset = leb 0xC8 offset && ltb offset 0x128

-- A read of RXF: the oldest word, or 0 and the machine's RXUNDER.
unfoldable pub read_rxf : PioRegisters → ℕ → BusResult × PioRegisters
read_rxf s i =
    let (v, rx) =
      on_lane (λ l. pop l.sm.rx) (none, rp2040_simlator.Pio.Fifo.fresh) s.block.lanes i in
    let popped = update_lane (λ l. record l { sm = record (l.sm) { rx = rx } }) i s in
    elim v [
      | none ↦ (good 0, record s { fdebug = set_bit s.fdebug (24 + i) })
      | some w ↦ (good w, popped)
    ]

-- A write to TXF: the machine gets the word, or its TXOVER is set.
unfoldable pub write_txf : PioRegisters → ℕ → ℕ → PioRegisters
write_txf s i value =
    let (ok, tx) =
      on_lane (λ l. push l.sm.tx value) (true, rp2040_simlator.Pio.Fifo.fresh) s.block.lanes i in
    let pushed = update_lane (λ l. record l { sm = record (l.sm) { tx = tx } }) i s in
    if ok then pushed else record s { fdebug = set_bit s.fdebug (20 + i) }

-- A register of a machine's block at its place.
unfoldable pub read_sm : PioRegisters → ℕ → ℕ → ℕ
read_sm s i place =
    let words = get_or s.words i fresh_words in
    if place == 0x0C
    then on_lane (λ l. l.sm.pc) 0 s.block.lanes i
    else if place == 0x10
    then on_lane (λ l. get_or s.block.program (l.sm.pc % 2 ^ 5) 0) 0 s.block.lanes i
    else read_config words place

unfoldable pub reg_read : PioRegisters → ℕ → BusResult × PioRegisters
reg_read s offset =
    if is_txf offset
    then (good 0, s)
    else if is_rxf offset
    then read_rxf s ((offset - 0x20) / 4)
    else (
      good (
          if is_instr_mem offset
          then instruction s.block ((offset - 0x48) / 4)
          else if is_sm offset
          then read_sm s ((offset - 0xC8) / 0x18) ((offset - 0xC8) % 0x18)
          else if offset == 0x000
          then s.ctrl
          else if offset == 0x004
          then read_fstat s
          else if offset == 0x008
          then s.fdebug
          else if offset == 0x00C
          then read_flevel s
          else if offset == 0x030
          then s.block.irq
          else if offset == 0x128
          then compute_intr s
          else if offset == 0x12C
          then s.irq0_inte
          else if offset == 0x130
          then s.irq0_intf
          else if offset == 0x134
          then masked s s.irq0_intf s.irq0_inte
          else if offset == 0x138
          then s.irq1_inte
          else if offset == 0x13C
          then s.irq1_intf
          else if offset == 0x140
          then masked s s.irq1_intf s.irq1_inte
          else 0),
      s,
    )

-- The loop over the eight flags of the block from flag n on.
unfoldable pub set_flags : ℕ → ℕ → ℕ → Bool → PioBlock → PioBlock
set_flags zero n value v b = b
set_flags (suc left) n value v b =
    set_flags left (n + 1) value v (if test_bit value n then set_irq b n v else b)

-- A write to SMx_INSTR: the machine runs the word on the GPIO and the flags of the block.
unfoldable pub inject : ℕ → PioRegisters → ℕ → ℕ → Option PioRegisters
inject fuel s i word =
    let lent = λ (l : Lane). record (l.sm) { gpio = s.block.gpio; block_irq = s.block.irq } in
    elim (on_lane (λ l. exec_immediate fuel word (lent l)) none s.block.lanes i) [
      | none ↦ none
      | some m ↦ some (record s {
        block = record (s.block) {
          gpio = m.gpio;
          irq = m.block_irq;
          lanes = at_lane (λ l. record l { sm = m }) s.block.lanes i;
        };
      })
    ]

unfoldable pub write_sm : ℕ → PioRegisters → ℕ → ℕ → ℕ → Option PioRegisters
write_sm fuel s i place value =
    let words = write_config (get_or s.words i fresh_words) place value in
    if place == 0x10
    then inject fuel s i (value % 2 ^ 16)
    else some (
        update_lane (λ l. Config.configure l place value) i
          (record s { words = set s.words i words }))

-- The registers after which the interrupt lines are driven anew.
unfoldable pub write_other : PioRegisters → ℕ → ℕ → PioRegisters
write_other s offset value =
    if offset == 0x000
    then write_ctrl s value
    else if offset == 0x008
    then record s { fdebug = and_not s.fdebug value }
    else if offset == 0x030
    then record s { block = set_flags 8 0 value false s.block }
    else if offset == 0x034
    then record s { block = set_flags 8 0 value true s.block }
    else if offset == 0x12C
    then record s { irq0_inte = value % 2 ^ 12 }
    else if offset == 0x130
    then record s { irq0_intf = value % 2 ^ 12 }
    else if offset == 0x138
    then record s { irq1_inte = value % 2 ^ 12 }
    else if offset == 0x13C
    then record s { irq1_intf = value % 2 ^ 12 }
    else s

-- `none` where an injected instruction does not return.
unfoldable pub reg_write : ℕ → PioRegisters → ℕ → ℕ → Option PioRegisters
reg_write fuel s offset value =
    if is_txf offset
    then some (write_txf s ((offset - 0x10) / 4) value)
    else if is_instr_mem offset
    then some
        (record s { block = write_instruction s.block ((offset - 0x48) / 4) (value % 2 ^ 16) })
    else if is_sm offset
    then write_sm fuel s ((offset - 0xC8) / 0x18) ((offset - 0xC8) % 0x18) value
    else some (poll_interrupts (write_other s offset value))
