-- ===== src/Peripherals/I2c.antt =====
-- The I2C controller: peripherals/i2c.h and i2c.cpp.
pub mod Delivery
pub mod Registers
use rp2040_simlator.Base.{
  ℕ, zero, suc, ◌+◌, ◌-◌, ◌*◌, ◌/◌, ◌%◌, ◌^◌, Bool, true, false, not, ◌&&◌, ◌||◌, List, [], ◌∷◌,
  ◌++◌, Option, none, some, ltb, leb, ◌==◌, if◌then◌else◌, length, is_empty, u8, u32, u64, bit_and,
  bit_or, and_not, test_bit, of_bool,
}
use rp2040_simlator.Base.Bits.{set_bit, clear_bit}
use rp2040_simlator.Core.Bus.{BusStatus, BusResult, good}
use rp2040_simlator.Core.Interrupts.{Cores, pend_all, clear_all}
use rp2040_simlator.Peripherals.Pacing.{drain}

abbrev pub k_fifo_depth : ℕ
k_fifo_depth = 16

-- The bits of the raw interrupt status.
abbrev pub k_rx_full : ℕ
k_rx_full = 2

abbrev pub k_rd_req : ℕ
k_rd_req = 5

abbrev pub k_tx_abrt : ℕ
k_tx_abrt = 6

abbrev pub k_stop_det : ℕ
k_stop_det = 9

pub record Cmd : Type 0 where
  pub data_byte : ℕ
  pub is_read : Bool
  pub stop : Bool

-- What a slave answers: whether it acknowledges, and the byte of a read.
pub record Answer : Type 0 where
  pub ack : Bool
  pub data_byte : ℕ

-- `slave` and `on_stop` are the callbacks of the attached device, on a state `X` of its own, `ext`.
pub record I2c (X : Type 0) : Type 0 where
  pub irq : ℕ
  pub con : ℕ
  pub tar : ℕ
  pub sar : ℕ
  pub enabled : Bool
  pub dma_cr : ℕ
  pub tx_cmds : List Cmd
  pub slave_tx : List ℕ
  pub rd_req_pending : Bool
  pub rx : List ℕ
  pub raw_intr : ℕ
  pub intr_mask : ℕ
  pub tx_abrt_source : ℕ
  pub ss_hcnt : ℕ
  pub ss_lcnt : ℕ
  pub fs_hcnt : ℕ
  pub fs_lcnt : ℕ
  pub ic_hz : ℕ
  pub sys_hz : ℕ
  pub clk_accum : ℕ
  pub byte_cycles_left : ℕ
  pub stretch_cycles : ℕ
  pub slave_addr : ℕ
  pub slave : Option (Bool → ℕ → X → Answer × X)
  pub on_stop : Option (X → X)
  pub ext : X
  pub nvic : List ℕ
  pub cpus : Cores

-- The width of an address under IC_CON, by its bit for a master or a slave.
abbrev pub addr_bits : ℕ → ℕ → ℕ
addr_bits con n = if test_bit con n then 10 else 7

abbrev pub is_some : {A : Type 0} → Option A → Bool
is_some none = false
is_some (some x) = true

module _ {X : Type 0} where
  unfoldable pub refresh_irq : I2c X → I2c X
  refresh_irq s = record s {
    cpus =
        if bit_and s.raw_intr s.intr_mask == 0
        then clear_all s.nvic s.irq s.cpus
        else pend_all s.nvic s.irq s.cpus;
  }

  unfoldable pub scl_period_cycles : I2c X → ℕ
  scl_period_cycles s =
      if s.con / 2 % 2 ^ 2 == 2 then u32 (s.fs_hcnt + s.fs_lcnt) else u32 (s.ss_hcnt + s.ss_lcnt)

  abbrev pub raise : ℕ → I2c X → I2c X
  raise n s = record s { raw_intr = set_bit s.raw_intr n }

  -- TX_ABRT with its reason.
  abbrev pub abort : ℕ → I2c X → I2c X
  abort reason s = raise k_tx_abrt (record s { tx_abrt_source = set_bit s.tx_abrt_source reason })

  -- After the slave has answered.
  abbrev pub answered : I2c X → Bool → Answer × X → I2c X
  answered s true (a, x) =
      let t = record s { ext = x } in
      if a.ack && ltb (length s.rx) k_fifo_depth
      then raise k_rx_full (record t { rx = s.rx ++ (a.data_byte ∷ []) })
      else t
  answered s false (a, x) = let t = record s { ext = x } in if a.ack then t else abort 3 t

  -- The slave at the target address, if there is one.
  abbrev pub addressed : I2c X → Option (Bool → ℕ → X → Answer × X)
  addressed s = if s.slave_addr == s.tar % 2 ^ addr_bits s.con 4 then s.slave else none

  -- The byte of a read starts as 0.
  abbrev pub transact : I2c X → Cmd → Option (Bool → ℕ → X → Answer × X) → I2c X
  transact s cmd none = abort 0 s
  transact s cmd (some f) =
      answered s cmd.is_read (f cmd.is_read (if cmd.is_read then 0 else cmd.data_byte) s.ext)

  -- The callback of a STOP is called where the slave was addressed.
  abbrev pub stopped : Bool → I2c X → I2c X
  stopped there s =
      let t = raise k_stop_det s in
      elim s.on_stop [ none ↦ t | some f ↦ if there then record t { ext = f s.ext } else t ]

  -- The oldest command; there is one when this is called.
  abbrev pub run_first : I2c X → List Cmd → I2c X
  run_first s [] = s
  run_first s (cmd ∷ rest) =
      let t = transact (record s { tx_cmds = rest }) cmd (addressed s) in
      refresh_irq (if cmd.stop then stopped (is_some (addressed s)) t else t)

  unfoldable pub run_command : I2c X → I2c X
  run_command s = run_first s s.tx_cmds

  -- By the clocks that are left of the byte under way.
  abbrev pub clock_with : ℕ → I2c X → I2c X
  clock_with zero s =
      let period = scl_period_cycles s in
      if is_empty s.tx_cmds || (period == 0) then s else record s {
        byte_cycles_left = u32 (u32 (period * 9) + s.stretch_cycles);
        stretch_cycles = 0;
      }
  clock_with (suc zero) s = run_command (record s { byte_cycles_left = 0 })
  clock_with (suc (suc k)) s = record s { byte_cycles_left = suc k }

  -- One ic_clk cycle.
  unfoldable pub ic_clock : I2c X → I2c X
  ic_clock s = clock_with s.byte_cycles_left s

  unfoldable pub on_cycles : I2c X → ℕ → I2c X
  on_cycles s sys_cycles =
      let acc = u64 (s.clk_accum + u64 (sys_cycles * s.ic_hz)) in
      let (rest, s') = drain ic_clock s.sys_hz acc acc s in
      if s.enabled then record s' { clk_accum = rest } else s

  -- Another master reads from this controller: whether it is acknowledged, and the byte.
  abbrev pub serve_read : I2c X → List ℕ → Answer × I2c X
  serve_read s [] = (
    record { ack = false; data_byte = 0 },
    refresh_irq (raise k_rd_req (record s { rd_req_pending = true })),
  )
  serve_read s (b ∷ rest) = (record { ack = true; data_byte = b }, record s { slave_tx = rest })

  -- `byte` is left as it is, except by an acknowledged read.
  unfoldable pub slave_transfer : I2c X → ℕ → Bool → ℕ → Answer × I2c X
  slave_transfer s addr is_read byte =
      let refused : Answer = record { ack = false; data_byte = byte } in
      let bits = addr_bits s.con 3 in
      let (a, read) = serve_read s s.slave_tx in
      if test_bit s.con 6
      then (refused, s)
      else if not (addr % 2 ^ bits == s.sar % 2 ^ bits)
      then (refused, s)
      else if is_read
      then (record { ack = a.ack; data_byte = if a.ack then a.data_byte else byte }, read)
      else if leb k_fifo_depth (length s.rx)
      then (refused, s)
      else (
        record { ack = true; data_byte = byte },
        refresh_irq (raise k_rx_full (record s { rx = s.rx ++ (byte ∷ []) })),
      )

  unfoldable pub slave_stop : I2c X → I2c X
  slave_stop s = refresh_irq (raise k_stop_det s)

  unfoldable pub set_slave : I2c X → ℕ → (Bool → ℕ → X → Answer × X) → I2c X
  set_slave s addr fn = record s { slave_addr = addr; slave = some fn }

  unfoldable pub stretch_next : I2c X → ℕ → I2c X
  stretch_next s ic_clk_cycles = record s { stretch_cycles = ic_clk_cycles }

  unfoldable pub set_clock_hz : I2c X → ℕ → ℕ → I2c X
  set_clock_hz s ic_hz sys_hz = record s {
    ic_hz = if ic_hz == 0 then 1 else ic_hz;
    sys_hz = if sys_hz == 0 then 1 else sys_hz;
  }

  unfoldable pub tx_dreq_ready : I2c X → Bool
  tx_dreq_ready s = test_bit s.dma_cr 1 && ltb (length s.tx_cmds) k_fifo_depth

  unfoldable pub rx_dreq_ready : I2c X → Bool
  rx_dreq_ready s = test_bit s.dma_cr 0 && not (is_empty s.rx)
