-- ===== src/Peripherals/I2c/Registers.antt =====
-- The registers of the I2C controller: `reset`, `bus_read` and `bus_write` of peripherals/i2c.cpp.
use rp2040_simlator.Base.{
  ℕ, ◌+◌, ◌*◌, ◌%◌, ◌^◌, false, not, ◌&&◌, ◌||◌, List, [], ◌∷◌, ◌++◌, ltb, leb, ◌==◌, if◌then◌else◌,
  length, is_empty, u8, bit_and, test_bit, of_bool,
}
use rp2040_simlator.Base.Bits.{clear_bit}
use rp2040_simlator.Core.Bus.{BusStatus, BusResult, good}
use rp2040_simlator.Peripherals.I2c.{
  I2c, refresh_irq, k_fifo_depth, k_rx_full, k_rd_req, k_tx_abrt, k_stop_det,
}

module _ {X : Type 0} where
  unfoldable pub reset : I2c X → I2c X
  reset s = refresh_irq (record s {
    con = 0x65;
    tar = 0;
    sar = 0;
    enabled = false;
    dma_cr = 0;
    tx_cmds = [];
    slave_tx = [];
    rd_req_pending = false;
    rx = [];
    raw_intr = 0;
    intr_mask = 0;
    tx_abrt_source = 0;
    ss_hcnt = 0;
    ss_lcnt = 0;
    fs_hcnt = 0;
    fs_lcnt = 0;
    clk_accum = 0;
    byte_cycles_left = 0;
    stretch_cycles = 0;
  })

  -- A read of IC_DATA_CMD.
  abbrev pub read_data : I2c X → List ℕ → BusResult × I2c X
  read_data s [] = (good 0, s)
  read_data s (v ∷ rest) = (
    good v,
    refresh_irq (record s {
      rx = rest;
      raw_intr = if is_empty rest then clear_bit s.raw_intr k_rx_full else s.raw_intr;
    }),
  )

  unfoldable pub read_status : I2c X → ℕ
  read_status s =
      of_bool (ltb (length s.tx_cmds) k_fifo_depth) * 2
      + of_bool (is_empty s.tx_cmds && (s.byte_cycles_left == 0)) * 2 ^ 2
      + of_bool (not (is_empty s.rx)) * 2 ^ 3
      + of_bool (leb k_fifo_depth (length s.rx)) * 2 ^ 4

  -- What a read of a register other than IC_DATA_CMD changes.
  unfoldable pub clear_on_read : I2c X → ℕ → I2c X
  clear_on_read s offset =
      if offset == 0x54
      then refresh_irq (record s { raw_intr = clear_bit s.raw_intr k_tx_abrt; tx_abrt_source = 0 })
      else if offset == 0x60
      then refresh_irq (record s { raw_intr = clear_bit s.raw_intr k_stop_det })
      else if offset == 0x40
      then refresh_irq (record s { raw_intr = 0; tx_abrt_source = 0 })
      else s

  unfoldable pub bus_read : I2c X → ℕ → BusResult × I2c X
  bus_read s offset = if offset == 0x10 then read_data s s.rx else (
    good (
        if offset == 0x00
        then s.con
        else if offset == 0x04
        then s.tar
        else if offset == 0x08
        then s.sar
        else if offset == 0x14
        then s.ss_hcnt
        else if offset == 0x18
        then s.ss_lcnt
        else if offset == 0x1C
        then s.fs_hcnt
        else if offset == 0x20
        then s.fs_lcnt
        else if offset == 0x6C
        then of_bool s.enabled
        else if offset == 0x70
        then read_status s
        else if offset == 0x74
        then length s.tx_cmds
        else if offset == 0x78
        then length s.rx
        else if offset == 0x34
        then s.raw_intr
        else if offset == 0x2C
        then bit_and s.raw_intr s.intr_mask
        else if offset == 0x30
        then s.intr_mask
        else if offset == 0x80
        then s.tx_abrt_source
        else if offset == 0x88
        then s.dma_cr
        else 0),
    clear_on_read s offset,
  )

  -- A write to IC_DATA_CMD: the answer to a pending read request, or a command.
  unfoldable pub write_data : I2c X → ℕ → I2c X
  write_data s value =
      if s.rd_req_pending
      then refresh_irq (record s {
        rd_req_pending = false;
        slave_tx =
            if ltb (length s.slave_tx) k_fifo_depth
            then s.slave_tx ++ (u8 value ∷ [])
            else s.slave_tx;
        raw_intr = clear_bit s.raw_intr k_rd_req;
      })
      else if not s.enabled || leb k_fifo_depth (length s.tx_cmds)
      then s
      else record s {
        tx_cmds =
            s.tx_cmds
            ++ (record { data_byte = u8 value; is_read = test_bit value 8; stop = test_bit value 9 }
                ∷ []);
      }

  unfoldable pub bus_write : I2c X → ℕ → ℕ → BusStatus × I2c X
  bus_write s offset value = (
    BusStatus.ok,
    if offset == 0x00
        then record s { con = value }
        else if offset == 0x04
        then record s { tar = value % 2 ^ 10 }
        else if offset == 0x08
        then record s { sar = value % 2 ^ 10 }
        else if offset == 0x14
        then record s { ss_hcnt = value % 2 ^ 16 }
        else if offset == 0x18
        then record s { ss_lcnt = value % 2 ^ 16 }
        else if offset == 0x1C
        then record s { fs_hcnt = value % 2 ^ 16 }
        else if offset == 0x20
        then record s { fs_lcnt = value % 2 ^ 16 }
        else if offset == 0x6C
        then record s { enabled = test_bit value 0 }
        else if offset == 0x88
        then record s { dma_cr = value % 2 ^ 2 }
        else if offset == 0x30
        then refresh_irq (record s { intr_mask = value % 2 ^ 14 })
        else if offset == 0x10
        then write_data s value
        else s,
  )
