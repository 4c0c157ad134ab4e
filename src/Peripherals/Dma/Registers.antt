-- ===== src/Peripherals/Dma/Registers.antt =====
-- The registers of the DMA controller, with the four aliases of a channel.
use rp2040_simlator.Base.{
  ℕ, zero, suc, ◌+◌, ◌-◌, ◌/◌, ◌%◌, ◌^◌, Bool, ◌&&◌, List, [], ◌∷◌, ltb, leb, ◌==◌, if◌then◌else◌,
  get_or, set, replicate, bit_and, bit_or, and_not, test_bit,
}
use rp2040_simlator.Base.Bits.{clear_bit}
use rp2040_simlator.Core.Bus.{BusStatus, BusResult, good}
use rp2040_simlator.Peripherals.Dma.{
  Channel, Dma, chan_of, set_chan, fresh_channel, k_ctrl_busy, k_num_channels, trigger,
  refresh_irqs,
}
use rp2040_simlator.Peripherals.Dma.Sniff.{sniff_data_out}

pub data Reg : Type 0 where
  r_read r_write r_count r_ctrl : Reg

-- By alias and slot.
abbrev pub k_alias_map : List (List Reg)
k_alias_map =
    (Reg.r_read ∷ Reg.r_write ∷ Reg.r_count ∷ Reg.r_ctrl ∷ [])
    ∷ (Reg.r_ctrl ∷ Reg.r_read ∷ Reg.r_write ∷ Reg.r_count ∷ [])
    ∷ (Reg.r_ctrl ∷ Reg.r_count ∷ Reg.r_read ∷ Reg.r_write ∷ [])
    ∷ (Reg.r_ctrl ∷ Reg.r_write ∷ Reg.r_count ∷ Reg.r_read ∷ [])
    ∷ []

-- A channel's register at an offset below 0x300, and its slot in the alias.
abbrev pub reg_at : ℕ → Reg
reg_at offset = get_or (get_or k_alias_map (offset % 0x40 / 0x10) []) (offset % 0x10 / 4) Reg.r_ctrl

unfoldable pub read_channel : Channel → Reg → ℕ
read_channel c Reg.r_read = c.read_addr
read_channel c Reg.r_write = c.write_addr
read_channel c Reg.r_count = if test_bit c.ctrl k_ctrl_busy then c.remaining else c.trans_count
read_channel c Reg.r_ctrl = c.ctrl

unfoldable pub write_channel : Channel → Reg → ℕ → Channel
write_channel c Reg.r_read value = record c { read_addr = value }
write_channel c Reg.r_write value = record c { write_addr = value }
write_channel c Reg.r_count value = record c { trans_count = value }
write_channel c Reg.r_ctrl value = record c { ctrl = clear_bit value k_ctrl_busy }

-- The offsets of TIMER0 to TIMER3.
abbrev pub is_timer : ℕ → Bool
is_timer offset = leb 0x420 offset && ltb offset 0x430

module _ {S : Type 0} where
  unfoldable pub reset : Dma S → Dma S
  reset d = refresh_irqs (record d {
    chan = replicate k_num_channels fresh_channel;
    intr = 0;
    inte0 = 0;
    inte1 = 0;
    intf0 = 0;
    intf1 = 0;
    pacing_timer = replicate 4 0;
    sniff_ctrl = 0;
    sniff_data = 0;
    dreq_divisor = 2;
  })

  unfoldable pub reg_read : Dma S → ℕ → BusResult
  reg_read d offset = good (
      if ltb offset 0x300
      then read_channel (chan_of d (offset / 0x40)) (reg_at offset)
      else if is_timer offset
      then get_or d.pacing_timer ((offset - 0x420) / 4) 0
      else if offset == 0x434
      then d.sniff_ctrl
      else if offset == 0x438
      then sniff_data_out d
      else if offset == 0x400
      then d.intr
      else if offset == 0x404
      then d.inte0
      else if offset == 0x408
      then d.intf0
      else if offset == 0x40C
      then bit_and (bit_or d.intr d.intf0) d.inte0
      else if offset == 0x414
      then d.inte1
      else if offset == 0x418
      then d.intf1
      else if offset == 0x41C
      then bit_and (bit_or d.intr d.intf1) d.inte1
      else if offset == 0x448
      then k_num_channels
      else 0)

  -- The loop over the channels for MULTI_CHAN_TRIGGER and CHAN_ABORT.
  unfoldable pub for_channels : (ℕ → Dma S → Dma S) → ℕ → ℕ → ℕ → Dma S → Dma S
  for_channels f zero ch value d = d
  for_channels f (suc left) ch value d =
      for_channels f left (ch + 1) value (if test_bit value ch then f ch d else d)

  unfoldable pub abort : ℕ → Dma S → Dma S
  abort ch d =
      let c = chan_of d ch in
      set_chan d ch
        (record c { remaining = 0; trans_count = 0; ctrl = clear_bit c.ctrl k_ctrl_busy })

  -- A write to a register of a channel; the last one of each alias is the trigger.
  unfoldable pub write_window : Dma S → ℕ → ℕ → Dma S
  write_window d offset value =
      let ch = offset / 0x40 in
      let d' = set_chan d ch (write_channel (chan_of d ch) (reg_at offset) value) in
      if offset % 0x10 / 4 == 3 then trigger ch d' else d'

  unfoldable pub reg_write : Dma S → ℕ → ℕ → BusStatus × Dma S
  reg_write d offset value = (
    BusStatus.ok,
    if ltb offset 0x300
        then write_window d offset value
        else if is_timer offset
        then record d { pacing_timer = set d.pacing_timer ((offset - 0x420) / 4) value }
        else if offset == 0x434
        then record d { sniff_ctrl = value % 2 ^ 12 }
        else if offset == 0x438
        then record d { sniff_data = value }
        else if offset == 0x400
        then refresh_irqs (record d { intr = and_not d.intr value })
        else if offset == 0x404
        then refresh_irqs (record d { inte0 = value % 2 ^ 12 })
        else if offset == 0x408
        then refresh_irqs (record d { intf0 = value % 2 ^ 12 })
        else if offset == 0x414
        then refresh_irqs (record d { inte1 = value % 2 ^ 12 })
        else if offset == 0x418
        then refresh_irqs (record d { intf1 = value % 2 ^ 12 })
        else if offset == 0x430
        then for_channels trigger k_num_channels 0 value d
        else if offset == 0x444
        then for_channels abort k_num_channels 0 value d
        else d,
  )
