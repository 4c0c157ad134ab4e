-- ===== src/Peripherals/Dma/Transfer.antt =====
-- The transfers: `transfer_one` and `on_cycles` of peripherals/dma.cpp.
use rp2040_simlator.Base.{
  ℕ, zero, suc, ◌+◌, ◌-◌, ◌/◌, ◌%◌, ◌^◌, Bool, true, false, not, ◌&&◌, ◌||◌, none, some, ltb, ◌==◌,
  if◌then◌else◌, bit_and, bit_or, and_not, test_bit, add32, u64,
}
use rp2040_simlator.Base.Bits.{set_bit}
use rp2040_simlator.Core.Bus.{BusWidth, BusStatus, BusResult, Devices, is_ok, bytes, bits_mod}
use rp2040_simlator.Core.Memory.{Memory}
use rp2040_simlator.Core.Memory.Scalar.{read_scalar, write_scalar}
use rp2040_simlator.Core.Interrupts.{Cores}
use rp2040_simlator.Peripherals.Dma.{
  Channel, Dma, chan_of, set_chan, k_ctrl_busy, k_ctrl_read_error, k_ctrl_write_error,
  k_num_channels, treq, rate_for, complete,
}
use rp2040_simlator.Peripherals.Dma.Sniff.{byteswap, sniff_feed}

-- The width of an element; 8-byte transfers are words.
abbrev pub width_of : ℕ → BusWidth
width_of ctrl =
    let size = ctrl / 2 ^ 2 % 2 ^ 2 in
    if size == 0 then BusWidth.byte else if size == 1 then BusWidth.half else BusWidth.word

abbrev pub ring_mask : ℕ → ℕ
ring_mask ctrl = 2 ^ (ctrl / 2 ^ 6 % 2 ^ 4) - 1

-- The address after an element, where it wraps in a ring or not.
unfoldable pub next_addr : ℕ → Bool → ℕ → ℕ → ℕ
next_addr mask ring addr step =
    if not (mask == 0) && ring
    then bit_or (and_not addr mask) (bit_and (add32 addr step) mask)
    else add32 addr step

unfoldable pub bump : Channel → Channel
bump c =
    let step = bytes (width_of c.ctrl) in
    let mask = ring_mask c.ctrl in
    let on_write = test_bit c.ctrl 10 in
    record c {
      read_addr =
          if test_bit c.ctrl 4 then next_addr mask (not on_write) c.read_addr step else c.read_addr;
      write_addr =
          if test_bit c.ctrl 5 then next_addr mask on_write c.write_addr step else c.write_addr;
    }

module _ {S : Type 0} (devs : Devices (Cores × S)) where
  abbrev pub flag_error : Dma S → ℕ → ℕ → Dma S
  flag_error d ch n = set_chan d ch (record (chan_of d ch) { ctrl = set_bit (chan_of d ch).ctrl n })

  -- After the store of an element has been answered.
  abbrev pub stored : Dma S → ℕ → ℕ → BusStatus × Memory × (Cores × S) → Bool × Dma S
  stored d ch v (status, m, (cs, s)) =
      let d' = record d { mem = m; cpus = cs; dev = s } in
      let fed = sniff_feed d' ch v (bytes (width_of (chan_of d ch).ctrl)) in
      if is_ok status
      then (true, set_chan fed ch (bump (chan_of d ch)))
      else (false, flag_error d' ch k_ctrl_write_error)

  -- After the load has been answered.
  abbrev pub loaded : Dma S → ℕ → BusResult × Memory × (Cores × S) → Bool × Dma S
  loaded d ch (r, m, (cs, s)) =
      let d' = record d { mem = m; cpus = cs; dev = s } in
      let c = chan_of d ch in
      let w = width_of c.ctrl in
      let v = if test_bit c.ctrl 22 then byteswap r.value (bytes w) else r.value in
      let rest = stored d' ch v (write_scalar devs m (cs, s) c.write_addr (v % bits_mod w) w) in
      if is_ok r.status then rest else (false, flag_error d' ch k_ctrl_read_error)

  unfoldable pub transfer_one : Dma S → ℕ → Bool × Dma S
  transfer_one d ch =
      let c = chan_of d ch in
      loaded d ch (read_scalar devs d.mem (d.cpus, d.dev) c.read_addr (width_of c.ctrl))

  -- After a transfer: the countdown and the completion, and whether the transfer goes on.
  abbrev pub counted : ℕ → Bool × Dma S → Bool × Dma S
  counted ch (false, d) = (false, complete d ch true)
  counted ch (true, d) =
      let c = chan_of d ch in
      let d' = set_chan d ch (record c { remaining = c.remaining - 1 }) in
      if c.remaining - 1 == 0 then (false, complete d' ch false) else (true, d')

  unfoldable pub element : Dma S → ℕ → Bool × Dma S
  element d ch = counted ch (transfer_one d ch)

  -- The elements that the pacing allows at one clock.
  unfoldable pub elements : ℕ → ℕ → Dma S → Dma S
  elements zero ch d = d
  elements (suc budget) ch d =
      let (more, d') = element d ch in
      let rest = elements budget ch d' in
      if (chan_of d ch).remaining == 0 then d else if more then rest else d'

  -- One clock of a channel without a registered DREQ.
  unfoldable pub paced : Dma S → ℕ → Dma S
  paced d ch =
      let c = chan_of d ch in
      let r = rate_for d c in
      let accum = u64 (c.pace_accum + r.num) in
      if r.num == 0
      then d
      else elements (accum / r.den) ch (set_chan d ch (record c { pace_accum = accum % r.den }))

  -- One clock of a channel.
  unfoldable pub clock_channel : Dma S → ℕ → Dma S
  clock_channel d ch =
      let c = chan_of d ch in
      if not (test_bit c.ctrl k_ctrl_busy) || (c.remaining == 0)
      then d
      else elim (if ltb (treq c) 40 then d.dreq_ready (treq c) else none) [
        | some ready ↦ if ready d.dev then (element d ch).1 else d
        | none ↦ paced d ch
      ]

  unfoldable pub clock_from : ℕ → ℕ → Dma S → Dma S
  clock_from zero ch d = d
  clock_from (suc left) ch d = clock_from left (ch + 1) (clock_channel d ch)

  abbrev pub clock : Dma S → Dma S
  clock = clock_from k_num_channels 0

  unfoldable pub on_cycles : Dma S → ℕ → Dma S
  on_cycles d zero = d
  on_cycles d (suc n) = on_cycles (clock d) n
