-- ===== src/Peripherals/Dma/Clock.antt =====
-- One clock of a channel that copies bytes.
use rp2040_simlator.Base.{
  ℕ, suc, ◌-◌, ◌%◌, ◌<◌, ◌≡◌, ◌≢◌, refl, sym, ap, ◌∙◌, subst, Bool, true, false, not, ◌||◌, ◌==◌,
  if◌then◌else◌, length, set, get_or-set_self, get_or-set_ne, length-set, set-get_or, test_bit,
  arith,
}
use rp2040_simlator.Base.Bits.{clear_bit}
use rp2040_simlator.Core.Bus.{BusWidth, BusStatus, good, Devices}
use rp2040_simlator.Core.Memory.{k_sram}
use rp2040_simlator.Core.Memory.Watchpoints.{check_watchpoints}
use rp2040_simlator.Core.Memory.Scalar.{read_scalar, write_scalar, assemble}
use rp2040_simlator.Core.Memory.Sram.{InSram, read_scalar_sram, write_scalar_sram}
use rp2040_simlator.Core.Interrupts.{Cores}
use rp2040_simlator.Peripherals.Dma.{
  Channel, Dma, fresh_channel, chan_of, set_chan, k_num_channels, k_ctrl_busy, treq, rate_for,
  settle, complete, refresh_irqs,
}
use rp2040_simlator.Peripherals.Dma.Sniff.{sniff_feed}
use rp2040_simlator.Peripherals.Dma.Transfer.{
  bump, transfer_one, counted, element, elements, paced, clock_channel,
}
use rp2040_simlator.Peripherals.Dma.Block.{IsByteCopy, IsCopying, copied, nonzero}

module _ {S : Type 0} where
  -- The controller has its channels, and one of them is to move n bytes more.
  pub record Copying (d : Dma S) (ch n src dst : ℕ) : Type 0 where
    pub channels : length d.chan ≡ k_num_channels
    pub here : ch < k_num_channels
    pub chan : IsCopying (chan_of d ch) ch n src dst

  -- The controller after a byte of a channel has been moved.
  abbrev moved : Dma S → ℕ → Dma S
  moved d ch =
      let c = chan_of d ch in
      let value = assemble d.mem.sram (c.read_addr - k_sram.base) 1 0 0 in
      set_chan (sniff_feed (record d { mem = copied d.mem c.read_addr c.write_addr }) ch value 1) ch
        (bump c)

  module _ (devs : Devices (Cores × S)) where
    transfer_one-moved :
        (d : Dma S) (ch : ℕ)
        → IsByteCopy (chan_of d ch).ctrl ch
        → InSram (chan_of d ch).read_addr BusWidth.byte
        → InSram (chan_of d ch).write_addr BusWidth.byte
        → transfer_one devs d ch ≡ (true, moved d ch)
    unfolding transfer_one
    transfer_one-moved d ch h r w = rw (h.size, read, h.bswap, write) refl
      where
        c : Channel
        c = chan_of d ch

        value : ℕ
        value = assemble d.mem.sram (c.read_addr - k_sram.base) 1 0 0

        read :
            read_scalar devs d.mem (d.cpus, d.dev) c.read_addr BusWidth.byte
            ≡ (good value, check_watchpoints d.mem c.read_addr 1 false, (d.cpus, d.dev))
        read = read_scalar_sram devs d.mem (d.cpus, d.dev) c.read_addr BusWidth.byte r

        write :
            write_scalar devs
              (check_watchpoints d.mem c.read_addr 1 false)
              (d.cpus, d.dev)
              c.write_addr
              (value % 0x100)
              BusWidth.byte
            ≡ (BusStatus.ok, copied d.mem c.read_addr c.write_addr, (d.cpus, d.dev))
        write =
            write_scalar_sram devs (check_watchpoints d.mem c.read_addr 1 false) (d.cpus, d.dev)
              c.write_addr BusWidth.byte w (value % 0x100)

  unpaced : (d : Dma S) (c : Channel) → treq c ≡ 0x3F → rate_for d c ≡ record { num = 1; den = 1 }
  unfolding rate_for
  unpaced d c h = rw (h) refl

  -- The same, counted down.
  abbrev pub going : Dma S → ℕ → Dma S
  going d ch =
      set_chan (moved d ch) ch
        (record (bump (chan_of d ch)) { remaining = (chan_of d ch).remaining - 1 })

  pub going-chan :
      (d : Dma S) (ch : ℕ)
      → ch < length d.chan
      → (length (going d ch).chan ≡ length d.chan)
        × (chan_of (going d ch) ch
            ≡ record (bump (chan_of d ch)) { remaining = (chan_of d ch).remaining - 1 })
        × ((k : ℕ) → ch ≢ k → chan_of (going d ch) k ≡ chan_of d k)
  unfolding sniff_feed
  going-chan d ch lt =
      let c = bump (chan_of d ch) in
      let c' = record c { remaining = (chan_of d ch).remaining - 1 } in
      (
        length-set (set d.chan ch c) ch c' ∙ length-set d.chan ch c,
        get_or-set_self (set d.chan ch c) ch c' fresh_channel
            (subst (λ n. ch < n) (sym (length-set d.chan ch c)) lt),
        λ k ne.
            get_or-set_ne (set d.chan ch c) ch k c' fresh_channel ne
            ∙ get_or-set_ne d.chan ch k c fresh_channel ne,
      )

  pub settle-chan :
      (d : Dma S) (ch : ℕ)
      → ch < length d.chan
      → let c = chan_of d ch in
        (length (settle d ch false).chan ≡ length d.chan)
        × (chan_of (settle d ch false) ch
            ≡ record c { ctrl = clear_bit c.ctrl k_ctrl_busy; remaining = 0; trans_count = 0 })
        × ((k : ℕ) → ch ≢ k → chan_of (settle d ch false) k ≡ chan_of d k)
  unfolding settle refresh_irqs
  settle-chan d ch lt =
      let c = chan_of d ch in
      let c' = record c { ctrl = clear_bit c.ctrl k_ctrl_busy; remaining = 0; trans_count = 0 } in
      (
        length-set d.chan ch c',
        get_or-set_self d.chan ch c' fresh_channel lt,
        λ k ne. get_or-set_ne d.chan ch k c' fresh_channel ne,
      )

  module _ (devs : Devices (Cores × S)) where
    element-going :
        (d : Dma S) (ch : ℕ)
        → ch < length d.chan
        → transfer_one devs d ch ≡ (true, moved d ch)
        → element devs d ch ≡ (
            if (chan_of d ch).remaining - 1 == 0
            then (false, complete (going d ch) ch false)
            else (true, going d ch))
    unfolding element sniff_feed bump
    element-going d ch lt eq =
        ap (counted devs ch) eq
        ∙ ap
            (λ c.
              let d' = set_chan (moved d ch) ch (record c { remaining = c.remaining - 1 }) in
              if c.remaining - 1 == 0 then (false, complete d' ch false) else (true, d'))
            (get_or-set_self d.chan ch (bump (chan_of d ch)) fresh_channel lt)

    one_element :
        (d : Dma S) (ch n : ℕ)
        → (chan_of d ch).remaining ≡ suc n
        → elements devs 1 ch d ≡ (element devs d ch).1
    unfolding elements
    one_element d ch n r = rw (r, nonzero n) (either (element devs d ch).0)
      where
        either :
            (more : Bool)
            → (if more then (element devs d ch).1 else (element devs d ch).1)
              ≡ (element devs d ch).1
        either true = refl
        either false = refl

    -- One clock of a copying channel.
    pub clock_channel-going :
        (d : Dma S) (ch n src dst : ℕ)
        → Copying d ch (suc n) src dst
        → clock_channel devs d ch ≡ (if n == 0 then complete (going d ch) ch false else going d ch)
    unfolding clock_channel paced
    clock_channel-going d ch n src dst h =
        rw (active, h.chan.is_copy.treq_sel, unpaced d c h.chan.is_copy.treq_sel, h.chan.paced) refl
        ∙ ap (elements devs 1 ch) same
        ∙ one_element d ch n h.chan.remaining
        ∙ ap (λ x. x.1)
            (element-going d ch here (transfer_one-moved devs d ch h.chan.is_copy reads writes))
        ∙ last (c.remaining - 1 == 0)
        ∙ ap (λ r. if r == 0 then complete (going d ch) ch false else going d ch) left
      where
        c : Channel
        c = chan_of d ch

        here : ch < length d.chan
        here = subst (λ k. ch < k) (sym h.channels) h.here

        same : set_chan d ch (record c { pace_accum = 0 }) ≡ d
        same =
            ap (λ p. set_chan d ch (record c { pace_accum = p })) (sym h.chan.paced)
            ∙ ap (λ cs. record d { chan = cs }) (set-get_or d.chan ch fresh_channel)

        reads : InSram c.read_addr BusWidth.byte
        reads = record {
          aligned = omega arith;
          low = omega (arith, h.chan.from);
          high = omega (arith, h.chan.from, h.chan.src_fits);
        }

        writes : InSram c.write_addr BusWidth.byte
        writes = record {
          aligned = omega arith;
          low = omega (arith, h.chan.to);
          high = omega (arith, h.chan.to, h.chan.dst_fits);
        }

        active : (not (test_bit c.ctrl k_ctrl_busy) || (c.remaining == 0)) ≡ false
        active = rw (h.chan.busy, h.chan.remaining) (nonzero n)

        left : c.remaining - 1 ≡ n
        left = omega (arith, h.chan.remaining)

        last :
            (b : Bool)
            → (if◌then◌else◌ {A = Bool × Dma S} b
                (false, complete (going d ch) ch false)
                (true, going d ch)).1
              ≡ (if b then complete (going d ch) ch false else going d ch)
        last true = refl
        last false = refl
