-- ===== src/Peripherals/Dma/Program.antt =====
-- A block copy from its trigger on.
use rp2040_simlator.Base.{
  ℕ, suc, ◌+◌, ◌%◌, ◌^◌, ◌≤◌, ◌<◌, ◌≡◌, ◌⊎◌, refl, sym, ap, ◌∙◌, subst, true, not, ◌||◌, lt→ltb,
  length, get_or-set_self, get_or-set_ne, length-set, test_bit, arith,
}
use rp2040_simlator.Base.Bits.{
  set_bit_value, clear_bit_value, set_bit, clear_bit, test_bit-set_bit, test_bit-clear_bit,
}
use rp2040_simlator.Core.Bus.{Devices}
use rp2040_simlator.Core.Memory.{k_sram}
use rp2040_simlator.Core.Interrupts.{Cores}
use rp2040_simlator.Peripherals.Dma.{
  Channel, Dma, fresh_channel, chan_of, k_num_channels, k_ctrl_busy, k_ctrl_read_error,
  k_ctrl_write_error, k_ctrl_irq_quiet, arm, trigger_chain, trigger,
}
use rp2040_simlator.Peripherals.Dma.Transfer.{on_cycles}
use rp2040_simlator.Peripherals.Dma.Block.{IsByteCopy, IsCopying, nonzero}
use rp2040_simlator.Peripherals.Dma.Clock.{Copying}
use rp2040_simlator.Peripherals.Dma.Steps.{Alone, Alone-others, Copied}
use rp2040_simlator.Peripherals.Dma.Copy.{copies}

-- CTRL after a trigger.
abbrev armed : ℕ → ℕ
armed ctrl = clear_bit (clear_bit (set_bit ctrl k_ctrl_busy) k_ctrl_read_error) k_ctrl_write_error

armed_low : (v : ℕ) → armed v % 2 ^ 24 ≡ v % 2 ^ 24
armed_low v = omega (
  arith,
  set_bit_value v k_ctrl_busy,
  clear_bit_value (set_bit v k_ctrl_busy) k_ctrl_read_error,
  clear_bit_value (clear_bit (set_bit v k_ctrl_busy) k_ctrl_read_error) k_ctrl_write_error,
)

armed-IsByteCopy : (v ch : ℕ) → IsByteCopy v ch → IsByteCopy (armed v) ch
armed-IsByteCopy v ch h = record {
  enabled = ground (arith, armed_low v, h.enabled);
  size = omega (arith, armed_low v, h.size);
  incr_read = ground (arith, armed_low v, h.incr_read);
  incr_write = ground (arith, armed_low v, h.incr_write);
  ring_size = omega (arith, armed_low v, h.ring_size);
  chain_to = omega (arith, armed_low v, h.chain_to);
  treq_sel = omega (arith, armed_low v, h.treq_sel);
  bswap = ground (arith, armed_low v, h.bswap);
}

armed_busy : (v : ℕ) → test_bit (armed v) k_ctrl_busy ≡ true
armed_busy v = ground (
  arith,
  test_bit-clear_bit (clear_bit (set_bit v k_ctrl_busy) k_ctrl_read_error) k_ctrl_write_error
      k_ctrl_busy,
  test_bit-clear_bit (set_bit v k_ctrl_busy) k_ctrl_read_error k_ctrl_busy,
  test_bit-set_bit v k_ctrl_busy k_ctrl_busy,
)

module _ {S : Type 0} where
  -- A channel that is programmed to copy n bytes.
  pub record Programmed (d : Dma S) (ch n src dst : ℕ) : Type 0 where
    pub channels : length d.chan ≡ k_num_channels
    pub here : ch < k_num_channels
    pub is_copy : IsByteCopy (chan_of d ch).ctrl ch
    pub count : (chan_of d ch).trans_count ≡ n
    pub from : (chan_of d ch).read_addr ≡ k_sram.base + src
    pub to : (chan_of d ch).write_addr ≡ k_sram.base + dst
    pub src_fits : src + n ≤ k_sram.size
    pub dst_fits : dst + n ≤ k_sram.size

  -- Triggering such a channel.
  trigger-Copying :
      (d : Dma S) (ch n src dst : ℕ)
      → Programmed d ch (suc n) src dst
      → (trigger ch d ≡ arm d ch) × Copying (arm d ch) ch (suc n) src dst
  unfolding arm trigger_chain
  trigger-Copying d ch n src dst h = (
    rw
        (
          lt→ltb ch k_num_channels h.here,
          h.is_copy.enabled,
          ap (λ x. x.remaining) at_arm,
          h.count,
          nonzero n,
        )
        refl,
    record {
      channels = length-set d.chan ch c ∙ h.channels;
      here = h.here;
      chan =
          subst (λ x. IsCopying x ch (suc n) src dst) (sym at_arm)
            (record {
              is_copy = armed-IsByteCopy (chan_of d ch).ctrl ch h.is_copy;
              busy = armed_busy (chan_of d ch).ctrl;
              remaining = h.count;
              paced = refl;
              from = h.from;
              to = h.to;
              src_fits = h.src_fits;
              dst_fits = h.dst_fits;
            });
    },
  )
    where
      c : Channel
      c = record (chan_of d ch) {
        remaining = (chan_of d ch).trans_count;
        pace_accum = 0;
        ctrl = armed (chan_of d ch).ctrl;
      }

      at_arm : chan_of (arm d ch) ch ≡ c
      at_arm =
          get_or-set_self d.chan ch c fresh_channel (subst (λ k. ch < k) (sym h.channels) h.here)

  arm-Alone : (d : Dma S) (ch : ℕ) → Alone ch d → Alone ch (arm d ch)
  unfolding arm
  arm-Alone d ch alone = Alone-others ch d (arm d ch) alone (λ k ne.
      get_or-set_ne d.chan ch k
        (record (chan_of d ch) {
          remaining = (chan_of d ch).trans_count;
          pace_accum = 0;
          ctrl = armed (chan_of d ch).ctrl;
        })
        fresh_channel ne)

  arm_rest :
      (d : Dma S) (ch n src dst : ℕ)
      → Programmed d ch n src dst
      → ((arm d ch).mem.sram ≡ d.mem.sram)
        × ((arm d ch).intr ≡ d.intr)
        × (test_bit (chan_of (arm d ch) ch).ctrl k_ctrl_irq_quiet
            ≡ test_bit (chan_of d ch).ctrl k_ctrl_irq_quiet)
  unfolding arm
  arm_rest d ch n src dst h = (
    refl,
    refl,
    ap (λ c. test_bit c.ctrl k_ctrl_irq_quiet)
          (get_or-set_self d.chan ch
            (record (chan_of d ch) {
              remaining = (chan_of d ch).trans_count;
              pace_accum = 0;
              ctrl = armed (chan_of d ch).ctrl;
            })
            fresh_channel (subst (λ k. ch < k) (sym h.channels) h.here))
        ∙ quiet (chan_of d ch).ctrl,
  )
    where
      quiet : (v : ℕ) → test_bit (armed v) k_ctrl_irq_quiet ≡ test_bit v k_ctrl_irq_quiet
      quiet v = ground (arith, armed_low v)

  module _ (devs : Devices (Cores × S)) where
    -- A channel programmed to copy bytes from one range of the SRAM to another, disjoint from it, with
    -- both addresses counting up, no pacing, no byte swap and no chain, while every other channel is
    -- idle: triggered and clocked as often as there are bytes, it leaves the destination range equal
    -- to the source range and every other byte of the SRAM as it was, is idle with nothing left to
    -- do, and its bit of INTR is set unless IRQ_QUIET holds it as it was. The SRAM holds bytes.
    pub on_cycles-copies :
        (d : Dma S) (ch n src dst j : ℕ)
        → Programmed d ch (suc n) src dst
        → Alone ch d
        → ((i : ℕ) → d.mem.sram i < 256)
        → (src + suc n ≤ dst) ⊎ (dst + suc n ≤ src)
        → Copied d (on_cycles devs (trigger ch d) (suc n)) ch (suc n) src dst j
    unfolding arm
    on_cycles-copies d ch n src dst j h alone small apart =
        let (eq, ready) = trigger-Copying d ch n src dst h in
        let (sram, intr, quiet) = arm_rest d ch (suc n) src dst h in
        let done =
          copies devs n (arm d ch) ch src dst j ready (arm-Alone d ch alone)
            (subst (λ p. (i : ℕ) → p i < 256) (sym sram) small) apart in
        subst (λ x. Copied d (on_cycles devs x (suc n)) ch (suc n) src dst j) (sym eq)
          (record {
            sram = done.sram;
            idle = done.idle;
            none_left = done.none_left;
            raised = done.raised ∙ ap (λ q. not q || test_bit d.intr ch) quiet;
          })
