-- ===== src/Peripherals/Dma/Steps.antt =====
-- What stays true from clock to clock while a channel copies.
use rp2040_simlator.Base.{
  ℕ, suc, ◌+◌, ◌-◌, ◌/◌, ◌%◌, ◌^◌, ◌≤◌, ◌<◌, ◌≡◌, ◌≢◌, ◌⊎◌, refl, sym, ap, ap₂, ◌∙◌, subst, false,
  not, ◌&&◌, ◌||◌, ltb, leb, ◌==◌, if◌then◌else◌, if_intro, length, test_bit, arith,
}
use rp2040_simlator.Base.Bits.{test_bit-set_bit, test_bit-clear_bit}
use rp2040_simlator.Core.Memory.{k_sram}
use rp2040_simlator.Peripherals.Dma.{
  Dma, chan_of, k_ctrl_busy, k_ctrl_irq_quiet, settle, complete, chain_to, refresh_irqs,
}
use rp2040_simlator.Peripherals.Dma.Sniff.{sniff_feed}
use rp2040_simlator.Peripherals.Dma.Transfer.{bump}
use rp2040_simlator.Peripherals.Dma.Block.{
  IsByteCopy, IsCopying, itself, copied_sram, counted_down, chain_kept, split_block,
}
use rp2040_simlator.Peripherals.Dma.Clock.{Copying, going, going-chan, settle-chan}

module _ {S : Type 0} where
  -- All channels but one are idle.
  abbrev pub Alone : ℕ → Dma S → Type 0
  Alone ch d = (k : ℕ) → ch ≢ k → test_bit (chan_of d k).ctrl k_ctrl_busy ≡ false

  pub Alone-others :
      (ch : ℕ) (d d' : Dma S)
      → Alone ch d
      → ((k : ℕ) → ch ≢ k → chan_of d' k ≡ chan_of d k)
      → Alone ch d'
  Alone-others ch d d' h same k ne = ap (λ c. test_bit c.ctrl k_ctrl_busy) (same k ne) ∙ h k ne

  pub going-Copying :
      (d : Dma S) (ch n src dst : ℕ)
      → Copying d ch (suc n) src dst
      → Copying (going d ch) ch n (src + 1) (dst + 1)
  going-Copying d ch n src dst h =
      let (size, eq, others) = going-chan d ch (subst (λ k. ch < k) (sym h.channels) h.here) in
      record {
        channels = size ∙ h.channels;
        here = h.here;
        chan =
            subst (λ c. IsCopying c ch n (src + 1) (dst + 1)) (sym eq)
              (counted_down (chan_of d ch) ch n src dst h.chan);
      }

  pub going_sram :
      (d : Dma S) (ch n src dst j : ℕ)
      → Copying d ch (suc n) src dst
      → ((i : ℕ) → d.mem.sram i < 256)
      → (going d ch).mem.sram j ≡ (if dst == j then d.mem.sram src else d.mem.sram j)
  unfolding sniff_feed
  going_sram d ch n src dst j h small =
      copied_sram d.mem (chan_of d ch).read_addr (chan_of d ch).write_addr j small
      ∙ rw (h.chan.from, h.chan.to, base src, base dst) refl
    where
      base : (x : ℕ) → k_sram.base + x - k_sram.base ≡ x
      base x = omega arith

  pub completes :
      (d : Dma S) (ch : ℕ)
      → ch < length d.chan
      → IsByteCopy (chan_of d ch).ctrl ch
      → complete d ch false ≡ settle d ch false
  unfolding complete
  completes d ch lt h = rw (own, itself ch) refl
    where
      own : chain_to (settle d ch false) ch ≡ ch
      own =
          ap (λ c. c.ctrl / 2 ^ 11 % 2 ^ 4) (settle-chan d ch lt).1
          ∙ chain_kept (chan_of d ch).ctrl
          ∙ h.chain_to

  pub settle_intr :
      (d : Dma S) (ch : ℕ)
      → test_bit (settle d ch false).intr ch
        ≡ (not (test_bit (chan_of d ch).ctrl k_ctrl_irq_quiet) || test_bit d.intr ch)
  unfolding settle refresh_irqs
  settle_intr d ch = ground (
    arith,
    test_bit-clear_bit (chan_of d ch).ctrl k_ctrl_busy k_ctrl_irq_quiet,
    test_bit-set_bit d.intr ch ch,
  )

  pub settle_mem : (d : Dma S) (ch : ℕ) → (settle d ch false).mem ≡ d.mem
  unfolding settle refresh_irqs
  settle_mem d ch = refl

  pub settle_idle :
      (d : Dma S) (ch : ℕ)
      → ch < length d.chan
      → (test_bit (chan_of (settle d ch false) ch).ctrl k_ctrl_busy ≡ false)
        × ((chan_of (settle d ch false) ch).remaining ≡ 0)
  settle_idle d ch lt =
      let eq = (settle-chan d ch lt).1 in
      (
        ap (λ c. test_bit c.ctrl k_ctrl_busy) eq
            ∙ test_bit-clear_bit (chan_of d ch).ctrl k_ctrl_busy k_ctrl_busy,
        ap (λ c. c.remaining) eq,
      )

  pub going_intr :
      (d : Dma S) (ch : ℕ)
      → ch < length d.chan
      → ((going d ch).intr ≡ d.intr) × ((chan_of (going d ch) ch).ctrl ≡ (chan_of d ch).ctrl)
  unfolding sniff_feed bump
  going_intr d ch lt = (refl, ap (λ c. c.ctrl) (going-chan d ch lt).1)

  -- What a finished copy leaves, for byte j of the SRAM.
  pub record Copied (d d' : Dma S) (ch n src dst j : ℕ) : Type 0 where
    pub sram :
        d'.mem.sram j
        ≡ (if leb dst j && ltb j (dst + n) then d.mem.sram (src + (j - dst)) else d.mem.sram j)
    pub idle : test_bit (chan_of d' ch).ctrl k_ctrl_busy ≡ false
    pub none_left : (chan_of d' ch).remaining ≡ 0
    pub raised :
        test_bit d'.intr ch
        ≡ (not (test_bit (chan_of d ch).ctrl k_ctrl_irq_quiet) || test_bit d.intr ch)

  changed :
      (d : Dma S) (ch n src dst : ℕ)
      → Copying d ch (suc n) src dst
      → ((i : ℕ) → d.mem.sram i < 256)
      → (i : ℕ) → (going d ch).mem.sram i ≡ (if dst == i then d.mem.sram src else d.mem.sram i)
  changed d ch n src dst h small i = going_sram d ch n src dst i h small

  pub below :
      (d : Dma S) (ch n src dst : ℕ)
      → Copying d ch (suc n) src dst
      → ((i : ℕ) → d.mem.sram i < 256)
      → (i : ℕ) → (going d ch).mem.sram i < 256
  below d ch n src dst h small i =
      subst (λ v. v < 256) (sym (changed d ch n src dst h small i))
        (if_intro (λ v. v < 256) (dst == i) (d.mem.sram src) (d.mem.sram i) (λ _. small src)
          (λ _. small i))

  -- A byte, and then the others.
  pub one_more :
      (d e : Dma S) (ch n src dst j : ℕ)
      → Copying d ch (suc n) src dst
      → ((i : ℕ) → d.mem.sram i < 256)
      → (src + suc n ≤ dst) ⊎ (dst + suc n ≤ src)
      → Copied (going d ch) e ch n (src + 1) (dst + 1) j
      → Copied d e ch (suc n) src dst j
  one_more d e ch n src dst j h small apart ih =
      let (same, ctrl) = going_intr d ch (subst (λ k. ch < k) (sym h.channels) h.here) in
      record {
        sram =
            ih.sram
            ∙ split_block d.mem.sram (going d ch).mem.sram src dst j n
                (changed d ch n src dst h small) apart;
        idle = ih.idle;
        none_left = ih.none_left;
        raised =
            ih.raised ∙ ap₂ (λ c i. not (test_bit c k_ctrl_irq_quiet) || test_bit i ch) ctrl same;
      }
