-- ===== src/Peripherals/Dma/Copy.antt =====
-- What a running channel leaves in the SRAM when it copies a block of bytes.
use rp2040_simlator.Base.{
  ℕ, zero, suc, ◌+◌, ◌-◌, ◌≤◌, ◌<◌, ◌≡◌, ◌⊎◌, inl, inr, refl, sym, ap, ap₂, ◌∙◌, subst, false, not,
  ◌&&◌, ◌||◌, ltb, leb, ◌==◌, if◌then◌else◌, Bool-cases, if_intro, ==_iff, length, test_bit, arith,
}
use rp2040_simlator.Core.Bus.{Devices}
use rp2040_simlator.Core.Interrupts.{Cores}
use rp2040_simlator.Peripherals.Dma.{
  Dma, chan_of, k_num_channels, k_ctrl_busy, k_ctrl_irq_quiet, settle,
}
use rp2040_simlator.Peripherals.Dma.Transfer.{clock_channel, clock_from, clock, on_cycles}
use rp2040_simlator.Peripherals.Dma.Block.{nonzero}
use rp2040_simlator.Peripherals.Dma.Clock.{
  Copying, going, going-chan, settle-chan, clock_channel-going,
}
use rp2040_simlator.Peripherals.Dma.Steps.{
  Alone, Alone-others, going-Copying, going_sram, completes, settle_intr, settle_mem, settle_idle,
  going_intr, Copied, below, one_more,
}

module _ {S : Type 0} (devs : Devices (Cores × S)) where
  -- A clock passes over a channel that is not busy.
  idle_lem :
      (d : Dma S) (k : ℕ)
      → test_bit (chan_of d k).ctrl k_ctrl_busy ≡ false
      → clock_channel devs d k ≡ d
  unfolding clock_channel
  idle_lem d k e = rw (e) refl

  clock_from-idle : (left i ch : ℕ) (d : Dma S) → Alone ch d → ch < i → clock_from devs left i d ≡ d
  unfolding clock_from
  clock_from-idle zero i ch d h lt = refl
  clock_from-idle (suc left) i ch d h lt =
      ap (clock_from devs left (i + 1)) (idle_lem d i (h i (λ e. omega (arith, lt, e))))
      ∙ clock_from-idle left (i + 1) ch d h (omega (arith, lt))

  -- So a clock is one of that channel.
  clock_from_lem :
      (left i ch : ℕ) (d : Dma S)
      → Alone ch d
      → Alone ch (clock_channel devs d ch)
      → i ≤ ch
      → ch < i + left
      → clock_from devs left i d ≡ clock_channel devs d ch
  unfolding clock_from
  clock_from_lem zero i ch d h k le lt = absurd (omega arith)
  clock_from_lem (suc left) i ch d h k le lt = elim (Bool-cases (i == ch)) [
    | inl e ↦
        let eq = (==_iff i ch).0 e in
        ap (λ j. clock_from devs left (i + 1) (clock_channel devs d j)) eq
        ∙ clock_from-idle left (i + 1) ch (clock_channel devs d ch) k (omega (arith, eq))
    | inr e ↦
        ap (clock_from devs left (i + 1)) (idle_lem d i (h i (λ q. ground (arith, e, q))))
        ∙ clock_from_lem left (i + 1) ch d h k (ground (arith, e)) (omega (arith, lt))
  ]

  clock-going :
      (d : Dma S) (ch n src dst : ℕ)
      → Copying d ch (suc n) src dst
      → Alone ch d
      → clock devs d ≡ (if n == 0 then settle (going d ch) ch false else going d ch)
  clock-going d ch n src dst h alone =
      clock_from_lem k_num_channels 0 ch d alone (subst (Alone ch) (sym stepped) still)
        (omega arith) (omega (arith, h.here))
      ∙ stepped
    where
      here : ch < length d.chan
      here = subst (λ k. ch < k) (sym h.channels) h.here

      next : Copying (going d ch) ch n (src + 1) (dst + 1)
      next = going-Copying d ch n src dst h

      there : ch < length (going d ch).chan
      there = subst (λ k. ch < k) (sym next.channels) next.here

      stepped :
          clock_channel devs d ch ≡ (if n == 0 then settle (going d ch) ch false else going d ch)
      stepped =
          clock_channel-going devs d ch n src dst h
          ∙ ap (λ x. if n == 0 then x else going d ch)
              (completes (going d ch) ch there next.chan.is_copy)

      alone' : Alone ch (going d ch)
      alone' = Alone-others ch d (going d ch) alone (going-chan d ch here).2

      still : Alone ch (if n == 0 then settle (going d ch) ch false else going d ch)
      still =
          if_intro (Alone ch) (n == 0) (settle (going d ch) ch false) (going d ch)
            (λ _.
              Alone-others ch (going d ch) (settle (going d ch) ch false) alone'
                (settle-chan (going d ch) ch there).2)
            (λ _. alone')

  last_byte :
      (d : Dma S) (ch src dst j : ℕ)
      → Copying d ch 1 src dst
      → Alone ch d
      → ((i : ℕ) → d.mem.sram i < 256)
      → Copied d (clock devs d) ch 1 src dst j
  last_byte d ch src dst j h alone small =
      subst (λ d'. Copied d d' ch 1 src dst j) (sym (clock-going d ch 0 src dst h alone)) finished
    where
      next : Copying (going d ch) ch 0 (src + 1) (dst + 1)
      next = going-Copying d ch 0 src dst h

      there : ch < length (going d ch).chan
      there = subst (λ k. ch < k) (sym next.channels) next.here

      one :
          (a b : ℕ) → (if dst == j then a else b) ≡ (if leb dst j && ltb j (dst + 1) then a else b)
      one a b = ground arith

      first : (src j : ℕ) → dst ≡ j → src ≡ src + (j - dst)
      first src j e = omega (arith, e)

      at :
          (if dst == j then d.mem.sram src else d.mem.sram j)
          ≡ (if dst == j then d.mem.sram (src + (j - dst)) else d.mem.sram j)
      at = elim (Bool-cases (dst == j)) [
        | inl e ↦ rw (e) (ap d.mem.sram (first src j ((==_iff dst j).0 e)))
        | inr e ↦ rw (e) refl
      ]

      finished : Copied d (settle (going d ch) ch false) ch 1 src dst j
      finished = record {
        sram =
            ap (λ m. m.sram j) (settle_mem (going d ch) ch)
            ∙ going_sram d ch 0 src dst j h small
            ∙ at
            ∙ one (d.mem.sram (src + (j - dst))) (d.mem.sram j);
        idle = (settle_idle (going d ch) ch there).0;
        none_left = (settle_idle (going d ch) ch there).1;
        raised =
            let (same, ctrl) = going_intr d ch (subst (λ k. ch < k) (sym h.channels) h.here) in
            settle_intr (going d ch) ch
            ∙ ap₂ (λ c i. not (test_bit c k_ctrl_irq_quiet) || test_bit i ch) ctrl same;
      }

  pub copies :
      (n : ℕ) (d : Dma S) (ch src dst j : ℕ)
      → Copying d ch (suc n) src dst
      → Alone ch d
      → ((i : ℕ) → d.mem.sram i < 256)
      → (src + suc n ≤ dst) ⊎ (dst + suc n ≤ src)
      → Copied d (on_cycles devs d (suc n)) ch (suc n) src dst j
  unfolding on_cycles
  copies zero d ch src dst j h alone small apart = last_byte d ch src dst j h alone small
  copies (suc n) d ch src dst j h alone small apart =
      subst (λ x. Copied d (on_cycles devs x (suc n)) ch (suc (suc n)) src dst j)
        (sym (
          clock-going d ch (suc n) src dst h alone
          ∙ ap (λ b. if b then settle (going d ch) ch false else going d ch) (nonzero n)))
        (one_more d (on_cycles devs (going d ch) (suc n)) ch (suc n) src dst j h small apart (
          copies n (going d ch) ch (src + 1) (dst + 1) j (going-Copying d ch (suc n) src dst h)
            (Alone-others ch d (going d ch) alone
              (going-chan d ch (subst (λ k. ch < k) (sym h.channels) h.here)).2)
            (below d ch (suc n) src dst h small) (omega (arith, apart))))
