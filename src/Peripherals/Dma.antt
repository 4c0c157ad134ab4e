-- ===== src/Peripherals/Dma.antt =====
-- The DMA controller: its channels and how they start and end (peripherals/dma.h and dma.cpp).
pub mod Sniff
pub mod Transfer
pub mod Registers
pub mod Block
pub mod Clock
pub mod Steps
pub mod Copy
pub mod Program
use rp2040_simlator.Base.{
  ℕ, zero, suc, ◌+◌, ◌-◌, ◌*◌, ◌/◌, ◌%◌, ◌^◌, Bool, true, false, not, ◌&&◌, ◌||◌, List, [], ◌∷◌,
  Option, none, some, ltb, leb, ◌==◌, if◌then◌else◌, get_or, set, bit_and, bit_or, and_not,
  test_bit,
}
use rp2040_simlator.Base.Bits.{set_bit, clear_bit}
use rp2040_simlator.Core.Memory.{Memory}
use rp2040_simlator.Core.Interrupts.{Cores, pend_all, clear_all}

abbrev pub k_num_channels : ℕ
k_num_channels = 12

-- DMA_IRQ_0 and DMA_IRQ_1 are exceptions 27 and 28.
abbrev pub k_irq0 : ℕ
k_irq0 = 27

abbrev pub k_irq1 : ℕ
k_irq1 = 28

abbrev pub k_ctrl_irq_quiet : ℕ
k_ctrl_irq_quiet = 21

abbrev pub k_ctrl_busy : ℕ
k_ctrl_busy = 24

abbrev pub k_ctrl_write_error : ℕ
k_ctrl_write_error = 29

abbrev pub k_ctrl_read_error : ℕ
k_ctrl_read_error = 30

pub record Channel : Type 0 where
  pub read_addr : ℕ
  pub write_addr : ℕ
  pub trans_count : ℕ
  pub ctrl : ℕ
  pub remaining : ℕ
  pub pace_accum : ℕ

abbrev pub fresh_channel : Channel
fresh_channel = record {
  read_addr = 0;
  write_addr = 0;
  trans_count = 0;
  ctrl = 0;
  remaining = 0;
  pace_accum = 0;
}

-- `mem`, `cpus` and `dev` are what the controller is wired to: the memory, the cores, and the state
-- `S` of the devices behind the bus. `dreq_ready` has the ready-check of a registered DREQ.
pub record Dma (S : Type 0) : Type 0 where
  pub chan : List Channel
  pub intr : ℕ
  pub inte0 : ℕ
  pub inte1 : ℕ
  pub intf0 : ℕ
  pub intf1 : ℕ
  pub pacing_timer : List ℕ
  pub sniff_ctrl : ℕ
  pub sniff_data : ℕ
  pub dreq_divisor : ℕ
  pub dreq_ready : ℕ → Option (S → Bool)
  pub nvic : List ℕ
  pub mem : Memory
  pub cpus : Cores
  pub dev : S

pub record Rate : Type 0 where
  pub num : ℕ
  pub den : ℕ

abbrev pub assert_line : List ℕ → ℕ → ℕ → Cores → Cores
assert_line nvic irq mis cs = if mis == 0 then clear_all nvic irq cs else pend_all nvic irq cs

-- TREQ_SEL.
abbrev pub treq : Channel → ℕ
treq c = c.ctrl / 2 ^ 15 % 2 ^ 6

module _ {S : Type 0} where
  abbrev pub chan_of : Dma S → ℕ → Channel
  chan_of d ch = get_or d.chan ch fresh_channel

  abbrev pub set_chan : Dma S → ℕ → Channel → Dma S
  set_chan d ch c = record d { chan = set d.chan ch c }

  unfoldable pub refresh_irqs : Dma S → Dma S
  refresh_irqs d = record d {
    cpus =
        assert_line d.nvic k_irq1 (bit_and (bit_or d.intr d.intf1) d.inte1)
          (assert_line d.nvic k_irq0 (bit_and (bit_or d.intr d.intf0) d.inte0) d.cpus);
  }

  unfoldable pub rate_for : Dma S → Channel → Rate
  rate_for d c =
      let t = get_or d.pacing_timer (treq c - 0x3B) 0 in
      if treq c == 0x3F
      then record { num = 1; den = 1 }
      else if leb 0x3B (treq c) && leb (treq c) 0x3E
      then (if t / 2 ^ 16 == 0 || (t % 2 ^ 16 == 0)
          then record { num = 0; den = 1 }
          else record { num = t / 2 ^ 16; den = t % 2 ^ 16 })
      else record { num = 1; den = d.dreq_divisor }

  unfoldable pub set_dreq_divisor : Dma S → ℕ → Dma S
  set_dreq_divisor d clocks = record d { dreq_divisor = if clocks == 0 then 1 else clocks }

  unfoldable pub set_dreq_source : Dma S → ℕ → (S → Bool) → Dma S
  set_dreq_source d n ready = record d {
    dreq_ready = λ k. if ltb n 40 && (k == n) then some ready else d.dreq_ready k;
  }

  -- Whether a trigger of the channel has an effect.
  abbrev pub startable : Dma S → ℕ → Bool
  startable d ch = ltb ch k_num_channels && test_bit (chan_of d ch).ctrl 0

  -- The running state that a trigger puts the channel into.
  unfoldable pub arm : Dma S → ℕ → Dma S
  arm d ch =
      let c = chan_of d ch in
      set_chan d ch (record c {
        remaining = c.trans_count;
        pace_accum = 0;
        ctrl =
            clear_bit (clear_bit (set_bit c.ctrl k_ctrl_busy) k_ctrl_read_error) k_ctrl_write_error;
      })

  -- `complete` up to the chaining.
  unfoldable pub settle : Dma S → ℕ → Bool → Dma S
  settle d ch error =
      let c = chan_of d ch in
      let c' = record c { ctrl = clear_bit c.ctrl k_ctrl_busy; remaining = 0; trans_count = 0 } in
      refresh_irqs (record (set_chan d ch c') {
        intr =
            if not error && not (test_bit c'.ctrl k_ctrl_irq_quiet)
            then set_bit d.intr ch
            else d.intr;
      })

  abbrev pub chain_to : Dma S → ℕ → ℕ
  chain_to d ch = (chan_of d ch).ctrl / 2 ^ 11 % 2 ^ 4

  abbrev pub chains : Dma S → ℕ → Bool
  chains d ch = not (chain_to d ch == ch) && ltb (chain_to d ch) k_num_channels

  -- A trigger and the null transfers that it chains through. `left` is 13 - chain_depth_, the null
  -- transfers that may still complete inside each other.
  unfoldable pub trigger_chain : ℕ → ℕ → Dma S → Dma S
  trigger_chain zero ch d = if startable d ch then arm d ch else d
  trigger_chain (suc left) ch d =
      let armed = arm d ch in
      let settled = settle armed ch false in
      let next = trigger_chain left (chain_to settled ch) settled in
      if not (startable d ch)
      then d
      else if not ((chan_of armed ch).remaining == 0)
      then armed
      else if chains settled ch
      then next
      else settled

  -- Outside a trigger chain_depth_ is 0.
  abbrev pub trigger : ℕ → Dma S → Dma S
  trigger = trigger_chain 13

  unfoldable pub complete : Dma S → ℕ → Bool → Dma S
  complete d ch error =
      let settled = settle d ch error in
      if not error && chains settled ch then trigger (chain_to settled ch) settled else settled
