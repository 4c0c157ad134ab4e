-- ===== src/Core/Cpu/Sleep.antt =====
-- A core that sleeps in WFI with PRIMASK set: `step` of core/cpu.cpp.
use rp2040_simlator.Base.{ℕ, ◌+◌, ◌≡◌, ◌∙◌, refl, true, false, arith, test_bit, u64}
use rp2040_simlator.Core.Registers.{RegisterFile}
use rp2040_simlator.Core.Cpu.{
  CoreState, ExecStatus, priority_of, eligible, highest_pending_exception, exc_nmi, exc_hard_fault,
}
use rp2040_simlator.Core.Cpu.Machine.{Machine, Wiring}
use rp2040_simlator.Core.Cpu.Exceptions.{spend}
use rp2040_simlator.Core.Cpu.Step.{step}
use rp2040_simlator.Core.Cpu.Priority.{highest_pending_exception-IsBest}

-- With PRIMASK set only NMI and HardFault are eligible.
masked-eligible :
    (c : CoreState) (r : RegisterFile) (e : ℕ)
    → r.primask ≡ true
    → test_bit c.pending exc_nmi ≡ false
    → test_bit c.pending exc_hard_fault ≡ false
    → eligible c r e ≡ false
unfolding eligible priority_of
masked-eligible c r e m n h = ground arith

masked-highest :
    (c : CoreState) (r : RegisterFile)
    → r.primask ≡ true
    → test_bit c.pending exc_nmi ≡ false
    → test_bit c.pending exc_hard_fault ≡ false
    → highest_pending_exception c r ≡ 0
masked-highest c r m n h = ground (
  arith,
  (highest_pending_exception-IsBest c r).origin,
  masked-eligible c r (highest_pending_exception c r) m n h,
)

step-spend :
    {D : Type 0} (w : Wiring D) (s : Machine D)
    → highest_pending_exception s.core s.regs ≡ 0
    → s.core.asleep ≡ true
    → s.core.sleep_is_wfe ≡ false
    → step w s ≡ (ExecStatus.waiting_for_interrupt, spend w 1 s)
unfolding step
step-spend w s e a f = simp (e, a, f) refl

-- A core that sleeps in WFI with PRIMASK set, and neither NMI nor HardFault pending, goes on
-- sleeping at every step, however many interrupts are pending and enabled: the step answers
-- WaitingForInterrupt, the core is asleep in WFI after it too, the registers and the memory stay as
-- they are, and all that happens to the rest is one clock of the System Control Space, which leaves
-- the sleep state alone.
pub step-masked_wfi :
    {D : Type 0} (w : Wiring D) (s : Machine D)
    → ((n : ℕ) (c : CoreState) (d : D)
        → ((w.on_cycles n (c, d)).0.asleep ≡ c.asleep)
          × ((w.on_cycles n (c, d)).0.sleep_is_wfe ≡ c.sleep_is_wfe))
    → s.regs.primask ≡ true
    → test_bit s.core.pending exc_nmi ≡ false
    → test_bit s.core.pending exc_hard_fault ≡ false
    → s.core.asleep ≡ true
    → s.core.sleep_is_wfe ≡ false
    → let (st, s') = step w s in
      (st ≡ ExecStatus.waiting_for_interrupt)
      × (s'.core.asleep ≡ true)
      × (s'.core.sleep_is_wfe ≡ false)
      × (s'.regs ≡ s.regs)
      × (s'.mem ≡ s.mem)
      × ((s'.core, s'.dev)
          ≡ w.on_cycles 1 (record (s.core) { cycles = u64 (s.core.cycles + 1) }, s.dev))
unfolding spend
step-masked_wfi w s keeps m n h a f =
    let (asleep, wfe) = keeps 1 (record (s.core) { cycles = u64 (s.core.cycles + 1) }) s.dev in
    rw (step-spend w s (masked-highest s.core s.regs m n h) a f)
      (refl, asleep ∙ a, wfe ∙ f, refl, refl, refl)
