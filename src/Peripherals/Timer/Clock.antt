-- ===== src/Peripherals/Timer/Clock.antt =====
-- What the timer makes of the clocks that the simulator reports to it.
use rp2040_simlator.Base.{
  ℕ, suc, ◌+◌, ◌*◌, ◌^◌, ◌≤◌, ◌<◌, ◌≡◌, refl, sym, ◌∙◌, ap, true, false, arith, Bool-cases, inl,
  inr, u64, test_bit, ◌&&◌,
}
use rp2040_simlator.Core.Cpu.{is_pending}
use rp2040_simlator.Core.Interrupts.{mem_core}
use rp2040_simlator.Peripherals.Pacing.{drain, drain-add, drain_lem, ticks}
use rp2040_simlator.Peripherals.Timer.{Timer, Alarms, k_irq0, k_num_alarms, tick, on_cycles}
use rp2040_simlator.Peripherals.Timer.Alarm.{
  Waiting, ticks-raises, is_pending-ticks, ticks-keeps, test_bit-asserted,
}

no_wrap : (n : ℕ) → n < 2 ^ 64 → u64 n ≡ n
no_wrap n lt = omega (arith, lt)

abbrev after : Timer → ℕ × Alarms → Timer
after t x = record t { accum = x.0; alarms = x.1 }

stopped : (n : ℕ) (t : Timer) → t.paused ≡ true → on_cycles n t ≡ t
unfolding on_cycles
stopped n t e = rw (e) refl

runs :
    (n : ℕ) (t : Timer)
    → t.paused ≡ false
    → t.accum + n < 2 ^ 64
    → on_cycles n t ≡ after t (drain tick t.cycles_per_us (t.accum + n) (t.accum + n) t.alarms)
unfolding on_cycles
runs n t e lt = rw (e, no_wrap (t.accum + n) lt) refl

-- The clocks are counted into whole periods and a rest below one.
running :
    (n : ℕ) (t : Timer)
    → t.paused ≡ false
    → 0 < t.cycles_per_us
    → t.accum + n < 2 ^ 64
    → (k r : ℕ) × (on_cycles n t ≡ record t { accum = r; alarms = ticks tick k t.alarms })
      × (k * t.cycles_per_us + r ≡ t.accum + n)
      × (r < t.cycles_per_us)
running n t run pos lt =
    let (k, r, eq, sum, small) =
      drain_lem tick t.cycles_per_us (t.accum + n) (t.accum + n) t.alarms pos (omega arith) in
    (k, r, runs n t run lt ∙ ap (after t) eq, sum, small)

regroup : (x a b : ℕ) → x + a + b ≡ x + (a + b)
regroup x a b = omega arith

-- Clocks reported in two portions leave the timer as they do in one, where its 64-bit accumulator
-- does not wrap.
pub on_cycles-add :
    (t : Timer) (a b : ℕ)
    → 0 < t.cycles_per_us
    → t.accum + (a + b) < 2 ^ 64
    → on_cycles b (on_cycles a t) ≡ on_cycles (a + b) t
on_cycles-add t a b pos lt = elim (Bool-cases t.paused) [
  | inl e ↦ paused_twice e
  | inr e ↦
      let p = t.cycles_per_us in
      let (k, r, eq, sum, small) =
        drain_lem tick p (t.accum + a) (t.accum + a) t.alarms pos (omega arith) in
      let t' = record t { accum = r; alarms = ticks tick k t.alarms } in
      ap (on_cycles b) (runs a t e (omega (arith, lt)) ∙ ap (after t) eq)
      ∙ runs b t' e (omega (arith, lt, sum))
      ∙ ap (after t)
          (sym (drain-add tick p (t.accum + a) b r t.alarms (ticks tick k t.alarms) pos eq))
      ∙ ap (λ n. after t (drain tick p n n t.alarms)) (regroup t.accum a b)
      ∙ sym (runs (a + b) t e lt)
]
  where
    paused_twice : t.paused ≡ true → on_cycles b (on_cycles a t) ≡ on_cycles (a + b) t
    paused_twice e =
        stopped b (on_cycles a t) (ap (λ x. x.paused) (stopped a t e) ∙ e)
        ∙ stopped a t e
        ∙ sym (stopped (a + b) t e)

-- An alarm that is armed for d ≥ 1 microseconds ahead is raised once the clocks reported make up d
-- microseconds, whether or not its interrupt is enabled, and its exception is then pending on a
-- core that the interrupt controller knows exactly where the interrupt is enabled. The timer runs,
-- and its accumulator does not wrap.
pub on_cycles-raises :
    (t : Timer) (n d i c : ℕ)
    → t.paused ≡ false
    → 0 < t.cycles_per_us
    → t.accum + n < 2 ^ 64
    → suc d * t.cycles_per_us ≤ t.accum + n
    → i < k_num_alarms
    → Waiting i (suc d) t.alarms
    → let a' = (on_cycles n t).alarms in
      (test_bit a'.intr i ≡ true)
      × ((mem_core c t.alarms.nvic && is_pending (a'.cpus c) (k_irq0 + i))
          ≡ (mem_core c t.alarms.nvic && test_bit t.alarms.inte i))
on_cycles-raises t n d i c run pos lt long small wait =
    let (k, r, eq, sum, low) = running n t run pos lt in
    let more = enough k d r t.cycles_per_us (t.accum + n) low sum long in
    let raised = ticks-raises k d i t.alarms small more wait in
    rw (eq) (
      raised,
      elim (Bool-cases (mem_core c t.alarms.nvic)) [
        | inl mem ↦ ground (
          arith,
          raised,
          mem,
          is_pending-ticks k i c t.alarms small mem (omega (arith, more)),
          test_bit-asserted (ticks tick k t.alarms) i,
          ticks-keeps k t.alarms,
        )
        | inr out ↦ rw (out) refl
      ],
    )
  where
    enough : (k d r p s : ℕ) → r < p → k * p + r ≡ s → suc d * p ≤ s → d < k
    enough k d r p s low sum long = grind arith
