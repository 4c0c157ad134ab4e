-- ===== src/Pio/StateMachine/Safety.antt =====
-- A clock of a state machine keeps its registers and FIFOs in range.
use rp2040_simlator.Base.{
  ℕ, suc, ap, ◌∙◌, subst, ◌-◌, ◌%◌, ◌^◌, ◌≤◌, ◌≡◌, refl, true, false, not, Option, none, some, List,
  ltb, get_or, arith, if_intro,
}
use rp2040_simlator.Pio.Fifo.{pop}
use rp2040_simlator.Pio.Fifo.Queue.{push-queue, pop-queue}
use rp2040_simlator.Pio.Decode.{PioInstr, pio_decode}
use rp2040_simlator.Pio.StateMachine.{StateMachine, Stall, advance_pc}
use rp2040_simlator.Pio.StateMachine.Exec.{Step, exec, is_exec_inject}
use rp2040_simlator.Pio.StateMachine.Inject.{exec-returns}
use rp2040_simlator.Pio.StateMachine.Tick.{
  TickOutcome, no_outcome, is_instr, stall_outcome, settled, after_exec, refill, fetched, finish,
  run, retry_autopush, retry_autopull, tick_stalled, tick,
}
use rp2040_simlator.Pio.StateMachine.Invariant.{InRange, Given, exec-InRange, pio_decode-bit_count}

settled-InRange : (s : StateMachine) → InRange s → InRange (settled s)
settled-InRange s h = ground (arith, h)

after_exec-InRange : (step : Step) → InRange step.1 → InRange (after_exec step).1
unfolding after_exec stall_outcome
after_exec-InRange (false, s) h = settled-InRange s h
after_exec-InRange (true, s) h = ground (arith, h)

refill-InRange : (s : StateMachine) → InRange s → InRange (refill s)
unfolding refill
refill-InRange s h = ground (arith, h, (pop-queue s.tx h.tx_valid).1)

retry_autopush-InRange : (s : StateMachine) → InRange s → InRange (retry_autopush s).1
unfolding retry_autopush advance_pc
retry_autopush-InRange s h = ground (arith, h, (push-queue s.rx s.isr h.rx_valid).1)

-- What `tick` gives, where it returns.
abbrev pub Ticked : Option (TickOutcome × StateMachine) → Type 0
Ticked none = Unit
Ticked (some out) = InRange out.1

finish-InRange : (o : Option Step) → Given (λ step. InRange step.1) o → Ticked (finish o)
unfolding finish
finish-InRange none h = tt
finish-InRange (some step) h = after_exec-InRange step h

fetched-bit_count :
    (program : List ℕ) (s : StateMachine) → InRange s → (fetched program s).bit_count ≤ 32
unfolding fetched
fetched-bit_count program s h =
    ground (arith, h.cur_fits, pio_decode-bit_count (get_or program (s.pc % 2 ^ 5) 0))

with_cur :
    (s : StateMachine) (i : PioInstr)
    → i.bit_count ≤ 32
    → InRange s
    → InRange (record s { cur = i })
with_cur s i b h = ground (arith, h)

run-InRange :
    (fuel : ℕ) (program : List ℕ) (s : StateMachine) → InRange s → Ticked (run fuel program s)
unfolding run
run-InRange fuel program s h =
    let k = refill-InRange s h in
    let i = fetched program (refill s) in
    let b = fetched-bit_count program (refill s) k in
    finish-InRange (exec fuel i (record (refill s) { cur = i }))
      (exec-InRange fuel i (record (refill s) { cur = i }) b (with_cur (refill s) i b k))

refilled :
    (s : StateMachine) (v : ℕ)
    → InRange s
    → InRange (record s { tx = (pop s.tx).1; osr = v; osr_shift_count = 0; stall = Stall.instr })
refilled s v h = ground (arith, h, (pop-queue s.tx h.tx_valid).1)

retry_autopull-InRange :
    (fuel : ℕ) (program : List ℕ) (s : StateMachine)
    → InRange s
    → Ticked (retry_autopull fuel program s)
unfolding retry_autopull
retry_autopull-InRange fuel program s h =
    elim (pop s.tx).0
      as (λ o. Ticked (elim o [
        | none ↦ some (record no_outcome { stalled = true; tx_stall = true }, s)
        | some v ↦
            run fuel program
              (record s { tx = (pop s.tx).1; osr = v; osr_shift_count = 0; stall = Stall.instr })
      ])) [ none ↦ h | some v ↦ run-InRange fuel program _ (refilled s v h) ]

tick_stalled-InRange :
    (stall : Stall) (fuel : ℕ) (program : List ℕ) (s : StateMachine)
    → InRange s
    → Ticked (tick_stalled stall fuel program s)
unfolding tick_stalled
tick_stalled-InRange Stall.auto_push fuel program s h = retry_autopush-InRange s h
tick_stalled-InRange Stall.auto_pull fuel program s h = retry_autopull-InRange fuel program s h
tick_stalled-InRange Stall.instr fuel program s h = run-InRange fuel program s h
tick_stalled-InRange Stall.not_stalled fuel program s h = run-InRange fuel program s h

counted_down : (s : StateMachine) → InRange s → InRange (record s { delay_left = s.delay_left - 1 })
counted_down s h = ground (arith, h)

tick-Ticked :
    (fuel : ℕ) (program : List ℕ) (s : StateMachine) → InRange s → Ticked (tick fuel program s)
unfolding tick
tick-Ticked fuel program s h =
    if_intro Ticked (not s.enabled) _ _ (λ _. h)
      (λ _.
        if_intro Ticked (ltb 0 s.delay_left) _ _ (λ _. counted_down s h)
          (λ _. tick_stalled-InRange s.stall fuel program s h))

-- No instruction of the program, nor the one that may be stalled, injects another.
pub record Plain (program : List ℕ) (s : StateMachine) : Type 0 where
  pub program_plain : (pc : ℕ) → is_exec_inject (pio_decode (get_or program pc 0)) ≡ false
  pub cur_plain : is_exec_inject s.cur ≡ false

abbrev Returns : Option (TickOutcome × StateMachine) → Type 0
Returns o = (out : TickOutcome × StateMachine) × (o ≡ some out)

refill_cur : (s : StateMachine) → (refill s).cur ≡ s.cur
unfolding refill
refill_cur s = ground arith

fetched-Plain :
    (program : List ℕ) (s : StateMachine)
    → Plain program s
    → is_exec_inject (fetched program (refill s)) ≡ false
unfolding fetched
fetched-Plain program s p =
    if_intro (λ i. is_exec_inject i ≡ false) (is_instr (refill s).stall) _ _
      (λ _. ap is_exec_inject (refill_cur s) ∙ p.cur_plain)
      (λ _. p.program_plain ((refill s).pc % 2 ^ 5))

run-Returns :
    (fuel : ℕ) (program : List ℕ) (s : StateMachine)
    → Plain program s
    → Returns (run (suc fuel) program s)
unfolding run finish
run-Returns fuel program s p =
    let i = fetched program (refill s) in
    let (step, e, e1) =
      exec-returns fuel i (record (refill s) { cur = i }) (fetched-Plain program s p) in
    (after_exec step, ap finish e)

retry_autopull-Returns :
    (fuel : ℕ) (program : List ℕ) (s : StateMachine)
    → Plain program s
    → Returns (retry_autopull (suc fuel) program s)
unfolding retry_autopull
retry_autopull-Returns fuel program s p =
    elim (pop s.tx).0
      as (λ o. Returns (elim o [
        | none ↦ some (record no_outcome { stalled = true; tx_stall = true }, s)
        | some v ↦
            run (suc fuel) program
              (record s { tx = (pop s.tx).1; osr = v; osr_shift_count = 0; stall = Stall.instr })
      ])) [
        | none ↦ (_, refl)
        | some v ↦
            run-Returns fuel program
              (record s { tx = (pop s.tx).1; osr = v; osr_shift_count = 0; stall = Stall.instr })
              (record { program_plain = p.program_plain; cur_plain = p.cur_plain })
      ]

tick_stalled-Returns :
    (stall : Stall) (fuel : ℕ) (program : List ℕ) (s : StateMachine)
    → Plain program s
    → Returns (tick_stalled stall (suc fuel) program s)
unfolding tick_stalled
tick_stalled-Returns Stall.auto_push fuel program s p = (retry_autopush s, refl)
tick_stalled-Returns Stall.auto_pull fuel program s p = retry_autopull-Returns fuel program s p
tick_stalled-Returns Stall.instr fuel program s p = run-Returns fuel program s p
tick_stalled-Returns Stall.not_stalled fuel program s p = run-Returns fuel program s p

tick-Returns :
    (fuel : ℕ) (program : List ℕ) (s : StateMachine)
    → Plain program s
    → Returns (tick (suc fuel) program s)
unfolding tick
tick-Returns fuel program s p =
    if_intro Returns (not s.enabled) _ _ (λ _. (_, refl))
      (λ _.
        if_intro Returns (ltb 0 s.delay_left) _ _ (λ _. (_, refl))
          (λ _. tick_stalled-Returns s.stall fuel program s p))

-- A clock of a state machine whose program injects no instructions returns, with any fuel but 0,
-- and leaves the program counter below 32, both shift counters at 32 or less and both FIFOs valid,
-- if they were so before and the wrap target is below 32.
pub tick-InRange :
    (fuel : ℕ) (program : List ℕ) (s : StateMachine)
    → Plain program s
    → InRange s
    → (out : TickOutcome × StateMachine) × (tick (suc fuel) program s ≡ some out) × InRange out.1
tick-InRange fuel program s p h =
    let (out, e) = tick-Returns fuel program s p in
    (out, e, subst Ticked e (tick-Ticked (suc fuel) program s h))
