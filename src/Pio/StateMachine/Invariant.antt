-- ===== src/Pio/StateMachine/Invariant.antt =====
-- What every instruction keeps: the program counter, the shift counters and the FIFOs in range.
use rp2040_simlator.Base.{
  ℕ, zero, suc, ◌%◌, ◌^◌, ◌≤◌, ◌<◌, not, Option, none, some, arith, if_intro,
}
use rp2040_simlator.Pio.Fifo.Queue.{IsValid, push-queue, pop-queue}
use rp2040_simlator.Pio.Decode.{PioOp, PioInstr, pio_decode, decode_fields}
use rp2040_simlator.Pio.StateMachine.{
  StateMachine, Stall, advance_pc, maybe_autopush, do_autopull, apply_sideset,
}
use rp2040_simlator.Pio.StateMachine.Exec.{
  Step, exec, exec_op, exec_jmp, jump_test, exec_set, mov_source, mov_to, exec_in, shift_out,
  out_to, exec_push, exec_pull, exec_wait, exec_irq, shift_in, prepare, moved, injected,
  is_exec_inject,
}

pub record InRange (s : StateMachine) : Type 0 where
  pub pc_fits : s.pc < 32
  pub bottom_fits : s.cfg.wrap_bottom < 32
  pub osr_count : s.osr_shift_count ≤ 32
  pub isr_count : s.isr_shift_count ≤ 32
  pub cur_fits : s.cur.bit_count ≤ 32
  pub tx_valid : IsValid s.tx
  pub rx_valid : IsValid s.rx

pub advance_pc-InRange : (s : StateMachine) → InRange s → InRange (advance_pc s)
unfolding advance_pc
advance_pc-InRange s h = ground (arith, h)

jump_test-InRange : (c : ℕ) (s : StateMachine) → InRange s → InRange (jump_test c s).1
unfolding jump_test
jump_test-InRange c s h = ground (arith, h)

exec_jmp-InRange : (i : PioInstr) (s : StateMachine) → InRange s → InRange (exec_jmp i s).1
unfolding exec_jmp
exec_jmp-InRange i s h =
    ground
      (arith, jump_test-InRange i.condition s h, advance_pc-InRange (jump_test i.condition s).1)

exec_set-InRange : (i : PioInstr) (s : StateMachine) → InRange s → InRange (exec_set i s).1
unfolding exec_set advance_pc
exec_set-InRange i s h = ground (arith, h)

mov_to-InRange : (i : PioInstr) (v : ℕ) (s : StateMachine) → InRange s → InRange (mov_to i v s).1
unfolding mov_to advance_pc
mov_to-InRange i v s h = ground (arith, h)

out_to-InRange :
    (i : PioInstr) (v : ℕ) (s : StateMachine)
    → i.bit_count ≤ 32
    → InRange s
    → InRange (out_to i v s).1
unfolding out_to advance_pc
out_to-InRange i v s b h = ground (arith, h)

exec_irq-InRange : (i : PioInstr) (s : StateMachine) → InRange s → InRange (exec_irq i s).1
unfolding exec_irq advance_pc
exec_irq-InRange i s h = ground (arith, h)

exec_push-InRange : (i : PioInstr) (s : StateMachine) → InRange s → InRange (exec_push i s).1
unfolding exec_push advance_pc
exec_push-InRange i s h = ground (arith, h, (push-queue s.rx s.isr h.rx_valid).1)

exec_pull-InRange : (i : PioInstr) (s : StateMachine) → InRange s → InRange (exec_pull i s).1
unfolding exec_pull advance_pc
exec_pull-InRange i s h = ground (arith, h, (pop-queue s.tx h.tx_valid).1)

exec_wait-InRange : (i : PioInstr) (s : StateMachine) → InRange s → InRange (exec_wait i s).1
unfolding exec_wait advance_pc
exec_wait-InRange i s h = ground (arith, h)

maybe_autopush-InRange : (s : StateMachine) → InRange s → InRange (maybe_autopush s)
unfolding maybe_autopush
maybe_autopush-InRange s h = ground (arith, h, (push-queue s.rx s.isr h.rx_valid).1)

do_autopull-InRange : (s : StateMachine) → InRange s → InRange (do_autopull s).1
unfolding do_autopull
do_autopull-InRange s h = ground (arith, h, (pop-queue s.tx h.tx_valid).1)

shift_out-InRange : (n : ℕ) (s : StateMachine) → InRange s → InRange (shift_out n s).1
unfolding shift_out
shift_out-InRange n s h = ground (arith, h)

apply_sideset-InRange : (i : PioInstr) (s : StateMachine) → InRange s → InRange (apply_sideset s i)
unfolding apply_sideset
apply_sideset-InRange i s h = ground (arith, h)

pub pio_decode-bit_count : (w : ℕ) → (pio_decode w).bit_count ≤ 32
unfolding pio_decode decode_fields
pio_decode-bit_count w = ground arith

shift_in-InRange : (i : PioInstr) (s : StateMachine) → InRange s → InRange (shift_in i s)
unfolding shift_in
shift_in-InRange i s h = ground (arith, h)

exec_in-InRange : (i : PioInstr) (s : StateMachine) → InRange s → InRange (exec_in i s).1
unfolding exec_in
exec_in-InRange i s h =
    let s' = maybe_autopush (shift_in i s) in
    let k = maybe_autopush-InRange (shift_in i s) (shift_in-InRange i s h) in
    ground (arith, k, advance_pc-InRange s' k)

exec_op-InRange :
    (o : PioOp) (i : PioInstr) (s : StateMachine)
    → i.bit_count ≤ 32
    → InRange s
    → InRange (exec_op o i s).1
unfolding exec_op
exec_op-InRange PioOp.jmp i s b h = exec_jmp-InRange i s h
exec_op-InRange PioOp.set_op i s b h = exec_set-InRange i s h
exec_op-InRange PioOp.mov i s b h = mov_to-InRange i (mov_source i s) s h
exec_op-InRange PioOp.in_op i s b h = exec_in-InRange i s h
exec_op-InRange PioOp.out_op i s b h =
    out_to-InRange i (shift_out i.bit_count s).0 (shift_out i.bit_count s).1 b
      (shift_out-InRange i.bit_count s h)
exec_op-InRange PioOp.push i s b h = exec_push-InRange i s h
exec_op-InRange PioOp.pull i s b h = exec_pull-InRange i s h
exec_op-InRange PioOp.wait_op i s b h = exec_wait-InRange i s h
exec_op-InRange PioOp.irq i s b h = exec_irq-InRange i s h

prepare-InRange : (i : PioInstr) (s : StateMachine) → InRange s → InRange (prepare i s).1
unfolding prepare
prepare-InRange i s h =
    let k = apply_sideset-InRange i s h in
    ground (arith, h, k, do_autopull-InRange s h, do_autopull-InRange (apply_sideset s i) k)

moved-InRange : (i : PioInstr) (s : StateMachine) → InRange s → InRange (moved i s).1
unfolding moved
moved-InRange i s h = ground (arith, h, shift_out-InRange i.bit_count s h)

injected-InRange :
    (i : PioInstr) (s : StateMachine)
    → InRange s
    → InRange (injected i s).1 × ((injected i s).0.bit_count ≤ 32)
unfolding injected
injected-InRange i s h =
    let k = moved-InRange i s h in
    let b = pio_decode-bit_count ((moved i s).0 % 2 ^ 16) in (ground (arith, k, b), b)

-- A property of what `exec` gives, where it returns.
abbrev pub Given : (Step → Type 0) → Option Step → Type 0
Given P none = Unit
Given P (some step) = P step

pub exec-InRange :
    (fuel : ℕ) (i : PioInstr) (s : StateMachine)
    → i.bit_count ≤ 32
    → InRange s
    → Given (λ step. InRange step.1) (exec fuel i s)
unfolding exec
exec-InRange zero i s b h = tt
exec-InRange (suc fuel) i s b h =
    let s1 = (prepare i s).1 in
    let h1 = prepare-InRange i s h in
    let (h2, b2) = injected-InRange i s1 h1 in
    let rest = exec-InRange fuel (injected i s1).0 (injected i s1).1 b2 h2 in
    if_intro (Given (λ step. InRange step.1)) (not (prepare i s).0) _ _ (λ _. stalled s1 h1)
      (λ _.
        if_intro (Given (λ step. InRange step.1)) (is_exec_inject i) _ _ (λ _. rest)
          (λ _. exec_op-InRange i.op i s1 b h1))
  where
    stalled : (s : StateMachine) → InRange s → InRange (record s { stall = Stall.auto_pull })
    stalled s h = record {
      pc_fits = h.pc_fits;
      bottom_fits = h.bottom_fits;
      osr_count = h.osr_count;
      isr_count = h.isr_count;
      cur_fits = h.cur_fits;
      tx_valid = h.tx_valid;
      rx_valid = h.rx_valid;
    }
