-- ===== src/Core/Cpu/Exceptions.antt =====
-- Exception entry and return: `take_exception` and `exception_return` of core/cpu.cpp.
pub mod Entry
pub mod Frame
pub mod Return
pub mod RoundTrip
use rp2040_simlator.Base.{
  ℕ, zero, suc, ◌+◌, ◌-◌, ◌*◌, ◌/◌, ◌%◌, ◌^◌, Bool, true, false, not, ◌&&◌, List, [], ◌∷◌, ltb,
  ◌==◌, if◌then◌else◌, get_or, u64, add32, sub32, test_bit, clear_low,
}
use rp2040_simlator.Base.Int.{ℤ, pos, negsuc, ltb_ℤ}
use rp2040_simlator.Core.Bus.{BusWidth}
use rp2040_simlator.Core.Registers.{
  RegisterFile, is_handler, sp, get, set_reg, set_sp, set_pc, set_lr, set_msp, set_psp, xpsr,
  set_xpsr, set_thumb, set_exception_number, set_control,
}
use rp2040_simlator.Core.Registers.Status.{stacked}
use rp2040_simlator.Core.Cpu.{
  CoreState, ExecStatus, current_execution_priority, signal_event, exc_hard_fault,
  exc_return_handler_msp, exc_return_thread_msp, exc_return_thread_psp, stack_frame_bytes,
}
use rp2040_simlator.Core.Cpu.Machine.{
  Machine, Wiring, M, Outcome, done, stop, ◌>>=◌, ◌>>◌, return, halt, gets, modify, load_or,
  store_or, status_of,
}

abbrev pub exception_entry_cycles : ℕ
exception_entry_cycles = 15

-- The eight words that entry stacks, in order.
unfoldable pub frame_words : RegisterFile → ℕ → Bool → List ℕ
frame_words r return_address realigned =
    get r 0
    ∷ get r 1
    ∷ get r 2
    ∷ get r 3
    ∷ get r 12
    ∷ get r 14
    ∷ return_address
    ∷ stacked realigned (xpsr r)
    ∷ []

unfoldable pub entry_exc_return : RegisterFile → ℕ
entry_exc_return r =
    if is_handler r
    then exc_return_handler_msp
    else if r.spsel
    then exc_return_thread_psp
    else exc_return_thread_msp

-- The popped registers and the stack pointer, from the eight words.
unfoldable pub restore_core : RegisterFile → Bool → ℕ → List ℕ → RegisterFile
restore_core r return_psp frameptr ws =
    let word = λ (i : ℕ). get_or ws i 0 in
    let low = set_reg (set_reg (set_reg (set_reg r 0 (word 0)) 1 (word 1)) 2 (word 2)) 3 (word 3) in
    let r1 = set_lr (set_reg low 12 (word 4)) (word 5) in
    let popped = add32 frameptr stack_frame_bytes in
    let new_sp = if test_bit (word 7) 9 then add32 popped 4 else popped in
    if return_psp then set_psp r1 new_sp else set_msp r1 new_sp

-- Those, then the status and the PC.
unfoldable pub restore_registers : RegisterFile → Bool → ℕ → List ℕ → RegisterFile
unfolding restore_core
restore_registers r return_psp frameptr ws =
    let r3 = set_xpsr (restore_core r return_psp frameptr ws) (get_or ws 7 0) in
    let r4 = if is_handler r3 then r3 else set_control r3 r3.npriv return_psp in
    set_pc r4 (get_or ws 6 0)

module _ {D : Type 0} (w : Wiring D) where
  open w use {on_cycles}

  -- The stacking loop at word i.
  unfoldable pub push_frame : ℕ → ℕ → List ℕ → M D (Unit {0})
  push_frame frameptr i [] = return tt
  push_frame frameptr i (x ∷ xs) =
      store_or w ExecStatus.lockup (add32 frameptr (4 * i)) x BusWidth.word
      >> push_frame frameptr (i + 1) xs

  -- The unstacking loop at word i, with `left` words to go.
  unfoldable pub pop_frame : ℕ → ℕ → ℕ → M D (List ℕ)
  pop_frame frameptr i zero = return []
  pop_frame frameptr i (suc left) = do
    x ← load_or w ExecStatus.lockup (add32 frameptr (4 * i)) BusWidth.word
    xs ← pop_frame frameptr (i + 1) left
    return (x ∷ xs)

  -- `cycles_ += n` and then the SCS.
  unfoldable pub spend : ℕ → Machine D → Machine D
  spend n s =
      let (c, d) = on_cycles n (record (s.core) { cycles = u64 (s.core.cycles + n) }, s.dev) in
      record s { core = c; dev = d }

  -- The vector is fetched, and execution goes on there.
  unfoldable pub vector_to : ℕ → M D ExecStatus
  unfolding spend
  vector_to exc = do
    vec ← λ s. load_or w ExecStatus.lockup (add32 s.core.vtor (4 * exc)) BusWidth.word s
    modify (λ r. set_pc (set_thumb r (test_bit vec 0)) vec)
    (λ s. (done ExecStatus.exception_taken, spend exception_entry_cycles s))

  -- Everything after the lockup test. SP, LR and IPSR change between the stacking and the vector.
  unfoldable pub enter_exception : ℕ → ℕ → M D ExecStatus
  unfolding push_frame vector_to
  enter_exception exc return_address s =
      let r = s.regs in
      let sp0 = sp r in
      let frameptr = clear_low (sub32 sp0 stack_frame_bytes) 3 in
      let awake = record s { core = record (signal_event s.core) { asleep = false } } in
      (do
        push_frame frameptr 0 (frame_words r return_address (test_bit sp0 2))
        modify (λ r. set_exception_number (set_lr (set_sp r frameptr) (entry_exc_return r)) exc)
        vector_to exc)
        awake

  unfoldable pub take_exception : ℕ → ℕ → Machine D → ExecStatus × Machine D
  unfolding enter_exception
  take_exception exc return_address s =
      if exc == exc_hard_fault && not (ltb_ℤ (negsuc 0) (current_execution_priority s.core s.regs))
      then (ExecStatus.lockup, s)
      else let (o, s') = enter_exception exc return_address s in (status_of o, s')

  -- SLEEPONEXIT, on the registers that are restored.
  unfoldable pub sleep_after_return : Machine D → Machine D
  sleep_after_return s =
      if s.core.sleep_on_exit && not (is_handler s.regs)
      then record s { core = record (s.core) { asleep = true; sleep_is_wfe = false } }
      else s

  -- The lambda `unstack`, from the frame pointer on.
  unfoldable pub unstack_from : Bool → ℕ → M D ExecStatus
  unfolding pop_frame restore_registers sleep_after_return
  unstack_from return_psp frameptr = do
    ws ← pop_frame frameptr 0 8
    modify (λ r. restore_registers r return_psp frameptr ws)
    (λ s. (done ExecStatus.ok, sleep_after_return s))

  unfoldable pub unstack : Bool → M D ExecStatus
  unfolding unstack_from
  unstack return_psp s = unstack_from return_psp (if return_psp then s.regs.psp else s.regs.msp) s

  unfoldable pub exception_return : ℕ → M D ExecStatus
  unfolding unstack
  exception_return exc_return =
      let kind = exc_return % 2 ^ 4 in
      if kind == 0x1
      then unstack false
      else if kind == 0x9
      then unstack false
      else if kind == 0xD
      then unstack true
      else halt ExecStatus.lockup
