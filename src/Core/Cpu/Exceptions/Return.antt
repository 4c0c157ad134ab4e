-- ===== src/Core/Cpu/Exceptions/Return.antt =====
-- Exception return: `exception_return` of core/cpu.cpp on a frame that entry stacked.
use rp2040_simlator.Base.{
  ℕ, ◌-◌, ◌%◌, ◌^◌, ◌<◌, ◌≡◌, refl, ◌∙◌, ap, Bool, true, false, not, ◌&&◌, arith, if◌then◌else◌,
  get_or, set, add32, sub32, clear_low, test_bit, Bool-cases, inl, inr,
}
use rp2040_simlator.Base.Bits.{test_bit-set_bit, test_bit-clear_bit}
use rp2040_simlator.Core.Registers.{
  RegisterFile, is_handler, sp, get, set_reg, xpsr, set_lr, set_msp, set_psp, set_pc, set_control,
}
use rp2040_simlator.Core.Registers.Invariant.{IsValid}
use rp2040_simlator.Core.Registers.Status.{stacked, set_xpsr-xpsr}
use rp2040_simlator.Core.Cpu.{ExecStatus}
use rp2040_simlator.Core.Cpu.Machine.{Machine, Wiring, done, bind_done}
use rp2040_simlator.Core.Memory.Access.{IsBytes}
use rp2040_simlator.Core.Cpu.Exceptions.{
  frame_words, entry_exc_return, restore_registers, unstack, unstack_from, exception_return,
  restore_core, pop_frame, sleep_after_return,
}
use rp2040_simlator.Core.Cpu.Exceptions.Frame.{Holds, WordsFit, pop_frame-Popped}

-- Where entry puts the frame.
abbrev pub frame_pointer : RegisterFile → ℕ
frame_pointer r = clear_low (sub32 (sp r) 32) 3

-- The stack that SP names in Thread mode with SPSEL set.
abbrev pub on_process_stack : RegisterFile → Bool
on_process_stack r = not (is_handler r) && r.spsel

-- The registers `h` of a handler, with what the interrupted code `r` had in its place.
unfoldable pub resumed : RegisterFile → ℕ → RegisterFile → RegisterFile
resumed r return_address h = record h {
  r =
      set
        (set (set (set (set h.r 0 (get_or r.r 0 0)) 1 (get_or r.r 1 0)) 2 (get_or r.r 2 0)) 3
          (get_or r.r 3 0))
        12 (get_or r.r 12 0);
  lr = r.lr;
  pc = clear_low return_address 1;
  msp = if on_process_stack r then h.msp else r.msp;
  psp = if on_process_stack r then r.psp else h.psp;
  n = r.n;
  z = r.z;
  c = r.c;
  v = r.v;
  t = r.t;
  exception = r.exception;
  spsel = if is_handler r then h.spsel else r.spsel;
}

realigned_bit :
    (r : RegisterFile) (realigned : Bool) → test_bit (stacked realigned (xpsr r)) 9 ≡ realigned
realigned_bit r true = test_bit-set_bit (xpsr r) 9 9
realigned_bit r false = test_bit-clear_bit (xpsr r) 9 9

sp_aligned : (r : RegisterFile) → IsValid r → (sp r % 4 ≡ 0) × (sp r < 2 ^ 32)
unfolding sp is_handler
sp_aligned r v = ground arith

-- The bytes popped take the stack pointer back to where it was.
popped_sp :
    (a : ℕ)
    → a % 4 ≡ 0
    → a < 2 ^ 32
    → clear_low
        (if test_bit a 2
          then add32 (add32 (clear_low (sub32 a 32) 3) 32) 4
          else add32 (clear_low (sub32 a 32) 3) 32)
        2
      ≡ a
popped_sp a h l = ground arith

new_sp :
    (r : RegisterFile)
    → IsValid r
    → clear_low
        (if test_bit (stacked (test_bit (sp r) 2) (xpsr r)) 9
          then add32 (add32 (frame_pointer r) 32) 4
          else add32 (frame_pointer r) 32)
        2
      ≡ sp r
new_sp r v =
    rw (realigned_bit r (test_bit (sp r) 2))
      (popped_sp (sp r) (sp_aligned r v).0 (sp_aligned r v).1)

popped_registers : RegisterFile → RegisterFile → RegisterFile
popped_registers r h = record h {
  r =
      set
        (set (set (set (set h.r 0 (get_or r.r 0 0)) 1 (get_or r.r 1 0)) 2 (get_or r.r 2 0)) 3
          (get_or r.r 3 0))
        12 (get_or r.r 12 0);
  lr = r.lr;
  msp = if on_process_stack r then h.msp else sp r;
  psp = if on_process_stack r then sp r else h.psp;
}

core_restored :
    (r h : RegisterFile) (return_address : ℕ)
    → IsValid r
    → restore_core h
        (on_process_stack r)
        (frame_pointer r)
        (frame_words r return_address (test_bit (sp r) 2))
      ≡ popped_registers r h
unfolding restore_core popped_registers frame_words get set_reg set_psp set_msp set_lr sp is_handler
core_restored r h ra v = rw (new_sp r v) (ground arith)

restored :
    (r h : RegisterFile) (return_address : ℕ)
    → IsValid r
    → restore_registers h
        (on_process_stack r)
        (frame_pointer r)
        (frame_words r return_address (test_bit (sp r) 2))
      ≡ resumed r return_address h
unfolding restore_registers resumed frame_words set_pc set_control popped_registers is_handler sp
restored r h ra v = rw (core_restored r h ra v) (
    rw (set_xpsr-xpsr r (popped_registers r h) (test_bit (sp r) 2) v.exception_fits) (ground arith))

module _ {D : Type 0} (w : Wiring D) where
  -- What `exception_return` asks of the machine that the handler leaves: the frame of `r` stands
  -- word for word in the SRAM, where the stack pointer that entry used points.
  pub record Framed (r : RegisterFile) (return_address : ℕ) (s : Machine D) : Type 0 where
    pub fits : WordsFit (frame_pointer r) 8
    pub bytes : IsBytes s.mem.sram
    pub pointer : (if on_process_stack r then s.regs.psp else s.regs.msp) ≡ frame_pointer r
    pub frame :
        Holds s.mem.sram
          (frame_pointer r - 0x2000_0000)
          0
          (frame_words r return_address (test_bit (sp r) 2))

  sleep_keeps :
      (s : Machine D)
      → ((sleep_after_return w s).regs ≡ s.regs) × ((sleep_after_return w s).mem ≡ s.mem)
  unfolding sleep_after_return
  sleep_keeps s = ground arith

  unstack_from-resumed :
      (r : RegisterFile) (ra : ℕ) (s : Machine D)
      → IsValid r
      → Framed r ra s
      → let (o, s') = unstack_from w (on_process_stack r) (frame_pointer r) s in
        (o ≡ done ExecStatus.ok) × (s'.regs ≡ resumed r ra s.regs) × (s'.mem.sram ≡ s.mem.sram)
  unfolding unstack_from frame_words
  unstack_from-resumed r ra s v f =
      let ws = frame_words r ra (test_bit (sp r) 2) in
      let psp = on_process_stack r in
      let fp = frame_pointer r in
      let p = pop_frame-Popped w fp 0 8 ws s f.fits refl f.bytes f.frame in
      rw
        (bind_done (pop_frame w fp 0 8)
          (λ ws s. (
            done ExecStatus.ok,
            sleep_after_return w (record s { regs = restore_registers s.regs psp fp ws }),
          ))
          p.finished)
        (
          refl,
          (sleep_keeps _).0
              ∙ ap (λ g. restore_registers g psp fp ws) p.same.regs
              ∙ restored r s.regs ra v,
          ap (λ m. m.sram) (sleep_keeps _).1 ∙ p.sram,
        )

  return_value_selects :
      (r : RegisterFile) (s : Machine D)
      → exception_return w (entry_exc_return r) s ≡ unstack w (on_process_stack r) s
  unfolding exception_return entry_exc_return
  return_value_selects r s = elim (Bool-cases (is_handler r)) [
    | inl e ↦ rw (e) refl
    | inr e ↦ rw (e) (elim (Bool-cases r.spsel) [ inl f ↦ rw (f) refl | inr f ↦ rw (f) refl ])
  ]

  -- Returning from an exception with the value that entry left in LR, whatever the handler did to
  -- the other registers and to memory outside the frame, gives R0-R3, R12, LR, the flags, the
  -- Thumb bit, the exception number and the stack pointer of the interrupted code back, resumes at
  -- the return address with bit 0 clear, and leaves the SRAM as it was.
  pub exception_return-resumed :
      (r : RegisterFile) (return_address : ℕ) (s : Machine D)
      → IsValid r
      → Framed r return_address s
      → let (o, s') = exception_return w (entry_exc_return r) s in
        (o ≡ done ExecStatus.ok)
        × (s'.regs ≡ resumed r return_address s.regs)
        × (s'.mem.sram ≡ s.mem.sram)
  unfolding unstack
  exception_return-resumed r ra s v f =
      rw (return_value_selects r s, f.pointer) (unstack_from-resumed r ra s v f)
