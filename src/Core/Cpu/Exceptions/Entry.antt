-- ===== src/Core/Cpu/Exceptions/Entry.antt =====
-- Exception entry: `take_exception` of core/cpu.cpp, from the stacking to the vector.
use rp2040_simlator.Base.{
  ℕ, ◌*◌, ◌%◌, ◌^◌, ◌<◌, ◌≡◌, refl, sym, ◌∙◌, ap, Bool, false, not, ◌&&◌, arith, if◌then◌else◌,
  ◌==◌, add32, clear_low, test_bit, some,
}
use rp2040_simlator.Base.Int.{negsuc, ltb_ℤ}
use rp2040_simlator.Core.Bus.{BusWidth}
use rp2040_simlator.Core.Registers.{
  RegisterFile, is_handler, sp, set_sp, set_lr, set_pc, set_thumb, set_exception_number,
}
use rp2040_simlator.Core.Registers.Invariant.{IsValid, get-lt}
use rp2040_simlator.Core.Registers.Status.{stacked-lt}
use rp2040_simlator.Core.Memory.{Store, store, backing}
use rp2040_simlator.Core.Memory.Access.{IsBytes}
use rp2040_simlator.Core.Memory.Scalar.{assemble}
use rp2040_simlator.Core.Memory.Sram.{read_scalar_backed, check_watchpoints_keeps}
use rp2040_simlator.Core.Cpu.{ExecStatus, current_execution_priority, exc_hard_fault, signal_event}
use rp2040_simlator.Core.Cpu.Machine.{Machine, Wiring, done, bind_done, load_or, status_of}
use rp2040_simlator.Core.Cpu.Exceptions.{
  frame_words, entry_exc_return, push_frame, vector_to, enter_exception, take_exception, spend,
}
use rp2040_simlator.Core.Cpu.Exceptions.Frame.{AllWords, WordsFit, push_frame-Pushed, loaded}
use rp2040_simlator.Core.Cpu.Exceptions.Return.{frame_pointer, on_process_stack, Framed}

-- The registers with which the handler starts, for the vector `vec`.
unfoldable pub entered : RegisterFile → ℕ → ℕ → RegisterFile
entered r exc vec = record r {
  msp = if on_process_stack r then r.msp else frame_pointer r;
  psp = if on_process_stack r then frame_pointer r else r.psp;
  lr = entry_exc_return r;
  pc = clear_low vec 1;
  t = test_bit vec 0;
  exception = exc % 2 ^ 9;
}

pub entry_registers :
    (r : RegisterFile) (exc vec : ℕ)
    → set_pc
        (set_thumb
          (set_exception_number (set_lr (set_sp r (frame_pointer r)) (entry_exc_return r)) exc)
          (test_bit vec 0))
        vec
      ≡ entered r exc vec
unfolding set_pc set_thumb set_exception_number set_lr set_sp entered is_handler
entry_registers r exc vec = ground arith

frame_words-AllWords :
    (r : RegisterFile) (ra : ℕ) (b : Bool) → IsValid r → ra < 2 ^ 32 → AllWords (frame_words r ra b)
unfolding frame_words
frame_words-AllWords r ra b v h =
    let reg = λ (n : ℕ). get-lt r n v in
    (
      reg 0,
      (reg 1, (reg 2, (reg 3, (reg 12, (reg 14, (h, (stacked-lt r b v.exception_fits, tt))))))),
    )

-- The word at the vector stands in the ROM, the flash or the SRAM.
pub record Backed (addr off : ℕ) (st : Store) : Type 0 where
  pub aligned : addr % 4 ≡ 0
  pub there : backing addr 4 ≡ some (st, off)

module _ {D : Type 0} (w : Wiring D) where
  load_or-Backed :
      (e : ExecStatus) (addr off : ℕ) (st : Store) (s : Machine D)
      → Backed addr off st
      → load_or w e addr BusWidth.word s
        ≡ (done (assemble (store s.mem st) off 4 0 0), loaded w s addr)
  unfolding load_or loaded
  load_or-Backed e addr off st s h =
      rw (read_scalar_backed w.devices s.mem (s.core, s.dev) addr off st h.aligned h.there) refl

  store_kept :
      (s : Machine D) (addr : ℕ) (st : Store) → store (loaded w s addr).mem st ≡ store s.mem st
  unfolding loaded
  store_kept s addr Store.in_rom = (check_watchpoints_keeps s.mem addr 4 false).0
  store_kept s addr Store.in_flash = (check_watchpoints_keeps s.mem addr 4 false).1
  store_kept s addr Store.in_sram = (check_watchpoints_keeps s.mem addr 4 false).2

  vector_lem :
      (exc off : ℕ) (st : Store) (s : Machine D)
      → Backed (add32 s.core.vtor (4 * exc)) off st
      → let (o, s') = vector_to w exc s in
        let vec = assemble (store s.mem st) off 4 0 0 in
        (o ≡ done ExecStatus.exception_taken)
        × (s'.regs ≡ set_pc (set_thumb s.regs (test_bit vec 0)) vec)
        × (s'.mem.sram ≡ s.mem.sram)
        × (store s'.mem st ≡ store s.mem st)
  unfolding vector_to spend loaded
  vector_lem exc off st s h =
      let addr = add32 s.core.vtor (4 * exc) in
      rw
        (bind_done (λ s. load_or w ExecStatus.lockup (add32 s.core.vtor (4 * exc)) BusWidth.word s)
          (λ vec s. (
            done ExecStatus.exception_taken,
            spend w 15 (record s { regs = set_pc (set_thumb s.regs (test_bit vec 0)) vec }),
          ))
          (load_or-Backed ExecStatus.lockup addr off st s h))
        (refl, refl, store_kept s addr Store.in_sram, store_kept s addr st)

  -- Where entry goes through: the frame fits in the SRAM, the vector stands in one of the three
  -- memories, and it is not a HardFault inside a HardFault.
  pub record Enters (exc return_address off : ℕ) (st : Store) (s : Machine D) : Type 0 where
    pub valid : IsValid s.regs
    pub sram_bytes : IsBytes s.mem.sram
    pub fits : WordsFit (frame_pointer s.regs) 8
    pub address : return_address < 2 ^ 32
    pub vector : Backed (add32 s.core.vtor (4 * exc)) off st
    pub no_lockup :
        (exc == exc_hard_fault && not (ltb_ℤ (negsuc 0) (current_execution_priority s.core s.regs)))
        ≡ false

  pointer_entered :
      (r : RegisterFile) (exc vec : ℕ)
      → (if on_process_stack r then (entered r exc vec).psp else (entered r exc vec).msp)
        ≡ frame_pointer r
  unfolding entered
  pointer_entered r exc vec = ground arith

  pub awake : Machine D → Machine D
  awake s = record s { core = record (signal_event s.core) { asleep = false } }

  enter_exception-Framed :
      (exc ra off : ℕ) (st : Store) (s : Machine D)
      → Enters exc ra off st s
      → let (o, s') = enter_exception w exc ra s in
        (o ≡ done ExecStatus.exception_taken)
        × (s'.regs ≡ entered s.regs exc (assemble (store s'.mem st) off 4 0 0))
        × Framed w s.regs ra s'
  unfolding enter_exception awake signal_event frame_words
  enter_exception-Framed exc ra off st s h =
      let fp = frame_pointer s.regs in
      let ws = frame_words s.regs ra (test_bit (sp s.regs) 2) in
      let p =
        push_frame-Pushed w fp 0 8 ws (awake s) h.fits refl h.sram_bytes
          (frame_words-AllWords s.regs ra (test_bit (sp s.regs) 2) h.valid h.address) in
      let out = (push_frame w fp 0 ws (awake s)).1 in
      let turned = λ (r : RegisterFile).
        set_exception_number (set_lr (set_sp r fp) (entry_exc_return r)) exc in
      let ready = record out { regs = turned out.regs } in
      let v = vector_lem exc off st ready (rw (p.same.core) h.vector) in
      let vec = assemble (store ready.mem st) off 4 0 0 in
      let s' = (vector_to w exc ready).1 in
      let regs =
        v.1
        ∙ ap (λ g. set_pc (set_thumb (turned g) (test_bit vec 0)) vec) p.same.regs
        ∙ entry_registers s.regs exc vec
        ∙ ap (λ q. entered s.regs exc (assemble q off 4 0 0)) (sym v.3) in
      rw
        (bind_done (push_frame w fp 0 ws)
          (λ _ s. vector_to w exc (record s { regs = turned s.regs }))
          (ap (λ o. (o, out)) p.finished))
        (
          v.0,
          regs,
          record {
            fits = h.fits;
            bytes = rw (v.2) p.same.sram_bytes;
            pointer =
                ap (λ (g : RegisterFile). if on_process_stack s.regs then g.psp else g.msp) regs
                ∙ pointer_entered s.regs exc (assemble (store s'.mem st) off 4 0 0);
            frame = rw (v.2) p.holds;
          },
        )

  -- Entering an exception from a valid state in which the frame fits in the SRAM and the vector
  -- stands in ROM, flash or SRAM, where it is not a HardFault inside a HardFault, ends with
  -- `exception_taken`, goes on at the vector with the return code in LR and the exception's number
  -- in IPSR, and leaves the eight words of the frame in the SRAM, where the stack pointer in use
  -- then points.
  pub take_exception-Framed :
      (exc return_address off : ℕ) (st : Store) (s : Machine D)
      → Enters exc return_address off st s
      → let (e, s') = take_exception w exc return_address s in
        (e ≡ ExecStatus.exception_taken)
        × (s'.regs ≡ entered s.regs exc (assemble (store s'.mem st) off 4 0 0))
        × Framed w s.regs return_address s'
  unfolding take_exception
  take_exception-Framed exc ra off st s h =
      let (o, r, f) = enter_exception-Framed exc ra off st s h in
      rw (h.no_lockup) (ap status_of o, r, f)
