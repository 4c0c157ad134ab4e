-- ===== src/Core/Cpu/Exceptions/RoundTrip.antt =====
-- Entry and return together: the interrupted code of core/cpu.cpp goes on as it was.
use rp2040_simlator.Base.{ℕ, ◌≡◌, ◌∙◌, ap, arith, List, get_or, set, set-get_or, clear_low}
use rp2040_simlator.Core.Registers.{RegisterFile}
use rp2040_simlator.Core.Memory.{Store}
use rp2040_simlator.Core.Cpu.{ExecStatus}
use rp2040_simlator.Core.Cpu.Machine.{Machine, Wiring, done}
use rp2040_simlator.Core.Cpu.Exceptions.{entry_exc_return, take_exception, exception_return}
use rp2040_simlator.Core.Cpu.Exceptions.Entry.{entered, Enters, take_exception-Framed}
use rp2040_simlator.Core.Cpu.Exceptions.Return.{resumed, exception_return-resumed}

written_back :
    (xs : List ℕ)
    → set
        (set
          (set (set (set xs 0 (get_or xs 0 0)) 1 (get_or xs 1 0)) 2 (get_or xs 2 0))
          3
          (get_or xs 3 0))
        12
        (get_or xs 12 0)
      ≡ xs
written_back xs =
    rw (set-get_or xs 0 0, set-get_or xs 1 0, set-get_or xs 2 0, set-get_or xs 3 0)
      (set-get_or xs 12 0)

resumed-entered :
    (r : RegisterFile) (exc ra vec : ℕ)
    → resumed r ra (entered r exc vec) ≡ record r { pc = clear_low ra 1 }
unfolding resumed entered
resumed-entered r exc ra vec = rw (written_back r.r) (ground arith)

module _ {D : Type 0} (w : Wiring D) where
  -- A handler that returns at once: entry, then return with the LR that entry left. The status is
  -- `ok` and the registers are those of the interrupted code, which goes on at the return address
  -- with bit 0 clear. R4-R11, PRIMASK and both stack pointers are the same; the flags, R0-R3, R12
  -- and LR come back from the frame.
  pub exception_return-take_exception :
      (exc return_address off : ℕ) (st : Store) (s : Machine D)
      → Enters w exc return_address off st s
      → let s1 = (take_exception w exc return_address s).1 in
        let (o, s2) = exception_return w s1.regs.lr s1 in
        (o ≡ done ExecStatus.ok)
        × (s2.regs ≡ record (s.regs) { pc = clear_low return_address 1 })
        × (s2.mem.sram ≡ s1.mem.sram)
  unfolding entered entry_exc_return
  exception_return-take_exception exc ra off st s h =
      let (e, regs, f) = take_exception-Framed w exc ra off st s h in
      let s1 = (take_exception w exc ra s).1 in
      let (o, back, sram) = exception_return-resumed w s.regs ra s1 h.valid f in
      rw (ap (λ (r : RegisterFile). r.lr) regs)
        (o, back ∙ ap (resumed s.regs ra) regs ∙ resumed-entered s.regs exc ra _, sram)
