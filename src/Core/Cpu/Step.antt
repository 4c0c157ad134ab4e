-- ===== src/Core/Cpu/Step.antt =====
-- `Cpu::reset` and `Cpu::step` of core/cpu.cpp.
use rp2040_simlator.Base.{ℕ, false, not, ◌&&◌, ◌==◌, if◌then◌else◌, add32, test_bit}
use rp2040_simlator.Core.Bus.{BusWidth, is_ok}
use rp2040_simlator.Core.Registers.{RegisterFile, set_pc, set_msp, set_thumb}
use rp2040_simlator.Core.Registers
use rp2040_simlator.Core.Thumb.{Mnemonic, DecodedInstr, is_32bit_thumb}
use rp2040_simlator.Core.Thumb.Decode16.{decode_thumb16}
use rp2040_simlator.Core.Thumb.Decode32.{decode_thumb32}
use rp2040_simlator.Core.Timing.{instruction_cycles}
use rp2040_simlator.Core.Cpu.{
  ExecStatus, clear_pending, highest_pending_exception, exc_hard_fault, exc_svcall,
}
use rp2040_simlator.Core.Cpu.Machine.{Machine, Wiring, bus_load}
use rp2040_simlator.Core.Cpu.Exceptions.{take_exception, spend}
use rp2040_simlator.Core.Cpu.LoadStore.{popcount16}
use rp2040_simlator.Core.Cpu.Execute.{execute}

module _ {D : Type 0} (w : Wiring D) where
  unfoldable pub reset : Machine D → Machine D
  reset s =
      let s0 = record s {
        regs = Registers.reset;
        core = record (s.core) {
          pending = 0;
          irq_enabled = 0;
          asleep = false;
          sleep_is_wfe = false;
          event = false;
          sleep_on_exit = false;
        };
      } in
      let (sp, s1) = bus_load w s.core.vtor BusWidth.word s0 in
      let (pc, s2) = bus_load w (add32 s1.core.vtor 4) BusWidth.word s1 in
      let r1 = if is_ok sp.status then set_msp s2.regs sp.value else s2.regs in
      let r2 =
        if is_ok pc.status then set_pc (set_thumb r1 (test_bit pc.value 0)) pc.value else r1 in
      record s2 { regs = r2; core = record (s2.core) { cycles = 0 } }

  -- The register count of the multi-register transfers, for the cycle count.
  unfoldable pub transfer_count : DecodedInstr → ℕ
  transfer_count d = elim d.op [
    | Mnemonic.ldm ↦ popcount16 d.register_list
    | Mnemonic.stm ↦ popcount16 d.register_list
    | Mnemonic.push ↦ popcount16 d.register_list
    | Mnemonic.pop ↦ popcount16 d.register_list
    | _ ↦ 0
  ]

  -- After an instruction at `pc`: its synchronous exception, if it raised one.
  unfoldable pub after_execute : ℕ → ExecStatus → Machine D → ExecStatus × Machine D
  after_execute pc st s = elim st [
    | ExecStatus.svc ↦ take_exception w exc_svcall s.regs.pc s
    | ExecStatus.undefined ↦ take_exception w exc_hard_fault pc s
    | ExecStatus.mem_fault ↦ take_exception w exc_hard_fault pc s
    | other ↦ (other, s)
  ]

  -- Execute the decoded instruction at `pc` and account for its cycles.
  unfoldable pub run_decoded : DecodedInstr → ℕ → Machine D → ExecStatus × Machine D
  unfolding after_execute transfer_count spend
  run_decoded d pc s =
      let seq_pc = add32 pc d.length in
      let (st, s1) = execute w d pc (record s { regs = set_pc s.regs seq_pc }) in
      let took_branch = not (s1.regs.pc == seq_pc) in
      after_execute pc st (spend w (instruction_cycles d took_branch (transfer_count d)) s1)

  -- Fetch, decode, execute.
  unfoldable pub fetch_execute : Machine D → ExecStatus × Machine D
  unfolding run_decoded
  fetch_execute s =
      let pc = s.regs.pc in
      let (hw1, s1) = bus_load w pc BusWidth.half s in
      let (hw2, s2) = bus_load w (add32 pc 2) BusWidth.half s1 in
      if not (is_ok hw1.status)
      then take_exception w exc_hard_fault pc s1
      else if is_32bit_thumb hw1.value
      then (if not (is_ok hw2.status)
          then take_exception w exc_hard_fault pc s2
          else run_decoded (decode_thumb32 hw1.value hw2.value) pc s2)
      else run_decoded (decode_thumb16 hw1.value) pc s1

  unfoldable pub step : Machine D → ExecStatus × Machine D
  unfolding fetch_execute
  step s =
      let e = highest_pending_exception s.core s.regs in
      let woken = record s { core = record (s.core) { event = false; asleep = false } } in
      if not (e == 0)
      then take_exception w e s.regs.pc (record s { core = clear_pending s.core e })
      else if not s.core.asleep
      then fetch_execute s
      else if s.core.sleep_is_wfe && s.core.event
      then fetch_execute woken
      else (ExecStatus.waiting_for_interrupt, spend w 1 s)
