-- ===== src/Core/Cpu/Execute.antt =====
-- `Cpu::execute` of core/cpu.cpp: the dispatch, and the instructions that act on the core itself.
use rp2040_simlator.Base.{
  ℕ, ◌*◌, true, false, not, ◌||◌, Option, none, some, ◌==◌, if◌then◌else◌, bit_or, test_bit,
  of_bool,
}
use rp2040_simlator.Core.Registers.{
  RegisterFile, apsr, ipsr, set_apsr, set_msp, set_psp, set_primask, set_control,
}
use rp2040_simlator.Core.Thumb.{Mnemonic, DecodedInstr}
use rp2040_simlator.Core.Cpu.{ExecStatus, CoreState, signal_event, highest_pending_exception}
use rp2040_simlator.Core.Cpu.Machine.{Machine, Wiring, Outcome, status_of, read_reg, write_reg}
use rp2040_simlator.Core.Cpu.Data.{exec_data}
use rp2040_simlator.Core.Cpu.LoadStore.{exec_load_store, exec_branch}

-- The special register that MRS reads; `none` for an undefined SYSm.
unfoldable pub read_special : RegisterFile → ℕ → Option ℕ
read_special r sysm =
    if sysm == 0 || sysm == 2
    then some (apsr r)
    else if sysm == 1 || sysm == 3
    then some (bit_or (apsr r) (ipsr r))
    else if sysm == 5 || sysm == 7
    then some (ipsr r)
    else if sysm == 6
    then some 0
    else if sysm == 8
    then some r.msp
    else if sysm == 9
    then some r.psp
    else if sysm == 16
    then some (of_bool r.primask)
    else if sysm == 20
    then some (bit_or (of_bool r.spsel * 2) (of_bool r.npriv))
    else none

-- The registers after MSR.
unfoldable pub write_special : RegisterFile → ℕ → ℕ → Option RegisterFile
write_special r sysm v =
    if sysm == 0 || (sysm == 1 || (sysm == 2 || sysm == 3))
    then some (set_apsr r v)
    else if sysm == 8
    then some (set_msp r v)
    else if sysm == 9
    then some (set_psp r v)
    else if sysm == 16
    then some (set_primask r (test_bit v 0))
    else if sysm == 20
    then some (set_control r (test_bit v 0) (test_bit v 1))
    else none

module _ {D : Type 0} where
  abbrev with_regs : Machine D → ExecStatus × RegisterFile → ExecStatus × Machine D
  with_regs s (st, r) = (st, record s { regs = r })

  abbrev with_core : Machine D → ExecStatus → CoreState → ExecStatus × Machine D
  with_core s st c = (st, record s { core = c })

  unfoldable pub exec_wfi : Machine D → ExecStatus × Machine D
  exec_wfi s =
      if not (s.core.pending == 0)
      then (ExecStatus.ok, s)
      else with_core s ExecStatus.waiting_for_interrupt
          (record (s.core) { asleep = true; sleep_is_wfe = false })

  unfoldable pub exec_wfe : Machine D → ExecStatus × Machine D
  exec_wfe s =
      if s.core.event
      then with_core s ExecStatus.ok (record (s.core) { event = false })
      else if not (highest_pending_exception s.core s.regs == 0)
      then (ExecStatus.ok, s)
      else with_core s ExecStatus.waiting_for_interrupt
          (record (s.core) { asleep = true; sleep_is_wfe = true })

  unfoldable pub exec_mrs : DecodedInstr → Machine D → ExecStatus × Machine D
  exec_mrs d s = elim (read_special s.regs d.imm) [
    | some v ↦ with_regs s (ExecStatus.ok, write_reg s.regs d.rd v)
    | none ↦ (ExecStatus.undefined, s)
  ]

  unfoldable pub exec_msr : DecodedInstr → ℕ → Machine D → ExecStatus × Machine D
  exec_msr d pc s = elim (write_special s.regs d.imm (read_reg s.regs d.rn pc)) [
    | some r ↦ with_regs s (ExecStatus.ok, r)
    | none ↦ (ExecStatus.undefined, s)
  ]

  abbrev ended : Outcome ExecStatus × Machine D → ExecStatus × Machine D
  ended (o, s) = (status_of o, s)

  unfoldable pub execute : Wiring D → DecodedInstr → ℕ → Machine D → ExecStatus × Machine D
  unfolding exec_wfi exec_wfe exec_mrs exec_msr
  execute w d pc s =
      let load_store = ended (exec_load_store w d pc s) in
      let branch = ended (exec_branch w d pc s) in
      elim d.op [
        | Mnemonic.undefined ↦ (ExecStatus.undefined, s)
        | Mnemonic.unpredictable ↦ (ExecStatus.undefined, s)
        | Mnemonic.udf ↦ (ExecStatus.undefined, s)
        | Mnemonic.nop ↦ (ExecStatus.ok, s)
        | Mnemonic.yield ↦ (ExecStatus.ok, s)
        | Mnemonic.dsb ↦ (ExecStatus.ok, s)
        | Mnemonic.dmb ↦ (ExecStatus.ok, s)
        | Mnemonic.isb ↦ (ExecStatus.ok, s)
        | Mnemonic.sev ↦
            (ExecStatus.ok, record s { core = signal_event s.core; dev = w.send_event s.dev })
        | Mnemonic.wfi ↦ exec_wfi s
        | Mnemonic.wfe ↦ exec_wfe s
        | Mnemonic.bkpt ↦ with_core s ExecStatus.breakpoint (record (s.core) { bkpt_imm = d.imm })
        | Mnemonic.svc ↦ with_core s ExecStatus.svc (record (s.core) { svc_imm = d.imm })
        | Mnemonic.cps ↦ (ExecStatus.ok, record s { regs = set_primask s.regs (not (d.imm == 0)) })
        | Mnemonic.b ↦ branch
        | Mnemonic.b_cond ↦ branch
        | Mnemonic.bl ↦ branch
        | Mnemonic.bx ↦ branch
        | Mnemonic.blx_reg ↦ branch
        | Mnemonic.mrs ↦ exec_mrs d s
        | Mnemonic.msr ↦ exec_msr d pc s
        | Mnemonic.ldr_lit ↦ load_store
        | Mnemonic.str_reg ↦ load_store
        | Mnemonic.strh_reg ↦ load_store
        | Mnemonic.strb_reg ↦ load_store
        | Mnemonic.ldrsb_reg ↦ load_store
        | Mnemonic.ldr_reg ↦ load_store
        | Mnemonic.ldrh_reg ↦ load_store
        | Mnemonic.ldrb_reg ↦ load_store
        | Mnemonic.ldrsh_reg ↦ load_store
        | Mnemonic.str_imm ↦ load_store
        | Mnemonic.ldr_imm ↦ load_store
        | Mnemonic.strb_imm ↦ load_store
        | Mnemonic.ldrb_imm ↦ load_store
        | Mnemonic.strh_imm ↦ load_store
        | Mnemonic.ldrh_imm ↦ load_store
        | Mnemonic.str_imm_sp ↦ load_store
        | Mnemonic.ldr_imm_sp ↦ load_store
        | Mnemonic.push ↦ load_store
        | Mnemonic.pop ↦ load_store
        | Mnemonic.stm ↦ load_store
        | Mnemonic.ldm ↦ load_store
        | _ ↦ with_regs s (exec_data d pc s.regs)
      ]
