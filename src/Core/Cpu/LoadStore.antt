-- ===== src/Core/Cpu/LoadStore.antt =====
-- `exec_load_store` and `exec_branch` of core/cpu.cpp.
use rp2040_simlator.Base.{
  ℕ, zero, suc, ◌+◌, ◌*◌, ◌/◌, ◌%◌, ◌^◌, ◌&&◌, ◌==◌, if◌then◌else◌, bit, bit_or, test_bit, add32,
  sub32, clear_low,
}
use rp2040_simlator.Core.Bus.{BusWidth}
use rp2040_simlator.Core.Registers.{
  RegisterFile, is_handler, sp, get, set_reg, set_sp, set_pc, set_lr, set_thumb, condition_holds,
}
use rp2040_simlator.Core.Thumb.{Mnemonic, DecodedInstr}
use rp2040_simlator.Core.Cpu.{ExecStatus, is_exc_return}
use rp2040_simlator.Core.Cpu.Machine.{
  Machine, Wiring, M, done, ◌>>=◌, ◌>>◌, return, modify, read_reg, write_reg, load_or, store_or,
}
use rp2040_simlator.Core.Cpu.Data.{sxt8, sxt16}
use rp2040_simlator.Core.Cpu.Exceptions.{exception_return}

-- The loop of `popcount16`; it ends when no bit is left, after sixteen rounds at the latest.
unfoldable pub popcount_loop : ℕ → ℕ → ℕ → ℕ
popcount_loop zero v c = c
popcount_loop (suc fuel) v c =
    let more = popcount_loop fuel (v / 2) (c + v % 2) in if v == 0 then c else more

unfoldable pub popcount16 : ℕ → ℕ
unfolding popcount_loop
popcount16 v = popcount_loop 16 v 0

module _ {D : Type 0} (w : Wiring D) where
  abbrev fault_load : ℕ → BusWidth → M D ℕ
  fault_load = load_or w ExecStatus.mem_fault

  abbrev fault_store : ℕ → ℕ → BusWidth → M D (Unit {0})
  fault_store = store_or w ExecStatus.mem_fault

  -- Jump to `target`, whose bit 0 goes to the Thumb bit.
  unfoldable pub branch_exchange : ℕ → RegisterFile → RegisterFile
  branch_exchange target r = set_pc (set_thumb r (test_bit target 0)) target

  -- BX and POP {PC}: in Handler mode an EXC_RETURN value is no address.
  unfoldable pub exchange_or_return : ℕ → M D ExecStatus
  unfolding branch_exchange
  exchange_or_return target s =
      if is_handler s.regs && is_exc_return target
      then exception_return w target s
      else (modify (branch_exchange target) >> return ExecStatus.ok) s

  -- A load of one register: the value goes through `extend` into Rt.
  unfoldable pub load_register : DecodedInstr → ℕ → BusWidth → (ℕ → ℕ) → M D ExecStatus
  load_register d addr width extend = do
    v ← fault_load addr width
    modify (λ r. write_reg r d.rt (extend v))
    return ExecStatus.ok

  unfoldable pub store_register : ℕ → ℕ → BusWidth → M D ExecStatus
  store_register addr value width = fault_store addr value width >> return ExecStatus.ok

  -- The store loop of PUSH and STM at register i, with `left` registers to go.
  unfoldable pub store_list : (RegisterFile → ℕ → ℕ) → ℕ → ℕ → ℕ → ℕ → M D (Unit {0})
  store_list source list zero i addr = return tt
  store_list source list (suc left) i addr =
      let skip = store_list source list left (i + 1) addr in
      let store = λ (s : Machine D).
        (fault_store addr (source s.regs i) BusWidth.word
            >> store_list source list left (i + 1) (add32 addr 4))
          s in
      if bit list i == 0 then skip else store

  -- The load loop of POP and LDM; the result is the address after the last word.
  unfoldable pub load_list : ℕ → ℕ → ℕ → ℕ → M D ℕ
  load_list list zero i addr = return addr
  load_list list (suc left) i addr =
      let skip = load_list list left (i + 1) addr in
      let load = λ (s : Machine D).
        (do
          v ← fault_load addr BusWidth.word
          modify (λ r. set_reg r i v)
          load_list list left (i + 1) (add32 addr 4))
          s in
      if bit list i == 0 then skip else load

  unfoldable pub exec_push : DecodedInstr → ℕ → M D ExecStatus
  unfolding store_list popcount16 read_reg
  exec_push d pc s =
      let n = popcount16 d.register_list in
      let base = sub32 (sp s.regs) (4 * n) in
      if n == 0
      then (done ExecStatus.undefined, s)
      else (do
        store_list (λ r i. read_reg r i pc) d.register_list 16 0 base
        modify (λ r. set_sp r base)
        return ExecStatus.ok)
          s

  unfoldable pub exec_pop : DecodedInstr → M D ExecStatus
  unfolding load_list popcount16 exchange_or_return
  exec_pop d s =
      let n = popcount16 d.register_list in
      let base = sp s.regs in
      let top = add32 base (4 * n) in
      if n == 0
      then (done ExecStatus.undefined, s)
      else (do
        addr ← load_list d.register_list 15 0 base
        if bit d.register_list 15 == 0
            then modify (λ r. set_sp r top) >> return ExecStatus.ok
            else do
              v ← fault_load addr BusWidth.word
              modify (λ r. set_sp r top)
              exchange_or_return v)
          s

  -- STM and LDM: r0 to r7 only, and writeback where the instruction has it.
  unfoldable pub exec_stm : DecodedInstr → ℕ → M D ExecStatus
  unfolding store_list popcount16 read_reg
  exec_stm d pc s =
      let n = popcount16 d.register_list in
      let base = read_reg s.regs d.rn pc in
      if n == 0
      then (done ExecStatus.undefined, s)
      else (do
        store_list get d.register_list 8 0 base
        modify (λ r. if d.wback then set_reg r d.rn (add32 base (4 * n)) else r)
        return ExecStatus.ok)
          s

  unfoldable pub exec_ldm : DecodedInstr → ℕ → M D ExecStatus
  unfolding load_list popcount16 read_reg
  exec_ldm d pc s =
      let n = popcount16 d.register_list in
      let base = read_reg s.regs d.rn pc in
      if n == 0
      then (done ExecStatus.undefined, s)
      else (do
        addr ← load_list d.register_list 8 0 base
        modify (λ r. if d.wback then set_reg r d.rn (add32 base (4 * n)) else r)
        return ExecStatus.ok)
          s

  unfoldable pub exec_load_store : DecodedInstr → ℕ → M D ExecStatus
  unfolding read_reg load_register store_register exec_push exec_pop exec_stm exec_ldm
  exec_load_store d pc s =
      let rn = read_reg s.regs d.rn pc in
      let rm = read_reg s.regs d.rm pc in
      let rt = read_reg s.regs d.rt pc in
      let by_reg = add32 rn rm in
      let by_imm = add32 rn d.imm in
      elim d.op [
        | Mnemonic.ldr_lit ↦
            load_register d (add32 (clear_low (add32 pc 4) 2) d.imm) BusWidth.word (λ v. v) s
        | Mnemonic.ldr_reg ↦ load_register d by_reg BusWidth.word (λ v. v) s
        | Mnemonic.ldr_imm ↦ load_register d by_imm BusWidth.word (λ v. v) s
        | Mnemonic.ldr_imm_sp ↦ load_register d by_imm BusWidth.word (λ v. v) s
        | Mnemonic.str_reg ↦ store_register by_reg rt BusWidth.word s
        | Mnemonic.str_imm ↦ store_register by_imm rt BusWidth.word s
        | Mnemonic.str_imm_sp ↦ store_register by_imm rt BusWidth.word s
        | Mnemonic.ldrh_reg ↦ load_register d by_reg BusWidth.half (λ v. v) s
        | Mnemonic.ldrh_imm ↦ load_register d by_imm BusWidth.half (λ v. v) s
        | Mnemonic.ldrsh_reg ↦ load_register d by_reg BusWidth.half sxt16 s
        | Mnemonic.strh_reg ↦ store_register by_reg (rt % 2 ^ 16) BusWidth.half s
        | Mnemonic.strh_imm ↦ store_register by_imm (rt % 2 ^ 16) BusWidth.half s
        | Mnemonic.ldrb_reg ↦ load_register d by_reg BusWidth.byte (λ v. v) s
        | Mnemonic.ldrb_imm ↦ load_register d by_imm BusWidth.byte (λ v. v) s
        | Mnemonic.ldrsb_reg ↦ load_register d by_reg BusWidth.byte sxt8 s
        | Mnemonic.strb_reg ↦ store_register by_reg (rt % 2 ^ 8) BusWidth.byte s
        | Mnemonic.strb_imm ↦ store_register by_imm (rt % 2 ^ 8) BusWidth.byte s
        | Mnemonic.push ↦ exec_push d pc s
        | Mnemonic.pop ↦ exec_pop d s
        | Mnemonic.stm ↦ exec_stm d pc s
        | Mnemonic.ldm ↦ exec_ldm d pc s
        | _ ↦ (done ExecStatus.unimplemented, s)
      ]

  unfoldable pub exec_branch : DecodedInstr → ℕ → M D ExecStatus
  unfolding read_reg exchange_or_return branch_exchange
  exec_branch d pc s =
      let target = add32 (add32 pc 4) d.branch_offset in
      let rm = read_reg s.regs d.rm pc in
      elim d.op [
        | Mnemonic.b ↦ (modify (λ r. set_pc r target) >> return ExecStatus.ok) s
        | Mnemonic.b_cond ↦
            (modify (λ r. if condition_holds r d.cond then set_pc r target else r)
                >> return ExecStatus.ok)
              s
        | Mnemonic.bl ↦
            (modify (λ r. set_pc (set_lr r (bit_or (add32 pc 4) 1)) target) >> return ExecStatus.ok)
              s
        | Mnemonic.bx ↦ exchange_or_return rm s
        | Mnemonic.blx_reg ↦
            (modify (λ r. branch_exchange rm (set_lr r (bit_or (add32 pc 2) 1)))
                >> return ExecStatus.ok)
              s
        | _ ↦ (done ExecStatus.undefined, s)
      ]
