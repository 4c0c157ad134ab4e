-- ===== src/Core/Timing.antt =====
-- The cycle counts of core/timing.cpp.
use rp2040_simlator.Base.{ℕ, ◌+◌, Bool, ◌==◌, if◌then◌else◌, test_bit}
use rp2040_simlator.Core.Thumb.{Mnemonic, DecodedInstr}

unfoldable pub instruction_cycles : DecodedInstr → Bool → ℕ → ℕ
instruction_cycles d took_branch reg_count = elim d.op [
  | Mnemonic.ldr_lit ↦ 2
  | Mnemonic.ldr_reg ↦ 2
  | Mnemonic.ldr_imm ↦ 2
  | Mnemonic.ldr_imm_sp ↦ 2
  | Mnemonic.ldrb_reg ↦ 2
  | Mnemonic.ldrb_imm ↦ 2
  | Mnemonic.ldrh_reg ↦ 2
  | Mnemonic.ldrh_imm ↦ 2
  | Mnemonic.ldrsb_reg ↦ 2
  | Mnemonic.ldrsh_reg ↦ 2
  | Mnemonic.str_reg ↦ 2
  | Mnemonic.str_imm ↦ 2
  | Mnemonic.str_imm_sp ↦ 2
  | Mnemonic.strb_reg ↦ 2
  | Mnemonic.strb_imm ↦ 2
  | Mnemonic.strh_reg ↦ 2
  | Mnemonic.strh_imm ↦ 2
  | Mnemonic.ldm ↦ 1 + reg_count
  | Mnemonic.stm ↦ 1 + reg_count
  | Mnemonic.push ↦ 1 + reg_count
  | Mnemonic.pop ↦ (if test_bit d.register_list 15 then 4 else 1) + reg_count
  | Mnemonic.b ↦ 3
  | Mnemonic.b_cond ↦ if took_branch then 3 else 1
  | Mnemonic.bl ↦ 4
  | Mnemonic.bx ↦ 3
  | Mnemonic.blx_reg ↦ 3
  | Mnemonic.add_reg_hi ↦ if d.rd == 15 then 3 else 1
  | Mnemonic.mov_reg_hi ↦ if d.rd == 15 then 3 else 1
  | Mnemonic.mrs ↦ 4
  | Mnemonic.msr ↦ 4
  | Mnemonic.dsb ↦ 3
  | Mnemonic.dmb ↦ 3
  | Mnemonic.isb ↦ 3
  | Mnemonic.wfi ↦ 2
  | Mnemonic.wfe ↦ 2
  | Mnemonic.mul ↦ 1
  | _ ↦ 1
]
