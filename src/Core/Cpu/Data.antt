-- ===== src/Core/Cpu/Data.antt =====
-- `exec_data` of core/cpu.cpp: data processing, which changes registers alone.
use rp2040_simlator.Base.{
  ℕ, ◌+◌, ◌-◌, ◌*◌, ◌/◌, ◌%◌, ◌^◌, true, false, ltb, ◌==◌, if◌then◌else◌, u32, add32, sub32, not32,
  test_bit, clear_low, bit_and, bit_or, bit_xor, and_not,
}
use rp2040_simlator.Core.Registers.{RegisterFile, sp, set_sp, set_nz_from}
use rp2040_simlator.Core.Alu.{AddResult, ShiftResult, SrType, add_with_carry, shift_c}
use rp2040_simlator.Core.Alu.Compare.{set_nzcv}
use rp2040_simlator.Core.Thumb.{Mnemonic, DecodedInstr}
use rp2040_simlator.Core.Cpu.{ExecStatus}
use rp2040_simlator.Core.Cpu.Machine.{read_reg, write_reg}

abbrev pub sxt8 : ℕ → ℕ
sxt8 v = let b = v % 2 ^ 8 in if ltb b 0x80 then b else b + 2 ^ 32 - 2 ^ 8

abbrev pub sxt16 : ℕ → ℕ
sxt16 v = let h = v % 2 ^ 16 in if ltb h 0x8000 then h else h + 2 ^ 32 - 2 ^ 16

unfoldable pub rev : ℕ → ℕ
rev v =
    bit_or (u32 (v * 2 ^ 24))
      (bit_or (bit_and v 0xFF00 * 2 ^ 8) (bit_or (bit_and (v / 2 ^ 8) 0xFF00) (v / 2 ^ 24)))

unfoldable pub rev16 : ℕ → ℕ
rev16 v = bit_or (bit_and v 0x00FF_00FF * 2 ^ 8) (bit_and (v / 2 ^ 8) 0x00FF_00FF)

unfoldable pub revsh : ℕ → ℕ
revsh v = sxt16 (bit_or (v % 2 ^ 8 * 2 ^ 8) (v / 2 ^ 8 % 2 ^ 8))

-- Results with flags: `write_reg` and then the flags, if the instruction sets them.

unfoldable pub put_sum : DecodedInstr → RegisterFile → AddResult → ExecStatus × RegisterFile
put_sum d r a =
    let r' = write_reg r d.rd a.value in (ExecStatus.ok, if d.setflags then set_nzcv r' a else r')

unfoldable pub put_shift : DecodedInstr → RegisterFile → ShiftResult → ExecStatus × RegisterFile
put_shift d r s =
    let r' = write_reg r d.rd s.value in
    (ExecStatus.ok, if d.setflags then record (set_nz_from r' s.value) { c = s.carry } else r')

unfoldable pub put_logic : DecodedInstr → RegisterFile → ℕ → ExecStatus × RegisterFile
put_logic d r v =
    let r' = write_reg r d.rd v in (ExecStatus.ok, if d.setflags then set_nz_from r' v else r')

unfoldable pub put_plain : DecodedInstr → RegisterFile → ℕ → ExecStatus × RegisterFile
put_plain d r v = (ExecStatus.ok, write_reg r d.rd v)

-- DecodeImmShift: an immediate of 0 means 32, but for LSL.
abbrev pub imm_amount : SrType → ℕ → ℕ
imm_amount SrType.lsl imm = imm
imm_amount _ imm = if imm == 0 then 32 else imm

unfoldable pub exec_data : DecodedInstr → ℕ → RegisterFile → ExecStatus × RegisterFile
unfolding put_sum put_shift put_logic put_plain read_reg write_reg set_nzcv rev rev16 revsh
exec_data d pc r =
    let rn = read_reg r d.rn pc in
    let rm = read_reg r d.rm pc in
    let cin = r.c in
    elim d.op [
      | Mnemonic.mov_imm ↦
          let r' = write_reg r d.rd d.imm in
          (
            ExecStatus.ok,
            if d.setflags then record r' { n = test_bit d.imm 31; z = d.imm == 0 } else r',
          )
      | Mnemonic.mov_reg ↦ put_logic d r rm
      | Mnemonic.mov_reg_hi ↦ put_plain d r rm
      | Mnemonic.lsl_imm ↦ put_shift d r (shift_c rm SrType.lsl (imm_amount SrType.lsl d.imm) cin)
      | Mnemonic.lsr_imm ↦ put_shift d r (shift_c rm SrType.lsr (imm_amount SrType.lsr d.imm) cin)
      | Mnemonic.asr_imm ↦ put_shift d r (shift_c rm SrType.asr (imm_amount SrType.asr d.imm) cin)
      | Mnemonic.lsl_reg ↦ put_shift d r (shift_c rn SrType.lsl (rm % 2 ^ 8) cin)
      | Mnemonic.lsr_reg ↦ put_shift d r (shift_c rn SrType.lsr (rm % 2 ^ 8) cin)
      | Mnemonic.asr_reg ↦ put_shift d r (shift_c rn SrType.asr (rm % 2 ^ 8) cin)
      | Mnemonic.ror_reg ↦ put_shift d r (shift_c rn SrType.ror (rm % 2 ^ 8) cin)
      | Mnemonic.add_reg ↦ put_sum d r (add_with_carry rn rm false)
      | Mnemonic.add_imm3 ↦ put_sum d r (add_with_carry rn d.imm false)
      | Mnemonic.add_imm8 ↦ put_sum d r (add_with_carry rn d.imm false)
      | Mnemonic.sub_reg ↦ put_sum d r (add_with_carry rn (not32 rm) true)
      | Mnemonic.sub_imm3 ↦ put_sum d r (add_with_carry rn (not32 d.imm) true)
      | Mnemonic.sub_imm8 ↦ put_sum d r (add_with_carry rn (not32 d.imm) true)
      | Mnemonic.adc_reg ↦ put_sum d r (add_with_carry rn rm cin)
      | Mnemonic.sbc_reg ↦ put_sum d r (add_with_carry rn (not32 rm) cin)
      | Mnemonic.rsb_imm ↦ put_sum d r (add_with_carry (not32 rn) 0 true)
      | Mnemonic.add_reg_hi ↦ put_plain d r (add32 rn rm)
      | Mnemonic.cmp_imm ↦ (ExecStatus.ok, set_nzcv r (add_with_carry rn (not32 d.imm) true))
      | Mnemonic.cmp_reg ↦ (ExecStatus.ok, set_nzcv r (add_with_carry rn (not32 rm) true))
      | Mnemonic.cmp_reg_hi ↦ (ExecStatus.ok, set_nzcv r (add_with_carry rn (not32 rm) true))
      | Mnemonic.cmn_reg ↦ (ExecStatus.ok, set_nzcv r (add_with_carry rn rm false))
      | Mnemonic.and_reg ↦ put_logic d r (bit_and rn rm)
      | Mnemonic.eor_reg ↦ put_logic d r (bit_xor rn rm)
      | Mnemonic.orr_reg ↦ put_logic d r (bit_or rn rm)
      | Mnemonic.bic_reg ↦ put_logic d r (and_not rn rm)
      | Mnemonic.mvn_reg ↦ put_logic d r (not32 rm)
      | Mnemonic.tst_reg ↦ (ExecStatus.ok, set_nz_from r (bit_and rn rm))
      | Mnemonic.mul ↦ put_logic d r (u32 (rn * rm))
      | Mnemonic.adr ↦ put_plain d r (add32 (clear_low (add32 pc 4) 2) d.imm)
      | Mnemonic.add_sp_imm ↦ put_plain d r (add32 (sp r) d.imm)
      | Mnemonic.add_sp_sp_imm ↦ (ExecStatus.ok, set_sp r (add32 (sp r) d.imm))
      | Mnemonic.sub_sp_imm ↦ (ExecStatus.ok, set_sp r (sub32 (sp r) d.imm))
      | Mnemonic.sxtb ↦ put_plain d r (sxt8 rm)
      | Mnemonic.sxth ↦ put_plain d r (sxt16 rm)
      | Mnemonic.uxtb ↦ put_plain d r (rm % 2 ^ 8)
      | Mnemonic.uxth ↦ put_plain d r (rm % 2 ^ 16)
      | Mnemonic.rev ↦ put_plain d r (rev rm)
      | Mnemonic.rev16 ↦ put_plain d r (rev16 rm)
      | Mnemonic.revsh ↦ put_plain d r (revsh rm)
      | _ ↦ (ExecStatus.unimplemented, r)
    ]
