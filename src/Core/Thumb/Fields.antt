-- ===== src/Core/Thumb/Fields.antt =====
-- The fields of every decoded instruction are in range, whatever the halfword.
use rp2040_simlator.Base.{ℕ, ◌*◌, ◌%◌, ◌^◌, ◌≤◌, ◌<◌, ◌≡◌, true, arith, bit}
use rp2040_simlator.Base.Bits.{bit_or-lt}
use rp2040_simlator.Core.Thumb.{DecodedInstr, default_instr, bits}
use rp2040_simlator.Core.Thumb.Decode16.{
  decode_shift_addsub_movcmp, data_processing_op, data_processing_fields, decode_data_processing,
  decode_special_data, decode_load_store_single, decode_misc16, decode_cond_branch,
  decode_ldr_literal, decode_address, decode_multiple, decode_thumb16,
}

-- Register numbers below 16, as `RegisterFile` asserts; an immediate of at most eight scaled bits;
-- a 16-bit register list; a condition that denotes one.
pub record InRange (d : DecodedInstr) : Type 0 where
  pub two_bytes : d.length ≡ 2
  pub rd_register : d.rd < 16
  pub rn_register : d.rn < 16
  pub rm_register : d.rm < 16
  pub rt_register : d.rt < 16
  pub imm_bound : d.imm ≤ 1020
  pub offset_word : d.branch_offset < 2 ^ 32
  pub cond_named : d.cond < 15
  pub list_halfword : d.register_list < 2 ^ 16

module _ (instr : ℕ) where
  shift_addsub_movcmp-InRange : InRange (decode_shift_addsub_movcmp instr)
  unfolding decode_shift_addsub_movcmp
  shift_addsub_movcmp-InRange = ground arith

  data_processing_fields-InRange :
      (d : DecodedInstr) (rdn rm : ℕ)
      → InRange d
      → rdn < 16
      → rm < 16
      → InRange (data_processing_fields d rdn rm)
  unfolding data_processing_fields
  data_processing_fields-InRange d rdn rm h a b = ground arith

  data_processing-InRange : InRange (decode_data_processing instr)
  unfolding decode_data_processing
  data_processing-InRange =
      data_processing_fields-InRange
        (record default_instr {
          raw = instr;
          setflags = true;
          op = data_processing_op (bits instr 9 6);
        })
        (bits instr 2 0) (bits instr 5 3) (ground arith) (omega arith) (omega arith)

  special_data-InRange : InRange (decode_special_data instr)
  unfolding decode_special_data
  special_data-InRange = ground (arith, bit_or-lt 4 (bit instr 7 * 2 ^ 3) (bits instr 2 0))

  load_store_single-InRange : InRange (decode_load_store_single instr)
  unfolding decode_load_store_single
  load_store_single-InRange = ground arith

  misc16-InRange : InRange (decode_misc16 instr)
  unfolding decode_misc16
  misc16-InRange = ground (
    arith,
    bit_or-lt 16 (bit instr 8 * 2 ^ 14) (instr % 0x100),
    bit_or-lt 16 (bit instr 8 * 2 ^ 15) (instr % 0x100),
  )

  cond_branch-InRange : InRange (decode_cond_branch instr)
  unfolding decode_cond_branch
  cond_branch-InRange = ground arith

  address-InRange : InRange (decode_address instr)
  unfolding decode_address
  address-InRange = ground arith

  multiple-InRange : InRange (decode_multiple instr)
  unfolding decode_multiple
  multiple-InRange = ground arith

  literal-InRange : InRange (decode_ldr_literal instr)
  unfolding decode_ldr_literal
  literal-InRange = ground arith

  -- Every halfword decodes to an instruction of two bytes whose register numbers, immediate,
  -- condition and register list are in range.
  pub decode_thumb16-InRange : InRange (decode_thumb16 instr)
  unfolding decode_thumb16
  decode_thumb16-InRange = ground (
    arith, shift_addsub_movcmp-InRange, data_processing-InRange, special_data-InRange,
    literal-InRange, load_store_single-InRange, address-InRange, misc16-InRange, multiple-InRange,
    cond_branch-InRange,
  )
