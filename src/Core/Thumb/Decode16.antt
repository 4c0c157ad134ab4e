-- ===== src/Core/Thumb/Decode16.antt =====
-- `decode_thumb16` of core/thumb_decode.cpp, table by table.
use rp2040_simlator.Base.{
  ℕ, ◌*◌, ◌%◌, ◌^◌, true, not, ◌||◌, [], ◌∷◌, ltb, leb, ◌==◌, get_or, if◌then◌else◌, bit, bit_or,
  test_bit,
}
use rp2040_simlator.Core.Thumb.{
  Mnemonic, DecodedInstr, default_instr, bits, sign_extend, undef, table,
}

-- A5.2.1: shift (immediate), add, subtract, move, compare.
unfoldable pub decode_shift_addsub_movcmp : ℕ → DecodedInstr
decode_shift_addsub_movcmp instr =
    let d = record default_instr { raw = instr; setflags = true } in
    let low = record d { rd = bits instr 2 0; rm = bits instr 5 3; imm = bits instr 10 6 } in
    let three = record d { rd = bits instr 2 0; rn = bits instr 5 3 } in
    let code = bits instr 15 11 in
    if code == 0b00000
    then record low { op = if bits instr 10 6 == 0 then Mnemonic.mov_reg else Mnemonic.lsl_imm }
    else if code == 0b00001
    then record low { op = Mnemonic.lsr_imm }
    else if code == 0b00010
    then record low { op = Mnemonic.asr_imm }
    else if code == 0b00011
    then (if bits instr 10 9 == 0b00
        then record three { op = Mnemonic.add_reg; rm = bits instr 8 6 }
        else if bits instr 10 9 == 0b01
        then record three { op = Mnemonic.sub_reg; rm = bits instr 8 6 }
        else if bits instr 10 9 == 0b10
        then record three { op = Mnemonic.add_imm3; imm = bits instr 8 6 }
        else record three { op = Mnemonic.sub_imm3; imm = bits instr 8 6 })
    else if code == 0b00100
    then record d { op = Mnemonic.mov_imm; rd = bits instr 10 8; imm = bits instr 7 0 }
    else if code == 0b00101
    then record d { op = Mnemonic.cmp_imm; rn = bits instr 10 8; imm = bits instr 7 0 }
    else if code == 0b00110
    then record d {
      op = Mnemonic.add_imm8;
      rd = bits instr 10 8;
      rn = bits instr 10 8;
      imm = bits instr 7 0;
    }
    else record d {
      op = Mnemonic.sub_imm8;
      rd = bits instr 10 8;
      rn = bits instr 10 8;
      imm = bits instr 7 0;
    }

abbrev pub data_processing_op : ℕ → Mnemonic
data_processing_op = table (
    Mnemonic.and_reg ∷ Mnemonic.eor_reg ∷ Mnemonic.lsl_reg ∷ Mnemonic.lsr_reg ∷ Mnemonic.asr_reg
    ∷ Mnemonic.adc_reg ∷ Mnemonic.sbc_reg ∷ Mnemonic.ror_reg ∷ Mnemonic.tst_reg ∷ Mnemonic.rsb_imm
    ∷ Mnemonic.cmp_reg ∷ Mnemonic.cmn_reg ∷ Mnemonic.orr_reg ∷ Mnemonic.mul ∷ Mnemonic.bic_reg
    ∷ Mnemonic.mvn_reg ∷ [])

-- The register fields, which differ by operation.
unfoldable pub data_processing_fields : DecodedInstr → ℕ → ℕ → DecodedInstr
data_processing_fields d rdn rm = elim d.op [
  | Mnemonic.tst_reg ↦ record d { rm = rm; rn = rdn }
  | Mnemonic.cmp_reg ↦ record d { rm = rm; rn = rdn }
  | Mnemonic.cmn_reg ↦ record d { rm = rm; rn = rdn }
  | Mnemonic.rsb_imm ↦ record d { rd = rdn; rn = rm; rm = 0; imm = 0 }
  | Mnemonic.mul ↦ record d { rd = rdn; rn = rm; rm = rdn }
  | _ ↦ record d { rm = rm; rd = rdn; rn = rdn }
]

-- A5.2.2: data processing.
unfoldable pub decode_data_processing : ℕ → DecodedInstr
unfolding data_processing_fields
decode_data_processing instr =
    data_processing_fields
      (record default_instr {
        raw = instr;
        setflags = true;
        op = data_processing_op (bits instr 9 6);
      })
      (bits instr 2 0) (bits instr 5 3)

-- A5.2.3: special data instructions, branch and exchange.
unfoldable pub decode_special_data : ℕ → DecodedInstr
decode_special_data instr =
    let d = record default_instr { raw = instr } in
    let rm = bits instr 6 3 in
    let high = bit_or (bit instr 7 * 2 ^ 3) (bits instr 2 0) in
    let code = bits instr 9 8 in
    if code == 0b00
    then record d { op = Mnemonic.add_reg_hi; rd = high; rn = high; rm = rm }
    else if code == 0b01
    then record d { op = Mnemonic.cmp_reg_hi; rn = high; rm = rm; setflags = true }
    else if code == 0b10
    then record d { op = Mnemonic.mov_reg_hi; rd = high; rm = rm }
    else if not (bits instr 2 0 == 0)
    then undef instr 2
    else record d { op = if test_bit instr 7 then Mnemonic.blx_reg else Mnemonic.bx; rm = rm }

abbrev pub load_store_op : ℕ → Mnemonic
load_store_op = table (
    Mnemonic.str_reg ∷ Mnemonic.strh_reg ∷ Mnemonic.strb_reg ∷ Mnemonic.ldrsb_reg ∷ Mnemonic.ldr_reg
    ∷ Mnemonic.ldrh_reg ∷ Mnemonic.ldrb_reg ∷ Mnemonic.ldrsh_reg ∷ [])

-- A5.2.4: load or store of a single item.
unfoldable pub decode_load_store_single : ℕ → DecodedInstr
decode_load_store_single instr =
    let d = record default_instr { raw = instr; add = true } in
    let op_a = bits instr 15 12 in
    let is_load = test_bit instr 11 in
    let fields = record d { rn = bits instr 5 3; rt = bits instr 2 0 } in
    if op_a == 0b0101
    then record fields { op = load_store_op (bits instr 11 9); rm = bits instr 8 6 }
    else if op_a == 0b0110 || op_a == 0b0111
    then (if test_bit instr 12
        then record fields {
          op = if is_load then Mnemonic.ldrb_imm else Mnemonic.strb_imm;
          imm = bits instr 10 6;
        }
        else record fields {
          op = if is_load then Mnemonic.ldr_imm else Mnemonic.str_imm;
          imm = bits instr 10 6 * 2 ^ 2;
        })
    else if op_a == 0b1000
    then record fields {
      op = if is_load then Mnemonic.ldrh_imm else Mnemonic.strh_imm;
      imm = bits instr 10 6 * 2;
    }
    else record d {
      op = if is_load then Mnemonic.ldr_imm_sp else Mnemonic.str_imm_sp;
      rt = bits instr 10 8;
      rn = 13;
      imm = bits instr 7 0 * 2 ^ 2;
    }

abbrev pub extend_op : ℕ → Mnemonic
extend_op = table (Mnemonic.sxth ∷ Mnemonic.sxtb ∷ Mnemonic.uxth ∷ Mnemonic.uxtb ∷ [])

-- The hints; other encodings of the row execute as NOP.
abbrev pub hint_op : ℕ → Mnemonic
hint_op = λ i.
    get_or (Mnemonic.nop ∷ Mnemonic.yield ∷ Mnemonic.wfe ∷ Mnemonic.wfi ∷ Mnemonic.sev ∷ []) i
      Mnemonic.nop

-- A5.2.5: miscellaneous.
unfoldable pub decode_misc16 : ℕ → DecodedInstr
decode_misc16 instr =
    let d = record default_instr { raw = instr } in
    let code = bits instr 11 8 in
    let pair = record d { rm = bits instr 5 3; rd = bits instr 2 0 } in
    let rev_op = bits instr 7 6 in
    if code == 0b0000
    then record d {
      imm = bits instr 6 0 * 2 ^ 2;
      rd = 13;
      rn = 13;
      op = if bit instr 7 == 0 then Mnemonic.add_sp_sp_imm else Mnemonic.sub_sp_imm;
      add = bit instr 7 == 0;
    }
    else if code == 0b0010
    then record pair { op = extend_op (bits instr 7 6) }
    else if code == 0b0100 || code == 0b0101
    then record d {
      op = Mnemonic.push;
      register_list = bit_or (bit instr 8 * 2 ^ 14) (instr % 0x100);
    }
    else if code == 0b0110
    then (if not (bits instr 7 5 == 0b011)
        then undef instr 2
        else record d { op = Mnemonic.cps; imm = bit instr 4 })
    else if code == 0b1010
    then (if rev_op == 0b00
        then record pair { op = Mnemonic.rev }
        else if rev_op == 0b01
        then record pair { op = Mnemonic.rev16 }
        else if rev_op == 0b11
        then record pair { op = Mnemonic.revsh }
        else undef instr 2)
    else if code == 0b1100 || code == 0b1101
    then record d {
      op = Mnemonic.pop;
      register_list = bit_or (bit instr 8 * 2 ^ 15) (instr % 0x100);
    }
    else if code == 0b1110
    then record d { op = Mnemonic.bkpt; imm = bits instr 7 0 }
    else if code == 0b1111
    then (if not (bits instr 3 0 == 0)
        then undef instr 2
        else record d { op = hint_op (bits instr 7 4) })
    else undef instr 2

-- A5.2.6: conditional branch and supervisor call.
unfoldable pub decode_cond_branch : ℕ → DecodedInstr
decode_cond_branch instr =
    let d = record default_instr { raw = instr } in
    let cond = bits instr 11 8 in
    if cond == 0b1110
    then record d { op = Mnemonic.udf; imm = bits instr 7 0 }
    else if cond == 0b1111
    then record d { op = Mnemonic.svc; imm = bits instr 7 0 }
    else record d {
      op = Mnemonic.b_cond;
      cond = cond;
      branch_offset = sign_extend (instr % 0x100 * 2) 9;
    }

-- The tables that `decode_thumb16` reads itself: LDR (literal), ADR and ADD (SP plus immediate),
-- STM and LDM, B.

unfoldable pub decode_ldr_literal : ℕ → DecodedInstr
decode_ldr_literal instr = record default_instr {
  raw = instr;
  op = Mnemonic.ldr_lit;
  rt = bits instr 10 8;
  rn = 15;
  imm = instr % 0x100 * 2 ^ 2;
  add = true;
}

unfoldable pub decode_address : ℕ → DecodedInstr
decode_address instr =
    let d = record default_instr {
      raw = instr;
      rd = bits instr 10 8;
      imm = instr % 0x100 * 2 ^ 2;
    } in
    if bit instr 11 == 0
    then record d { op = Mnemonic.adr; rn = 15 }
    else record d { op = Mnemonic.add_sp_imm; rn = 13; add = true }

unfoldable pub decode_multiple : ℕ → DecodedInstr
decode_multiple instr =
    let is_load = test_bit instr 11 in
    let rn = bits instr 10 8 in
    record default_instr {
      raw = instr;
      op = if is_load then Mnemonic.ldm else Mnemonic.stm;
      rn = rn;
      register_list = instr % 0x100;
      wback = if is_load then bit (instr % 0x100) rn == 0 else true;
    }

unfoldable pub decode_thumb16 : ℕ → DecodedInstr
decode_thumb16 instr =
    let top6 = bits instr 15 10 in
    let top4 = bits instr 15 12 in
    if ltb top6 0b010000
    then decode_shift_addsub_movcmp instr
    else if top6 == 0b010000
    then decode_data_processing instr
    else if top6 == 0b010001
    then decode_special_data instr
    else if leb top6 0b010011
    then decode_ldr_literal instr
    else if top4 == 0b0101
        || (top4 == 0b0110 || (top4 == 0b0111 || (top4 == 0b1000 || top4 == 0b1001)))
    then decode_load_store_single instr
    else if top4 == 0b1010
    then decode_address instr
    else if top4 == 0b1011
    then decode_misc16 instr
    else if top4 == 0b1100
    then decode_multiple instr
    else if top4 == 0b1101
    then decode_cond_branch instr
    else if bits instr 15 11 == 0b11100
    then record default_instr {
      raw = instr;
      op = Mnemonic.b;
      branch_offset = sign_extend (instr % 0x800 * 2) 12;
    }
    else undef instr 2
