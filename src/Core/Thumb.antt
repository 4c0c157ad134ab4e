-- ===== src/Core/Thumb.antt =====
-- The Thumb instruction set: mnemonics and the decoded form, include/thumb_isa.h, and the bit
-- helpers of core/thumb_decode.cpp.
pub mod Decode16
pub mod Decode32
pub mod Fields
pub mod Encode
use rp2040_simlator.Base.{
  ℕ, ◌+◌, ◌-◌, ◌*◌, ◌/◌, ◌%◌, ◌^◌, Bool, true, false, ◌||◌, List, get_or, ◌==◌, if◌then◌else◌, u32,
  bit_xor,
}

pub data Mnemonic : Type 0 where
  undefined unpredictable : Mnemonic
  lsl_imm lsr_imm asr_imm add_reg sub_reg add_imm3 sub_imm3 : Mnemonic
  mov_imm cmp_imm add_imm8 sub_imm8 : Mnemonic
  and_reg eor_reg lsl_reg lsr_reg asr_reg adc_reg sbc_reg ror_reg : Mnemonic
  tst_reg rsb_imm cmp_reg cmn_reg orr_reg mul bic_reg mvn_reg : Mnemonic
  mov_reg add_reg_hi cmp_reg_hi mov_reg_hi bx blx_reg : Mnemonic
  ldr_lit str_reg strh_reg strb_reg ldrsb_reg ldr_reg ldrh_reg ldrb_reg ldrsh_reg : Mnemonic
  str_imm ldr_imm strb_imm ldrb_imm strh_imm ldrh_imm str_imm_sp ldr_imm_sp : Mnemonic
  adr add_sp_imm add_sp_sp_imm sub_sp_imm : Mnemonic
  sxth sxtb uxth uxtb push pop rev rev16 revsh cps bkpt : Mnemonic
  nop yield wfe wfi sev stm ldm : Mnemonic
  b_cond svc udf b : Mnemonic
  bl msr mrs dsb dmb isb : Mnemonic

-- `branch_offset` is an int32_t, kept as its bit pattern: its one reader casts it to uint32_t.
pub record DecodedInstr : Type 0 where
  pub op : Mnemonic
  pub length : ℕ
  pub rd : ℕ
  pub rn : ℕ
  pub rm : ℕ
  pub rt : ℕ
  pub imm : ℕ
  pub branch_offset : ℕ
  pub cond : ℕ
  pub register_list : ℕ
  pub setflags : Bool
  pub add : Bool
  pub wback : Bool
  pub raw : ℕ

-- The default member initialisers.
abbrev pub default_instr : DecodedInstr
default_instr = record {
  op = Mnemonic.undefined;
  length = 2;
  rd = 0;
  rn = 0;
  rm = 0;
  rt = 0;
  imm = 0;
  branch_offset = 0;
  cond = 0xE;
  register_list = 0;
  setflags = false;
  add = true;
  wback = false;
  raw = 0;
}

-- Bits [hi:lo].
abbrev pub bits : ℕ → ℕ → ℕ → ℕ
bits v hi lo = v / 2 ^ lo % 2 ^ (hi - lo + 1)

-- `(v ^ m) - m` for the sign bit m, as a 32-bit pattern.
abbrev pub sign_extend : ℕ → ℕ → ℕ
sign_extend v width = let m = 2 ^ (width - 1) in u32 (bit_xor v m + 2 ^ 32 - m)

abbrev pub undef : ℕ → ℕ → DecodedInstr
undef raw len = record default_instr { op = Mnemonic.undefined; length = len; raw = raw }

unfoldable pub is_32bit_thumb : ℕ → Bool
is_32bit_thumb hw1 =
    let top5 = hw1 / 2 ^ 11 in top5 == 0b11101 || (top5 == 0b11110 || top5 == 0b11111)

-- An entry of a `kOps` table.
abbrev pub table : List Mnemonic → ℕ → Mnemonic
table ops i = get_or ops i Mnemonic.undefined
