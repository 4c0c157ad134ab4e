-- ===== src/Core/Thumb/Decode32.antt =====
-- `decode_thumb32` of core/thumb_decode.cpp.
use rp2040_simlator.Base.{
  ℕ, ◌*◌, ◌%◌, ◌^◌, ◌&&◌, ◌==◌, if◌then◌else◌, bit, bit_or, bit_xor, test_bit,
}
use rp2040_simlator.Core.Thumb.{Mnemonic, DecodedInstr, default_instr, bits, sign_extend, undef}

-- The 25-bit offset of BL: S, I1, I2, imm10, imm11 and a zero, with I = (J ^ S) ^ 1.
unfoldable pub bl_imm : ℕ → ℕ → ℕ
bl_imm hw1 hw2 =
    let s = bit hw1 10 in
    let imm10 = hw1 % 0x400 in
    let j1 = bit hw2 13 in
    let j2 = bit hw2 11 in
    let imm11 = hw2 % 0x800 in
    let i1 = bit_xor (bit_xor j1 s) 1 in
    let i2 = bit_xor (bit_xor j2 s) 1 in
    bit_or (s * 2 ^ 24)
      (bit_or (i1 * 2 ^ 23) (bit_or (i2 * 2 ^ 22) (bit_or (imm10 * 2 ^ 12) (imm11 * 2))))

unfoldable pub decode_thumb32 : ℕ → ℕ → DecodedInstr
unfolding bl_imm
decode_thumb32 hw1 hw2 =
    let raw = bit_or (hw1 * 2 ^ 16) hw2 in
    let d = record default_instr { raw = raw; length = 4 } in
    let barrier = record d { imm = bits hw2 3 0 } in
    if bits hw1 15 11 == 0b11110 && (bits hw2 15 14 == 0b11 && bit hw2 12 == 1)
    then record d { op = Mnemonic.bl; branch_offset = sign_extend (bl_imm hw1 hw2) 25 }
    else if hw1 == 0xF3BF && bits hw2 15 8 == 0x8F
    then (if bits hw2 7 4 == 0x4
        then record barrier { op = Mnemonic.dsb }
        else if bits hw2 7 4 == 0x5
        then record barrier { op = Mnemonic.dmb }
        else if bits hw2 7 4 == 0x6
        then record barrier { op = Mnemonic.isb }
        else undef raw 4)
    else if hw1 == 0xF3EF && test_bit hw2 15
    then record d { op = Mnemonic.mrs; rd = bits hw2 11 8; imm = bits hw2 7 0 }
    else if bits hw1 15 4 == 0xF38 && bits hw2 15 8 == 0x88
    then record d { op = Mnemonic.msr; rn = bits hw1 3 0; imm = bits hw2 7 0 }
    else undef raw 4
