-- ===== src/Core/Thumb/Encode.antt =====
-- Branches decode to the offset that the encoding of the architecture stands for. The encoders
-- are the reference: they build the halfwords field by field from a displacement.
use rp2040_simlator.Base.{
  ℕ, zero, suc, ◌+◌, ◌-◌, ◌*◌, ◌/◌, ◌%◌, ◌^◌, ◌<◌, ◌≡◌, refl, true, arith, ltb, ◌==◌, if◌then◌else◌,
  bit, bit_or, bit_xor,
}
use rp2040_simlator.Base.Bits.{bit_or-fields, bit_xor-pow}
use rp2040_simlator.Core.Thumb.{Mnemonic, default_instr, bits, sign_extend, is_32bit_thumb}
use rp2040_simlator.Core.Thumb.Decode16.{decode_cond_branch, decode_thumb16}
use rp2040_simlator.Core.Thumb.Decode32.{decode_thumb32, bl_imm}

-- A displacement of `width` bits, as two's complement, widened to 32 bits.
abbrev pub widened : ℕ → ℕ → ℕ
widened width u = if ltb u (2 ^ (width - 1)) then u else u + 2 ^ 32 - 2 ^ width

sign_extend_9 : (u : ℕ) → u < 2 ^ 9 → sign_extend u 9 ≡ widened 9 u
sign_extend_9 u h = ground (arith, bit_xor-pow u 8)

sign_extend_12 : (u : ℕ) → u < 2 ^ 12 → sign_extend u 12 ≡ widened 12 u
sign_extend_12 u h = ground (arith, bit_xor-pow u 11)

sign_extend_25 : (u : ℕ) → u < 2 ^ 25 → sign_extend u 25 ≡ widened 25 u
sign_extend_25 u h = ground (arith, bit_xor-pow u 24)

-- B<cond> (T1), B (T2) and the two halfwords of BL (T1), from an even displacement.
pub encode_b_cond : ℕ → ℕ → ℕ
encode_b_cond cond u = 0b1101 * 2 ^ 12 + cond * 2 ^ 8 + u / 2

pub encode_b : ℕ → ℕ
encode_b u = 0b11100 * 2 ^ 11 + u / 2

pub encode_bl_1 : ℕ → ℕ
encode_bl_1 u = 0b11110 * 2 ^ 11 + bit u 24 * 2 ^ 10 + bits u 21 12

-- J1 and J2 are the complements of I1 ^ S and I2 ^ S.
pub encode_bl_2 : ℕ → ℕ
encode_bl_2 u =
    0b11 * 2 ^ 14
    + (if bit u 23 == bit u 24 then 1 else 0) * 2 ^ 13
    + 2 ^ 12
    + (if bit u 22 == bit u 24 then 1 else 0) * 2 ^ 11
    + bits u 11 1

decode-encode_b_cond :
    (cond u : ℕ)
    → cond < 14
    → u < 2 ^ 9
    → u % 2 ≡ 0
    → decode_thumb16 (encode_b_cond cond u) ≡ record default_instr {
      raw = encode_b_cond cond u;
      op = Mnemonic.b_cond;
      cond = cond;
      branch_offset = widened 9 u;
    }
unfolding decode_thumb16 decode_cond_branch encode_b_cond
decode-encode_b_cond cond u hc hu even = ground (arith, sign_extend_9 u hu)

decode-encode_b :
    (u : ℕ)
    → u < 2 ^ 12
    → u % 2 ≡ 0
    → decode_thumb16 (encode_b u)
      ≡ record default_instr { raw = encode_b u; op = Mnemonic.b; branch_offset = widened 12 u }
unfolding decode_thumb16 encode_b
decode-encode_b u hu even = ground (arith, sign_extend_12 u hu)

fields_bl :
    (s i1 i2 a b : ℕ)
    → i1 < 2
    → i2 < 2
    → a < 2 ^ 10
    → b < 2 ^ 11
    → bit_or
        (s * 2 ^ 24)
        (bit_or (i1 * 2 ^ 23) (bit_or (i2 * 2 ^ 22) (bit_or (a * 2 ^ 12) (b * 2))))
      ≡ s * 2 ^ 24 + i1 * 2 ^ 23 + i2 * 2 ^ 22 + a * 2 ^ 12 + b * 2
fields_bl s i1 i2 a b h1 h2 ha hb = ground (
  arith,
  bit_or-fields 12 a (b * 2),
  bit_or-fields 22 i2 (a * 2 ^ 12 + b * 2),
  bit_or-fields 23 i1 (i2 * 2 ^ 22 + (a * 2 ^ 12 + b * 2)),
  bit_or-fields 24 s (i1 * 2 ^ 23 + (i2 * 2 ^ 22 + (a * 2 ^ 12 + b * 2))),
)

-- I from J and S, and J from I and S, are inverse.
recovered : (i s : ℕ) → i < 2 → s < 2 → bit_xor (bit_xor (if i == s then 1 else 0) s) 1 ≡ i
recovered zero zero h g = refl
recovered zero (suc zero) h g = refl
recovered (suc zero) zero h g = refl
recovered (suc zero) (suc zero) h g = refl
recovered zero (suc (suc s)) h g = absurd (omega arith)
recovered (suc zero) (suc (suc s)) h g = absurd (omega arith)
recovered (suc (suc i)) s h g = absurd (omega arith)

-- What the decoder tests, and the fields that it extracts.
encode_bl_header :
    (u : ℕ)
    → (bits (encode_bl_1 u) 15 11 ≡ 0b11110)
      × (encode_bl_1 u / 2 ^ 11 ≡ 0b11110)
      × (bits (encode_bl_2 u) 15 14 ≡ 0b11)
      × (bit (encode_bl_2 u) 12 ≡ 1)
unfolding encode_bl_1 encode_bl_2
encode_bl_header u = ground arith

encode_bl_fields :
    (u : ℕ)
    → (bit (encode_bl_1 u) 10 ≡ bit u 24)
      × (encode_bl_1 u % 0x400 ≡ bits u 21 12)
      × (bit (encode_bl_2 u) 13 ≡ (if bit u 23 == bit u 24 then 1 else 0))
      × (bit (encode_bl_2 u) 11 ≡ (if bit u 22 == bit u 24 then 1 else 0))
      × (encode_bl_2 u % 0x800 ≡ bits u 11 1)
unfolding encode_bl_1 encode_bl_2
encode_bl_fields u = ground arith

bl_imm-encode_bl : (u : ℕ) → u < 2 ^ 25 → u % 2 ≡ 0 → bl_imm (encode_bl_1 u) (encode_bl_2 u) ≡ u
unfolding bl_imm
bl_imm-encode_bl u h even = ground (
  arith,
  encode_bl_fields u,
  recovered (bit u 23) (bit u 24) (omega arith) (omega arith),
  recovered (bit u 22) (bit u 24) (omega arith) (omega arith),
  fields_bl (bit u 24) (bit u 23) (bit u 22) (bits u 21 12) (bits u 11 1) (omega arith)
      (omega arith) (omega arith) (omega arith),
)

decode-encode_bl :
    (u : ℕ)
    → u < 2 ^ 25
    → u % 2 ≡ 0
    → (is_32bit_thumb (encode_bl_1 u) ≡ true)
      × (decode_thumb32 (encode_bl_1 u) (encode_bl_2 u) ≡ record default_instr {
        raw = bit_or (encode_bl_1 u * 2 ^ 16) (encode_bl_2 u);
        length = 4;
        op = Mnemonic.bl;
        branch_offset = widened 25 u;
      })
unfolding is_32bit_thumb decode_thumb32
decode-encode_bl u h even = (
  ground (arith, encode_bl_header u),
  ground (arith, encode_bl_header u, bl_imm-encode_bl u h even, sign_extend_25 u h),
)

-- Every branch decodes to its displacement, sign extended: B<cond> with its condition and 9 bits,
-- B with 12 bits, and BL, which is a 32-bit encoding, with 25 bits. The conditions on each are that
-- the displacement is even and has that width, and that the condition is below 14.
pub decode-encode_branches :
    (cond u v w : ℕ)
    → cond < 14
    → (u < 2 ^ 9) × (u % 2 ≡ 0)
    → (v < 2 ^ 12) × (v % 2 ≡ 0)
    → (w < 2 ^ 25) × (w % 2 ≡ 0)
    → (decode_thumb16 (encode_b_cond cond u) ≡ record default_instr {
      raw = encode_b_cond cond u;
      op = Mnemonic.b_cond;
      cond = cond;
      branch_offset = widened 9 u;
    })
      × (decode_thumb16 (encode_b v) ≡ record default_instr {
        raw = encode_b v;
        op = Mnemonic.b;
        branch_offset = widened 12 v;
      })
      × (is_32bit_thumb (encode_bl_1 w) ≡ true)
      × (decode_thumb32 (encode_bl_1 w) (encode_bl_2 w) ≡ record default_instr {
        raw = bit_or (encode_bl_1 w * 2 ^ 16) (encode_bl_2 w);
        length = 4;
        op = Mnemonic.bl;
        branch_offset = widened 25 w;
      })
decode-encode_branches cond u v w hc (hu, u_even) (hv, v_even) (hw, w_even) =
    let (wide, decoded) = decode-encode_bl w hw w_even in
    (decode-encode_b_cond cond u hc hu u_even, decode-encode_b v hv v_even, wide, decoded)
