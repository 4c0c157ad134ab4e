-- ===== src/Core/Alu/Addition.antt =====
-- What AddWithCarry() computes, in unsigned and in signed arithmetic.
use rp2040_simlator.Base.{
  ℕ, ◌+◌, ◌-◌, ◌*◌, ◌%◌, ◌^◌, ◌<◌, ◌≡◌, ◌↔◌, min, Bool, false, arith, u32, not32, bit, of_bool,
  bit_and, bit_xor,
}
use rp2040_simlator.Base.Bits.{bit-bit_and, bit-bit_xor, bit_xor-lt}
use rp2040_simlator.Base.Int.{pos, ◌+ℤ◌, signed32}
use rp2040_simlator.Core.Alu.{add_with_carry}

-- The result and the carry are the two parts of the exact sum.
add_with_carry_sum :
    (x y : ℕ) (cin : Bool)
    → x < 2 ^ 32
    → y < 2 ^ 32
    → let r = add_with_carry x y cin in
      (r.value + 2 ^ 32 * of_bool r.carry ≡ x + y + of_bool cin) × (r.value < 2 ^ 32)
unfolding add_with_carry
add_with_carry_sum x y cin hx hy = ground arith

-- The sign bit of `~(x ^ y) & (x ^ r)`.
pub overflow_bit :
    (x y r : ℕ)
    → x < 2 ^ 32
    → y < 2 ^ 32
    → bit (bit_and (not32 (bit_xor x y)) (bit_xor x r)) 31
      ≡ min (1 - (bit x 31 + bit y 31) % 2) ((bit x 31 + bit r 31) % 2)
overflow_bit x y r hx hy = omega (
  arith,
  bit-bit_and 31 (not32 (bit_xor x y)) (bit_xor x r),
  bit-bit_xor 31 x y,
  bit-bit_xor 31 x r,
  bit_xor-lt 32 x y hx hy,
)

-- The overflow flag tells whether the signed sum has left the 32-bit range: it is clear exactly
-- when the result, read as a signed number, is the sum of the signed operands and the carry in.
add_with_carry_overflow :
    (x y : ℕ) (cin : Bool)
    → x < 2 ^ 32
    → y < 2 ^ 32
    → let r = add_with_carry x y cin in
      (r.overflow ≡ false) ↔ (signed32 r.value ≡ signed32 x +ℤ signed32 y +ℤ pos (of_bool cin))
unfolding add_with_carry ◌+ℤ◌
add_with_carry_overflow x y cin hx hy =
    ground (arith, overflow_bit x y (u32 (x + y + of_bool cin)) hx hy)

-- The result and the carry are the two parts of the exact sum of two words and the carry in, and the
-- overflow flag is clear exactly when the result, read as a signed number, is their signed sum.
pub add_with_carry_lem :
    (x y : ℕ) (cin : Bool)
    → x < 2 ^ 32
    → y < 2 ^ 32
    → let r = add_with_carry x y cin in
      (r.value + 2 ^ 32 * of_bool r.carry ≡ x + y + of_bool cin)
      × (r.value < 2 ^ 32)
      × ((r.overflow ≡ false) ↔ (signed32 r.value ≡ signed32 x +ℤ signed32 y +ℤ pos (of_bool cin)))
add_with_carry_lem x y cin hx hy =
    let (sum, fits) = add_with_carry_sum x y cin hx hy in
    (sum, fits, add_with_carry_overflow x y cin hx hy)
