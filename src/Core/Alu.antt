-- ===== src/Core/Alu.antt =====
-- AddWithCarry() and Shift_C(): core/alu.h and core/alu.cpp.
pub mod Addition
pub mod Compare
use rp2040_simlator.Base.{
  ℕ, ◌+◌, ◌-◌, ◌*◌, ◌/◌, ◌%◌, ◌^◌, Bool, true, false, not, ltb, leb, ◌==◌, if◌then◌else◌, u32,
  not32, bit, test_bit, of_bool, bit_and, bit_or, bit_xor, ◌<<<◌, ◌>>>◌,
}

pub record AddResult : Type 0 where
  pub value : ℕ
  pub carry : Bool
  pub overflow : Bool

-- The sum is a uint64_t, which three 32-bit operands do not fill.
unfoldable pub add_with_carry : ℕ → ℕ → Bool → AddResult
add_with_carry x y carry_in =
    let usum = x + y + of_bool carry_in in
    let result = u32 usum in
    record {
      value = result;
      carry = not (usum >>> 32 == 0);
      overflow = test_bit (bit_and (not32 (bit_xor x y)) (bit_xor x result)) 31;
    }

pub data SrType : Type 0 where
  lsl lsr asr ror rrx : SrType

pub record ShiftResult : Type 0 where
  pub value : ℕ
  pub carry : Bool

-- `static_cast<int32_t>(value) >> amount` for amount < 32: the sign bit fills from the left.
unfoldable pub arithmetic_right : ℕ → ℕ → ℕ
arithmetic_right value amount =
    if test_bit value 31
    then (value + (2 ^ 32 - 1) * 2 ^ 32) >>> amount % 2 ^ 32
    else value >>> amount

-- Shifts by a variable amount; bit `amount - 1` is the last one out.
unfoldable pub shift_c : ℕ → SrType → ℕ → Bool → ShiftResult
unfolding arithmetic_right
shift_c value type amount carry_in =
    if amount == 0 then record { value = value; carry = carry_in } else elim type [
      | SrType.lsl ↦
          if ltb 32 amount
          then record { value = 0; carry = false }
          else record { value = u32 (value <<< amount); carry = bit (value <<< amount) 32 == 1 }
      | SrType.lsr ↦ if ltb 32 amount then record { value = 0; carry = false } else record {
        value = if amount == 32 then 0 else value >>> amount;
        carry = bit value (amount - 1) == 1;
      }
      | SrType.asr ↦
          if leb 32 amount
          then record {
            value = if test_bit value 31 then 0xFFFF_FFFF else 0;
            carry = test_bit value 31;
          }
          else record { value = arithmetic_right value amount; carry = bit value (amount - 1) == 1 }
      | SrType.ror ↦
          let m = amount % 32 in
          let res = if m == 0 then value else bit_or (value >>> m) (u32 (value <<< (32 - m))) in
          record { value = res; carry = test_bit res 31 }
      | SrType.rrx ↦ record {
        value = bit_or (value >>> 1) (of_bool carry_in <<< 31);
        carry = test_bit value 0;
      }
    ]
