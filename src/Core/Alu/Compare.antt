-- ===== src/Core/Alu/Compare.antt =====
-- What the sixteen conditions mean after a comparison: core/alu.cpp, the CMP case of core/cpu.cpp
-- and `condition_holds` of core/registers.cpp together.
use rp2040_simlator.Base.{ℕ, ◌+◌, ◌^◌, ◌≤◌, ◌<◌, ◌≡◌, ◌↔◌, true, arith, ◌==◌, u32, not32, test_bit}
use rp2040_simlator.Base.Int.{◌≤ℤ◌, ◌<ℤ◌, signed32}
use rp2040_simlator.Core.Alu.{AddResult, add_with_carry}
use rp2040_simlator.Core.Alu.Addition.{overflow_bit}
use rp2040_simlator.Core.Registers.{RegisterFile, set_flags, condition_holds}

-- The lambda `set_nzcv` of `exec_data`.
unfoldable pub set_nzcv : RegisterFile → AddResult → RegisterFile
unfolding set_flags
set_nzcv s r = set_flags s (test_bit r.value 31) (r.value == 0) r.carry r.overflow

-- The flags after CMP a, b.
unfoldable pub compare_flags : RegisterFile → ℕ → ℕ → RegisterFile
unfolding set_nzcv
compare_flags s a b = set_nzcv s (add_with_carry a (not32 b) true)

module _ (s : RegisterFile) (a b : ℕ) (ha : a < 2 ^ 32) (hb : b < 2 ^ 32) where
  -- After CMP a, b the unsigned conditions hold as their names say: EQ for a = b, CS for a ≥ b,
  -- and HI for a > b.
  compare_unsigned :
      (condition_holds (compare_flags s a b) 0 ≡ true ↔ a ≡ b)
      × (condition_holds (compare_flags s a b) 2 ≡ true ↔ b ≤ a)
      × (condition_holds (compare_flags s a b) 8 ≡ true ↔ b < a)
  unfolding condition_holds compare_flags add_with_carry
  compare_unsigned = (ground arith, ground arith, ground arith)

  -- After CMP a, b the signed conditions compare the operands as two's complement numbers: GE for
  -- a ≥ b and GT for a > b.
  compare_signed :
      (condition_holds (compare_flags s a b) 10 ≡ true ↔ signed32 b ≤ℤ signed32 a)
      × (condition_holds (compare_flags s a b) 12 ≡ true ↔ signed32 b <ℤ signed32 a)
  unfolding condition_holds compare_flags add_with_carry
  compare_signed = (
    ground (arith, overflow_bit a (not32 b) (u32 (a + not32 b + 1)) ha (omega arith)),
    ground (arith, overflow_bit a (not32 b) (u32 (a + not32 b + 1)) ha (omega arith)),
  )

  -- After CMP a, b the conditions compare the operands as their names say: EQ for a = b, CS for
  -- a ≥ b and HI for a > b as unsigned numbers, and GE and GT as two's complement numbers.
  pub compare_flags_lem :
      (condition_holds (compare_flags s a b) 0 ≡ true ↔ a ≡ b)
      × (condition_holds (compare_flags s a b) 2 ≡ true ↔ b ≤ a)
      × (condition_holds (compare_flags s a b) 8 ≡ true ↔ b < a)
      × (condition_holds (compare_flags s a b) 10 ≡ true ↔ signed32 b ≤ℤ signed32 a)
      × (condition_holds (compare_flags s a b) 12 ≡ true ↔ signed32 b <ℤ signed32 a)
  compare_flags_lem =
      let (eq, cs, hi) = compare_unsigned in let (ge, gt) = compare_signed in (eq, cs, hi, ge, gt)
