-- ===== src/Base/Words.antt =====
-- Fixed-width unsigned words as native numbers: casts, wrapping arithmetic, single bits.
use Prim.Native.Nat.{ℕ, ◌+◌, ◌-◌, ◌*◌, ◌/◌, ◌%◌, ◌^◌, bit_and}
use mathlib.Core.Bool.{Bool, true, false}
use rp2040_simlator.Base.Tests.{◌==◌}

abbrev pub u8 : ℕ → ℕ
u8 n = n % 2 ^ 8

abbrev pub u16 : ℕ → ℕ
u16 n = n % 2 ^ 16

abbrev pub u32 : ℕ → ℕ
u32 n = n % 2 ^ 32

abbrev pub u64 : ℕ → ℕ
u64 n = n % 2 ^ 64

-- `a + b`, `a - b` and `~a` on uint32_t. `-` on ℕ stops at 0, so the modulus is added first.
abbrev pub add32 : ℕ → ℕ → ℕ
add32 a b = u32 (a + b)

abbrev pub sub32 : ℕ → ℕ → ℕ
sub32 a b = u32 (a + 2 ^ 32 - b)

abbrev pub not32 : ℕ → ℕ
not32 a = 2 ^ 32 - 1 - a

infixl 75 ◌<<<◌ ◌>>>◌
abbrev pub ◌<<<◌ : ℕ → ℕ → ℕ
x <<< k = x * 2 ^ k

abbrev pub ◌>>>◌ : ℕ → ℕ → ℕ
x >>> k = x / 2 ^ k

-- `v & ~m`: the bits of `m` taken out of `v`.
abbrev pub and_not : ℕ → ℕ → ℕ
and_not v m = v - bit_and v m

-- `(v >> n) & 1`, for numeral n.
abbrev pub bit : ℕ → ℕ → ℕ
bit v n = v / 2 ^ n % 2

-- `(v & (1 << n)) != 0`, which is `((v >> n) & 1) != 0`.
abbrev pub test_bit : ℕ → ℕ → Bool
test_bit v n = bit v n == 1

-- `v & ~(2^k - 1)`: the low k bits cleared.
abbrev pub clear_low : ℕ → ℕ → ℕ
clear_low v k = v / 2 ^ k * 2 ^ k

-- A `bool` used as a number.
abbrev pub of_bool : Bool → ℕ
of_bool true = 1
of_bool false = 0
