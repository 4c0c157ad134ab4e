-- ===== src/Base/Bits.antt =====
-- Laws of `&`, `|` and `^` at variables. The native operations mean a recursion on binary digits
-- that is given its first argument as fuel; the fuel is dropped first, which leaves one equation
-- for the lowest digit, and the laws for a given bit follow by induction on its position.
use Prim.Native.Nat.{
  ℕ, zero, suc, ◌+◌, ◌-◌, ◌*◌, ◌/◌, ◌%◌, ◌^◌, ◌≤◌, ◌<◌, min, max, bit_and, bit_or, bit_xor, digits,
  differ, bitwise, bit_and-bitwise, bit_or-bitwise, bit_xor-bitwise,
}
use Prim.Native.Nat.add
use mathlib.Core.Path.{◌≡◌, refl, ◌∙◌, sym, ap}
use mathlib.Core.Bool.{◌&&◌, ◌||◌, not}
use native.Mathlib.Nat.{
  pow-suc, div-div-eq-div-mul, mul_comm, one-le-pow, mod-eq-sub-div-mul, div-mul-le_self,
}
use native.Mathlib.Omega.{arith}
use rp2040_simlator.Base.Tests.{◌==◌, if◌then◌else◌}
use rp2040_simlator.Base.Words.{bit, test_bit, and_not}

module _ (z : ℕ → ℕ) (f : ℕ → ℕ → ℕ) where
  -- One more unit of fuel than enough changes nothing.
  digits-suc : (n a b : ℕ) → a ≤ n → digits z f (suc n) a b ≡ digits z f n a b
  digits-suc n zero b h = elim n as (λ k. digits z f (suc k) 0 b ≡ digits z f k 0 b) [
    | zero ↦ refl
    | suc k ↦ refl
  ]
  digits-suc zero (suc a) b h = absurd (omega arith)
  digits-suc (suc n) (suc a) b h = rw (digits-suc n (suc a / 2) (b / 2) (omega arith))

  digits_enough : (k a b : ℕ) → digits z f (k + a) a b ≡ bitwise z f a b
  digits_enough zero a b = rw (add.zero a)
  digits_enough (suc k) a b =
      rw (add.suc k a) (digits-suc (k + a) a b (omega arith) ∙ digits_enough k a b)

  -- The value of an operation, from the quotients and remainders by 2.
  bitwise_halves :
      (a b : ℕ)
      → bitwise z f (suc a) b ≡ bitwise z f (suc a / 2) (b / 2) * 2 + f (suc a % 2) (b % 2)
  bitwise_halves a b =
      let k = a - suc a / 2 in
      let e : k + suc a / 2 ≡ a = omega arith in
      omega
        (arith, ap (λ n. digits z f n (suc a / 2) (b / 2)) e, digits_enough k (suc a / 2) (b / 2))

pub bit_and_halves : (a b : ℕ) → bit_and a b ≡ bit_and (a / 2) (b / 2) * 2 + min (a % 2) (b % 2)
bit_and_halves zero b = omega (arith, bit_and-bitwise 0 b, bit_and-bitwise 0 (b / 2))
bit_and_halves (suc a) b = simp bit_and-bitwise (bitwise_halves (λ y. 0) min a b)

pub bit_or_halves : (a b : ℕ) → bit_or a b ≡ bit_or (a / 2) (b / 2) * 2 + max (a % 2) (b % 2)
bit_or_halves zero b = omega (arith, bit_or-bitwise 0 b, bit_or-bitwise 0 (b / 2))
bit_or_halves (suc a) b = simp bit_or-bitwise (bitwise_halves (λ y. y) max a b)

pub bit_xor_halves : (a b : ℕ) → bit_xor a b ≡ bit_xor (a / 2) (b / 2) * 2 + differ (a % 2) (b % 2)
bit_xor_halves zero b = ground (arith, bit_xor-bitwise 0 b, bit_xor-bitwise 0 (b / 2))
bit_xor_halves (suc a) b = simp bit_xor-bitwise (bitwise_halves (λ y. y) differ a b)

pub differ-le : (x y : ℕ) → x < 2 → y < 2 → differ x y ≡ (x + y) % 2
differ-le zero y h k = omega arith
differ-le (suc zero) zero h k = refl
differ-le (suc zero) (suc zero) h k = refl
differ-le (suc zero) (suc (suc y)) h k = absurd (omega arith)
differ-le (suc (suc x)) y h k = absurd (omega arith)

-- Bits by position.

pub bit-zero : (v : ℕ) → bit v 0 ≡ v % 2
bit-zero v = omega arith

pub bit-suc : (v n : ℕ) → bit v (suc n) ≡ bit (v / 2) n
bit-suc v n = ap (λ q. q % 2) (sym (div-div-eq-div-mul v 2 (2 ^ n) ∙ ap (λ d. v / d) flip))
  where
    flip : 2 * 2 ^ n ≡ 2 ^ suc n
    flip = omega (arith, pow-suc 2 n)

pub bit-bit_and : (n a b : ℕ) → bit (bit_and a b) n ≡ min (bit a n) (bit b n)
bit-bit_and zero a b = omega (arith, bit_and_halves a b)
bit-bit_and (suc n) a b =
    rw (bit-suc (bit_and a b) n, bit-suc a n, bit-suc b n, half) (bit-bit_and n (a / 2) (b / 2))
  where
    half : bit_and a b / 2 ≡ bit_and (a / 2) (b / 2)
    half = omega (arith, bit_and_halves a b)

pub bit-bit_or : (n a b : ℕ) → bit (bit_or a b) n ≡ max (bit a n) (bit b n)
bit-bit_or zero a b = omega (arith, bit_or_halves a b)
bit-bit_or (suc n) a b =
    rw (bit-suc (bit_or a b) n, bit-suc a n, bit-suc b n, half) (bit-bit_or n (a / 2) (b / 2))
  where
    half : bit_or a b / 2 ≡ bit_or (a / 2) (b / 2)
    half = omega (arith, bit_or_halves a b)

pub bit-bit_xor : (n a b : ℕ) → bit (bit_xor a b) n ≡ (bit a n + bit b n) % 2
bit-bit_xor zero a b =
    omega (arith, bit_xor_halves a b, differ-le (a % 2) (b % 2) (omega arith) (omega arith))
bit-bit_xor (suc n) a b =
    rw (bit-suc (bit_xor a b) n, bit-suc a n, bit-suc b n, half) (bit-bit_xor n (a / 2) (b / 2))
  where
    half : bit_xor a b / 2 ≡ bit_xor (a / 2) (b / 2)
    half = omega (arith, bit_xor_halves a b, differ-le (a % 2) (b % 2) (omega arith) (omega arith))

-- The operations stay within a width.

pub bit_or-lt : (k a b : ℕ) → a < 2 ^ k → b < 2 ^ k → bit_or a b < 2 ^ k
bit_or-lt zero zero zero h g = omega (arith, bit_or-bitwise 0 0)
bit_or-lt zero zero (suc b) h g = absurd (omega arith)
bit_or-lt zero (suc a) b h g = absurd (omega arith)
bit_or-lt (suc k) a b h g = omega (
  arith,
  pow-suc 2 k,
  bit_or_halves a b,
  bit_or-lt k (a / 2) (b / 2) (omega (arith, pow-suc 2 k)) (omega (arith, pow-suc 2 k)),
)

pub bit_xor-lt : (k a b : ℕ) → a < 2 ^ k → b < 2 ^ k → bit_xor a b < 2 ^ k
bit_xor-lt zero zero zero h g = omega (arith, bit_xor-bitwise 0 0)
bit_xor-lt zero zero (suc b) h g = absurd (omega arith)
bit_xor-lt zero (suc a) b h g = absurd (omega arith)
bit_xor-lt (suc k) a b h g = omega (
  arith,
  pow-suc 2 k,
  bit_xor_halves a b,
  differ-le (a % 2) (b % 2) (omega arith) (omega arith),
  bit_xor-lt k (a / 2) (b / 2) (omega (arith, pow-suc 2 k)) (omega (arith, pow-suc 2 k)),
)

pub bit_and-le : (n a b : ℕ) → a ≤ n → bit_and a b ≤ a
bit_and-le zero zero b h = omega (arith, bit_and-bitwise 0 b)
bit_and-le zero (suc a) b h = absurd (omega arith)
bit_and-le (suc n) zero b h = omega (arith, bit_and-bitwise 0 b)
bit_and-le (suc n) (suc a) b h =
    omega (arith, bit_and_halves (suc a) b, bit_and-le n (suc a / 2) (b / 2) (omega arith))

and_not_halves :
    (v m : ℕ) → and_not v m ≡ and_not (v / 2) (m / 2) * 2 + (v % 2 - min (v % 2) (m % 2))
and_not_halves v m =
    omega (arith, bit_and_halves v m, bit_and-le (v / 2) (v / 2) (m / 2) (omega arith))

pub bit-and_not : (n v m : ℕ) → bit (and_not v m) n ≡ bit v n - bit m n
bit-and_not zero v m = omega (arith, and_not_halves v m)
bit-and_not (suc n) v m =
    rw (bit-suc (and_not v m) n, bit-suc v n, bit-suc m n, half) (bit-and_not n (v / 2) (m / 2))
  where
    half : and_not v m / 2 ≡ and_not (v / 2) (m / 2)
    half = omega (arith, and_not_halves v m)

bit_of_zero : (n : ℕ) → bit 0 n ≡ 0
bit_of_zero zero = refl
bit_of_zero (suc n) = rw (bit-suc 0 n) (bit_of_zero n)

-- A power of two has the one bit.
pub bit-pow : (n m : ℕ) → bit (2 ^ m) n ≡ (if n == m then 1 else 0)
bit-pow zero zero = refl
bit-pow zero (suc m) = ground (arith, pow-suc 2 m, bit-zero (2 ^ suc m))
bit-pow (suc n) zero = rw (bit-suc 1 n) (ground (arith, bit_of_zero n))
bit-pow (suc n) (suc m) = rw (bit-suc (2 ^ suc m) n, half) (ground (arith, bit-pow n m))
  where
    half : 2 ^ suc m / 2 ≡ 2 ^ m
    half = omega (arith, pow-suc 2 m)

bit_and_zero : (n v : ℕ) → v ≤ n → bit_and v 0 ≡ 0
bit_and_zero n zero h = bit_and-bitwise 0 0
bit_and_zero zero (suc v) h = absurd (omega arith)
bit_and_zero (suc n) (suc v) h =
    omega (arith, bit_and_halves (suc v) 0, bit_and_zero n (suc v / 2) (omega arith))

pub bit_and-zero : (v : ℕ) → bit_and v 0 ≡ 0
bit_and-zero v = bit_and_zero v v (omega arith)

-- The C reading of a test by a mask: `(v & (1 << n)) != 0` asks for bit n.
pub bit_and-pow : (n v : ℕ) → bit_and v (2 ^ n) ≡ bit v n * 2 ^ n
bit_and-pow zero v = omega (arith, bit_and_halves v 1, bit_and_zero (v / 2) (v / 2) (omega arith))
bit_and-pow (suc n) v = rw (bit-suc v n) (
    omega (
      arith,
      bit_and_halves v (2 ^ suc n),
      ap (bit_and (v / 2)) half,
      bit_and-pow n (v / 2),
      pow-suc 2 n,
      ap (λ (t : ℕ). bit (v / 2) n * t) (pow-suc 2 n),
    ))
  where
    half : 2 ^ suc n / 2 ≡ 2 ^ n
    half = omega (arith, pow-suc 2 n)

-- The C reading of a mask of low bits: `v & (2^k - 1)` is the remainder.
pub bit_and-low : (k v : ℕ) → bit_and v (2 ^ k - 1) ≡ v % 2 ^ k
bit_and-low zero v = omega (arith, bit_and_zero v v (omega arith))
bit_and-low (suc k) v = omega (
  arith,
  bit_and_halves v (2 ^ suc k - 1),
  ap (bit_and (v / 2)) half,
  bit_and-low k (v / 2),
  pow-suc 2 k,
  one-le-pow k 2,
  mod-eq-sub-div-mul v (2 ^ suc k),
  mod-eq-sub-div-mul (v / 2) (2 ^ k),
  div-mul-le_self (v / 2) (2 ^ k),
  div-div-eq-div-mul v 2 (2 ^ k),
  ap (λ (t : ℕ). v / t) (pow-suc 2 k ∙ mul_comm (2 ^ k) 2),
  ap (λ (t : ℕ). v / 2 / 2 ^ k * t) (pow-suc 2 k),
  ap (λ (t : ℕ). t * 2 ^ suc k) quotients,
)
  where
    half : (2 ^ suc k - 1) / 2 ≡ 2 ^ k - 1
    half = omega (arith, pow-suc 2 k)

    quotients : v / 2 ^ suc k ≡ v / 2 / 2 ^ k
    quotients =
        ap (λ (t : ℕ). v / t) (pow-suc 2 k ∙ mul_comm (2 ^ k) 2)
        ∙ sym (div-div-eq-div-mul v 2 (2 ^ k))

bit_or_zero : (n v : ℕ) → v ≤ n → bit_or v 0 ≡ v
bit_or_zero n zero h = bit_or-bitwise 0 0
bit_or_zero zero (suc v) h = absurd (omega arith)
bit_or_zero (suc n) (suc v) h =
    omega (arith, bit_or_halves (suc v) 0, bit_or_zero n (suc v / 2) (omega arith))

-- Fields that do not overlap: `(q << k) | r` is a sum.
pub bit_or-fields : (k q r : ℕ) → r < 2 ^ k → bit_or (q * 2 ^ k) r ≡ q * 2 ^ k + r
bit_or-fields zero q r h = ground (arith, bit_or_zero q q (omega arith))
bit_or-fields (suc k) q r h = omega (
  arith,
  pow-suc 2 k,
  twice,
  bit_or_halves (q * 2 ^ suc k) r,
  ap (λ (t : ℕ). bit_or t (r / 2)) half,
  bit_or-fields k q (r / 2) (omega (arith, pow-suc 2 k)),
)
  where
    twice : q * 2 ^ suc k ≡ 2 * (q * 2 ^ k)
    twice = omega (arith, ap (λ (t : ℕ). q * t) (pow-suc 2 k))

    half : q * 2 ^ suc k / 2 ≡ q * 2 ^ k
    half = omega (arith, twice)

-- What two words share is counted twice in their sum.
bit_or-add-bit_and_fuel : (n a b : ℕ) → a ≤ n → bit_or a b + bit_and a b ≡ a + b
bit_or-add-bit_and_fuel n zero b h = omega (arith, bit_or-bitwise 0 b, bit_and-bitwise 0 b)
bit_or-add-bit_and_fuel zero (suc a) b h = absurd (omega arith)
bit_or-add-bit_and_fuel (suc n) (suc a) b h = omega (
  arith,
  bit_or_halves (suc a) b,
  bit_and_halves (suc a) b,
  bit_or-add-bit_and_fuel n (suc a / 2) (b / 2) (omega arith),
)

pub bit_or-add-bit_and : (a b : ℕ) → bit_or a b + bit_and a b ≡ a + b
bit_or-add-bit_and a b = bit_or-add-bit_and_fuel a a b (omega arith)

-- Setting and clearing one bit, as arithmetic.
pub set_bit_value : (v n : ℕ) → bit_or v (2 ^ n) + bit v n * 2 ^ n ≡ v + 2 ^ n
set_bit_value v n = omega (arith, bit_or-add-bit_and v (2 ^ n), bit_and-pow n v)

pub clear_bit_value : (v n : ℕ) → and_not v (2 ^ n) ≡ v - bit v n * 2 ^ n
clear_bit_value v n = omega (arith, bit_and-pow n v)

-- Single bits as tests.
abbrev pub set_bit : ℕ → ℕ → ℕ
set_bit v n = bit_or v (2 ^ n)

abbrev pub clear_bit : ℕ → ℕ → ℕ
clear_bit v n = and_not v (2 ^ n)

pub test_bit-set_bit : (v m n : ℕ) → test_bit (set_bit v m) n ≡ (n == m || test_bit v n)
test_bit-set_bit v m n = ground (arith, bit-bit_or n v (2 ^ m), bit-pow n m)

pub test_bit-clear_bit : (v m n : ℕ) → test_bit (clear_bit v m) n ≡ (not (n == m) && test_bit v n)
test_bit-clear_bit v m n = ground (arith, bit-and_not n v (2 ^ m), bit-pow n m)

bit_or_comm_fuel : (n a b : ℕ) → a ≤ n → b ≤ n → bit_or a b ≡ bit_or b a
bit_or_comm_fuel zero zero zero h g = refl
bit_or_comm_fuel zero zero (suc b) h g = absurd (omega arith)
bit_or_comm_fuel zero (suc a) b h g = absurd (omega arith)
bit_or_comm_fuel (suc n) a b h g = omega (
  arith,
  bit_or_halves a b,
  bit_or_halves b a,
  bit_or_comm_fuel n (a / 2) (b / 2) (omega arith) (omega arith),
)

pub bit_or_comm : (a b : ℕ) → bit_or a b ≡ bit_or b a
bit_or_comm a b = bit_or_comm_fuel (a + b) a b (omega arith) (omega arith)

-- The same with the low field first.
pub bit_or_above : (k r q : ℕ) → r < 2 ^ k → bit_or r (q * 2 ^ k) ≡ r + q * 2 ^ k
bit_or_above k r q h = omega (arith, bit_or_comm r (q * 2 ^ k), bit_or-fields k q r h)

-- Exclusive or counts no shared bit.
bit_xor-add-bit_and_fuel : (n a b : ℕ) → a ≤ n → bit_xor a b + 2 * bit_and a b ≡ a + b
bit_xor-add-bit_and_fuel n zero b h = omega (arith, bit_xor-bitwise 0 b, bit_and-bitwise 0 b)
bit_xor-add-bit_and_fuel zero (suc a) b h = absurd (omega arith)
bit_xor-add-bit_and_fuel (suc n) (suc a) b h = omega (
  arith,
  bit_xor_halves (suc a) b,
  differ-le (suc a % 2) (b % 2) (omega arith) (omega arith),
  bit_and_halves (suc a) b,
  bit_xor-add-bit_and_fuel n (suc a / 2) (b / 2) (omega arith),
)

pub bit_xor-pow : (v n : ℕ) → bit_xor v (2 ^ n) + 2 * (bit v n * 2 ^ n) ≡ v + 2 ^ n
bit_xor-pow v n = omega (arith, bit_xor-add-bit_and_fuel v v (2 ^ n) (omega arith), bit_and-pow n v)
