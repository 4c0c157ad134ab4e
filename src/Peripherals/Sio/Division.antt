-- ===== src/Peripherals/Sio/Division.antt =====
-- What the divider of the SIO answers, and when.
use native.Mathlib.Nat.{div-add-mod', mod-lt, mul-le-mul_left}
use rp2040_simlator.Base.{
  ℕ, zero, suc, ◌+◌, ◌-◌, ◌*◌, ◌/◌, ◌%◌, ◌^◌, ◌≤◌, ◌<◌, ◌≡◌, refl, sym, ◌∙◌, ap₂, subst, Bool, true,
  false, ◌&&◌, leb, ◌==◌, if◌then◌else◌, arith, inl, inr, Bool-cases, ◌⊎◌,
}
use rp2040_simlator.Peripherals.Sio.{
  Divider, k_div_latency_cycles, start_divide, division, finish_divide, div_on_cycles, negative,
  magnitude, with_sign, differ, signed_division,
}

-- Sign and magnitude of a word in either mode.
abbrev pub neg_in : Bool → ℕ → Bool
neg_in is_signed w = is_signed && negative w

abbrev pub mag_in : Bool → ℕ → ℕ
mag_in is_signed w = if is_signed then magnitude w else w

-- q and r are the quotient and the remainder of a by b, rounded towards 0: the magnitudes divide
-- with remainder, the remainder has the sign of a, and the quotient has the sign that a and b make,
-- but for INT32_MIN by -1, whose quotient is INT32_MIN.
abbrev pub Divides : Bool → ℕ → ℕ → ℕ → ℕ → Type 0
Divides m a b q r =
    (mag_in m q * mag_in m b + mag_in m r ≡ mag_in m a)
    × (mag_in m r < mag_in m b)
    × ((r ≡ 0) ⊎ (neg_in m r ≡ neg_in m a))
    × ((q ≡ 0) ⊎ ((neg_in m q ≡ differ (neg_in m a) (neg_in m b)) ⊎ ((q ≡ 2 ^ 31) × (a ≡ 2 ^ 31))))

div_mod : (a b : ℕ) → 0 < b → (a / b * b + a % b ≡ a) × (a % b < b)
div_mod a b pos = (div-add-mod' a b, mod-lt a pos)

half_le : (q b : ℕ) → 2 ≤ b → q * 2 ≤ q * b
half_le q b two = mul-le-mul_left q two

whole_le : (q b : ℕ) → 1 ≤ b → q * 1 ≤ q * b
whole_le q b one = mul-le-mul_left q one

with_minus :
    (m : ℕ)
    → m ≤ 2 ^ 31
    → (magnitude (with_sign true m) ≡ m)
      × ((with_sign true m ≡ 0) ⊎ (negative (with_sign true m) ≡ true))
with_minus m le = ground arith

with_plus :
    (m : ℕ)
    → m < 2 ^ 31
    → (magnitude (with_sign false m) ≡ m)
      × ((with_sign false m ≡ 0) ⊎ (negative (with_sign false m) ≡ false))
with_plus m lt = ground arith

with_any :
    (s : Bool) (m : ℕ)
    → m ≤ 2 ^ 31
    → (s ≡ true) ⊎ (m < 2 ^ 31)
    → (magnitude (with_sign s m) ≡ m) × ((with_sign s m ≡ 0) ⊎ (negative (with_sign s m) ≡ s))
with_any true m le h = with_minus m le
with_any false m le (inl e) = absurd (ground (arith, e))
with_any false m le (inr lt) = with_plus m lt

magnitude-le : (w : ℕ) → w < 2 ^ 32 → magnitude w ≤ 2 ^ 31
magnitude-le w lt = ground arith

magnitude-pos : (w : ℕ) → w < 2 ^ 32 → 0 < w → 0 < magnitude w
magnitude-pos w lt pos = ground arith

-- Only INT32_MIN by 1 or -1 has a quotient of magnitude 2^31.
quotient_small :
    (a b : ℕ)
    → a < 2 ^ 32
    → b < 2 ^ 32
    → 0 < b
    → (a == 2 ^ 31 && (b == 0xFFFF_FFFF)) ≡ false
    → (magnitude a / magnitude b ≤ 2 ^ 31)
      × ((differ (negative a) (negative b) ≡ true) ⊎ (magnitude a / magnitude b < 2 ^ 31))
quotient_small a b la lb pos ne =
    split (magnitude a / magnitude b) (magnitude-pos b lb pos)
      (omega (arith, div-add-mod' (magnitude a) (magnitude b)))
  where
    last :
        (q : ℕ)
        → q ≤ magnitude a
        → magnitude b ≡ 1
        → (q ≤ 2 ^ 31) × ((differ (negative a) (negative b) ≡ true) ⊎ (q < 2 ^ 31))
    last q le one = ground (arith, le, one, ne, la, lb)

    large :
        (q : ℕ)
        → q * 1 ≤ q * magnitude b
        → q * magnitude b ≤ magnitude a
        → magnitude b ≡ 1
        → (q ≤ 2 ^ 31) × ((differ (negative a) (negative b) ≡ true) ⊎ (q < 2 ^ 31))
    large q h sum one = last q (omega (arith, h, sum)) one

    small :
        (q : ℕ)
        → q * 2 ≤ q * magnitude b
        → q * magnitude b ≤ magnitude a
        → (q ≤ 2 ^ 31) × ((differ (negative a) (negative b) ≡ true) ⊎ (q < 2 ^ 31))
    small q h sum =
        let le = magnitude-le a la in (omega (arith, h, sum, le), inr (omega (arith, h, sum, le)))

    split :
        (q : ℕ)
        → 0 < magnitude b
        → q * magnitude b ≤ magnitude a
        → (q ≤ 2 ^ 31) × ((differ (negative a) (negative b) ≡ true) ⊎ (q < 2 ^ 31))
    split q one sum = elim (Bool-cases (leb 2 (magnitude b))) [
      | inl e ↦ small q (half_le q (magnitude b) (ground (arith, e))) sum
      | inr e ↦ large q (whole_le q (magnitude b) one) sum (ground (arith, e, one))
    ]

signed_lem :
    (a b : ℕ)
    → a < 2 ^ 32
    → b < 2 ^ 32
    → 0 < b
    → (a == 2 ^ 31 && (b == 0xFFFF_FFFF)) ≡ false
    → let (q, r) = signed_division a b in Divides true a b q r
signed_lem a b la lb pos ne =
    let (le, sgn) = quotient_small a b la lb pos ne in
    let (sum, lt) = div_mod (magnitude a) (magnitude b) (magnitude-pos b lb pos) in
    let (mq, sq) = with_any (differ (negative a) (negative b)) (magnitude a / magnitude b) le sgn in
    let (mr, sr) =
      with_any (negative a) (magnitude a % magnitude b) (omega (arith, lt, magnitude-le b lb))
        (inr (omega (arith, lt, magnitude-le b lb))) in
    (
      ap₂ (λ x y. x * magnitude b + y) mq mr ∙ sum,
      subst (λ x. x < magnitude b) (sym mr) lt,
      sr,
      elim sq [ inl e ↦ inl e | inr e ↦ inr (inl e) ],
    )

-- The answer to a division of 32-bit words.
abbrev pub Answers : Bool → ℕ → ℕ → ℕ → ℕ → Type 0
Answers m a b q r = ((b ≡ 0) × (q ≡ 0xFFFF_FFFF) × (r ≡ a)) ⊎ ((0 < b) × Divides m a b q r)

overflow : (a b : ℕ) → (a == 2 ^ 31 && (b == 0xFFFF_FFFF)) ≡ true → Divides true a b (2 ^ 31) 0
overflow a b e = ground (arith, e)

division_lem :
    (m : Bool) (a b : ℕ)
    → a < 2 ^ 32
    → b < 2 ^ 32
    → let (q, r) = division m a b in Answers m a b q r
unfolding division
division_lem m a zero la lb = inl (refl, refl, refl)
division_lem false a (suc b) la lb =
    let (sum, lt) = div_mod a (suc b) (omega arith) in
    rw (nonzero) (inr (omega arith, (sum, lt, inr refl, inr (inl refl))))
  where
    nonzero : (suc b == 0) ≡ false
    nonzero = ground arith
division_lem true a (suc b) la lb = elim (Bool-cases (a == 2 ^ 31 && (suc b == 0xFFFF_FFFF))) [
  | inl e ↦ rw (nonzero, e) (inr (omega arith, overflow a (suc b) e))
  | inr e ↦ rw (nonzero, e) (inr (omega arith, signed_lem a (suc b) la lb (omega arith) e))
]
  where
    nonzero : (suc b == 0) ≡ false
    nonzero = ground arith

-- A divider that is given a dividend and a divisor is busy for 8 clocks and shows its last result
-- until then. After 8 clocks or more, in two portions, it is ready with the quotient and the
-- remainder, signed or not; by 0 the quotient is all ones and the remainder the dividend.
pub div_on_cycles-Answers :
    (d : Divider) (m : Bool) (a b k n : ℕ)
    → a < 2 ^ 32
    → b < 2 ^ 32
    → k < k_div_latency_cycles
    → k_div_latency_cycles ≤ k + n
    → let busy = div_on_cycles (start_divide (start_divide d m true a) m false b) k in
      let done = div_on_cycles busy n in
      (busy.ready ≡ false)
      × (busy.quotient ≡ d.quotient)
      × (busy.remainder ≡ d.remainder)
      × (done.ready ≡ true)
      × Answers m a b done.quotient done.remainder
unfolding div_on_cycles start_divide finish_divide
div_on_cycles-Answers d m a b k n la lb early late =
    rw (wait, nonzero, enough) (refl, refl, refl, refl, division_lem m a b la lb)
  where
    wait : leb 8 k ≡ false
    wait = ground arith

    nonzero : (8 - k == 0) ≡ false
    nonzero = ground arith

    enough : leb (8 - k) n ≡ true
    enough = ground arith
