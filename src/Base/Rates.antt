-- ===== src/Base/Rates.antt =====
-- Dividing by an accumulator: what is left of a sum at each step, and how often it overflows.
use native.Mathlib.Nat.{
  add-mul-div_left, add-mul-mod_self_left, div-eq_of_lt, mod-eq_of_lt, div-add-mod', mod-lt,
}
use mathlib.Core.Path.{◌≡◌, ap, ◌∙◌}
use Prim.Native.Nat.{ℕ, suc, ◌+◌, ◌-◌, ◌*◌, ◌/◌, ◌%◌, ◌≤◌, ◌<◌}
use native.Mathlib.Omega.{arith}
use rp2040_simlator.Base.Tests.{leb, if◌then◌else◌}
use rp2040_simlator.Base.Words.{of_bool}

-- Quotient and remainder are unique.
pub div_unique : (p q r n : ℕ) → r < p → n ≡ r + p * q → (n / p ≡ q) × (n % p ≡ r)
div_unique p q r n lt e = (
  ap (λ x. x / p) e ∙ add-mul-div_left r q pos ∙ ap (λ x. x + q) (div-eq_of_lt lt) ∙ none_more q,
  ap (λ x. x % p) e ∙ add-mul-mod_self_left r p q ∙ mod-eq_of_lt lt,
)
  where
    pos : 0 < p
    pos = omega (arith, lt)

    none_more : (k : ℕ) → 0 + k ≡ k
    none_more k = omega arith

-- The accumulator after f is added, which overflows at p.
abbrev pub rest_of : ℕ → ℕ → ℕ → ℕ
rest_of p f acc = if leb p (acc + f) then acc + f - p else acc + f

rest_of_lem :
    (p f acc : ℕ)
    → f ≤ p
    → acc < p
    → (rest_of p f acc + p * of_bool (leb p (acc + f)) ≡ acc + f) × (rest_of p f acc < p)
rest_of_lem p f acc le lt = ground (arith, le, lt)

-- One step before n others.
pub rest_of-first :
    (p f acc n : ℕ)
    → f ≤ p
    → acc < p
    → ((acc + suc n * f) / p ≡ of_bool (leb p (acc + f)) + (rest_of p f acc + n * f) / p)
      × ((acc + suc n * f) % p ≡ (rest_of p f acc + n * f) % p)
rest_of-first p f acc n le lt =
    let (sum, below) = rest_of_lem p f acc le lt in
    let t = rest_of p f acc + n * f in
    div_unique p (of_bool (leb p (acc + f)) + t / p) (t % p) (acc + suc n * f)
      (mod-lt t (omega (arith, lt)))
      (add_up (of_bool (leb p (acc + f))) (rest_of p f acc) (t / p) (t % p) sum (div-add-mod' t p))
  where
    add_up :
        (b r q m : ℕ)
        → r + p * b ≡ acc + f
        → q * p + m ≡ r + n * f
        → acc + suc n * f ≡ m + p * (b + q)
    add_up b r q m e d = grind (arith, e, d)

-- One step after a sum that stands in the accumulator.
pub rest_of-last :
    (p f a : ℕ)
    → 0 < p
    → f ≤ p
    → ((a + f) / p ≡ a / p + of_bool (leb p (a % p + f))) × ((a + f) % p ≡ rest_of p f (a % p))
rest_of-last p f a pos le =
    let (sum, below) = rest_of_lem p f (a % p) le (mod-lt a pos) in
    div_unique p (a / p + of_bool (leb p (a % p + f))) (rest_of p f (a % p)) (a + f) below (
      add_up (of_bool (leb p (a % p + f))) (rest_of p f (a % p)) (a / p) (a % p) sum
        (div-add-mod' a p))
  where
    add_up : (b r q m : ℕ) → r + p * b ≡ m + f → q * p + m ≡ a → a + f ≡ r + p * (q + b)
    add_up b r q m e d = grind (arith, e, d)
