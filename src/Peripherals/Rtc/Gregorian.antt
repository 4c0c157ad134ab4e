-- ===== src/Peripherals/Rtc/Gregorian.antt =====
-- The Gregorian calendar in closed form, against the tables of peripherals/rtc.cpp.
use rp2040_simlator.Base.{
  ℕ, zero, suc, ◌+◌, ◌-◌, ◌/◌, ◌%◌, ◌^◌, ◌≤◌, ◌<◌, ◌≡◌, refl, true, false, ltb, ◌==◌, if◌then◌else◌,
  arith, of_bool, List, [], ◌∷◌, get_or, u32, subst,
}
use rp2040_simlator.Peripherals.Rtc.{is_leap, days_in_month, month_table}

-- How many of the years 0 to y - 1 are leap years: those that 4 divides, without those that 100
-- divides, with those that 400 divides.
abbrev pub leap_years : ℕ → ℕ
leap_years y = (y + 3) / 4 - (y + 99) / 100 + (y + 399) / 400

-- The days before month m in a year that is not a leap year.
abbrev pub month_starts : List ℕ
month_starts = 0 ∷ 0 ∷ 31 ∷ 59 ∷ 90 ∷ 120 ∷ 151 ∷ 181 ∷ 212 ∷ 243 ∷ 273 ∷ 304 ∷ 334 ∷ 365 ∷ []

-- The leap day, from March on.
abbrev pub leap_day : ℕ → ℕ → ℕ
leap_day y m = if ltb 2 m then leap_years (y + 1) - leap_years y else 0

abbrev pub month_start : ℕ → ℕ → ℕ
month_start y m = get_or month_starts m 0 + leap_day y m

abbrev pub month_days : ℕ → ℕ → ℕ
month_days y m = month_start y (m + 1) - month_start y m

next4 : (y : ℕ) → (y + 4) / 4 ≡ (y + 3) / 4 + of_bool (y % 4 == 0)
next4 y = ground arith

next100 : (y : ℕ) → (y + 100) / 100 ≡ (y + 99) / 100 + of_bool (y % 100 == 0)
next100 y = ground arith

next400 : (y : ℕ) → (y + 400) / 400 ≡ (y + 399) / 400 + of_bool (y % 400 == 0)
next400 y = ground arith

leap :
    (y : ℕ)
    → of_bool (is_leap y) + of_bool (y % 100 == 0) ≡ of_bool (y % 4 == 0) + of_bool (y % 400 == 0)
leap y = ground arith

pub leap_years_next : (y : ℕ) → leap_years (y + 1) ≡ leap_years y + of_bool (is_leap y)
leap_years_next y = omega (arith, next4 y, next100 y, next400 y, leap y)

pub leap_day_lem : (y : ℕ) → leap_years (y + 1) - leap_years y ≡ of_bool (is_leap y)
leap_day_lem y = omega (arith, leap_years_next y)

-- The months from March on.
later :
    (k : ℕ)
    → k < 10
    → get_or month_starts (k + 4) 0 ≡ get_or month_starts (k + 3) 0 + get_or month_table (k + 2) 0
later k lt = ground (arith, lt)

days_later : (y k : ℕ) → k < 10 → days_in_month y (k + 3) ≡ get_or month_table (k + 2) 0
unfolding days_in_month
days_later y k lt = rw (not_february k, index k lt) refl
  where
    not_february : (j : ℕ) → (j + 3 == 2) ≡ false
    not_february j = ground arith

    index : (j : ℕ) → j < 10 → u32 (j + 3 + 2 ^ 32 - 1) % 12 ≡ j + 2
    index j l = omega (arith, l)

from_march :
    (y k : ℕ) → k < 10 → month_start y (k + 3 + 1) ≡ month_start y (k + 3) + days_in_month y (k + 3)
from_march y k lt =
    rw (days_later y k lt, past (k + 3) (omega arith), past (k + 3 + 1) (omega arith), four k)
      (omega (arith, later k lt))
  where
    past : (m : ℕ) → 2 < m → ltb 2 m ≡ true
    past m l = ground (arith, l)

    four : (j : ℕ) → j + 3 + 1 ≡ j + 4
    four j = omega arith

pub month_next :
    (y m : ℕ) → 1 ≤ m → m ≤ 12 → month_start y (m + 1) ≡ month_start y m + days_in_month y m
unfolding days_in_month
month_next y zero lo hi = absurd (omega (arith, lo))
month_next y (suc zero) lo hi = refl
month_next y (suc (suc zero)) lo hi = ground (arith, leap_day_lem y)
month_next y (suc (suc (suc k))) lo hi =
    subst (λ m. month_start y (m + 1) ≡ month_start y m + days_in_month y m) (three k)
      (from_march y k (omega (arith, hi)))
  where
    three : (j : ℕ) → j + 3 ≡ suc (suc (suc j))
    three j = omega arith

pub month_days-days_in_month : (y m : ℕ) → 1 ≤ m → m ≤ 12 → month_days y m ≡ days_in_month y m
month_days-days_in_month y m lo hi = omega (arith, month_next y m lo hi)

pub year_length : (y : ℕ) → month_start y 13 ≡ 365 + of_bool (is_leap y)
year_length y = omega (arith, leap_day_lem y)
