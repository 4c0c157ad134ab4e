-- ===== src/Peripherals/Rtc/Calendar.antt =====
-- The clock against the calendar: a second is the next number of a count of seconds.
use rp2040_simlator.Base.{
  ℕ, zero, suc, ◌+◌, ◌-◌, ◌*◌, ◌%◌, ◌^◌, ◌≤◌, ◌<◌, ◌≡◌, refl, ap, false, List, [], ◌∷◌, ltb, leb,
  get_or, length, u32, arith, Bool-cases, inl, inr,
}
use rp2040_simlator.Peripherals.Rtc.{DateTime, month_table, days_in_month, next_day, next_second}
use rp2040_simlator.Peripherals.Rtc.Gregorian.{
  leap_years, month_start, month_days, leap_years_next, month_next, month_days-days_in_month,
  year_length,
}

-- The day and the second that a date stands for, counted from the start of year 0.
pub day_number : DateTime → ℕ
day_number t = 365 * t.year + leap_years t.year + month_start t.year t.month + (t.day - 1)

pub second_number : DateTime → ℕ
second_number t = ((day_number t * 24 + t.hour) * 60 + t.min) * 60 + t.sec

-- A date of the Gregorian calendar, with a time of the day.
pub record IsDate (t : DateTime) : Type 0 where
  pub a_month : (1 ≤ t.month) × (t.month ≤ 12)
  pub a_day : (1 ≤ t.day) × (t.day ≤ month_days t.year t.month)
  pub a_time : (t.hour < 24) × (t.min < 60) × (t.sec < 60)
  pub a_week : t.dotw < 7

-- The same with the clock's table.
record IsTabled (t : DateTime) : Type 0 where
  a_month : (1 ≤ t.month) × (t.month ≤ 12)
  a_day : (1 ≤ t.day) × (t.day ≤ days_in_month t.year t.month)
  a_time : (t.hour < 24) × (t.min < 60) × (t.sec < 60)
  a_week : t.dotw < 7

IsDate-IsTabled : (t : DateTime) → IsTabled t → IsDate t
IsDate-IsTabled t d = record {
  a_month = d.a_month;
  a_day = (
    d.a_day.0,
    omega (arith, d.a_day, month_days-days_in_month t.year t.month d.a_month.0 d.a_month.1),
  );
  a_time = d.a_time;
  a_week = d.a_week;
}

IsTabled-IsDate : (t : DateTime) → IsDate t → IsTabled t
IsTabled-IsDate t d = record {
  a_month = d.a_month;
  a_day = (
    d.a_day.0,
    omega (arith, d.a_day, month_days-days_in_month t.year t.month d.a_month.0 d.a_month.1),
  );
  a_time = d.a_time;
  a_week = d.a_week;
}

Within : ℕ → ℕ → List ℕ → Type 0
Within lo hi [] = lo ≤ hi
Within lo hi (x ∷ xs) = (lo ≤ x) × (x ≤ hi) × Within lo hi xs

get_or-Within :
    (lo hi : ℕ) (xs : List ℕ) (i : ℕ)
    → Within lo hi xs
    → i < length xs
    → (lo ≤ get_or xs i 0) × (get_or xs i 0 ≤ hi)
unfolding Within
get_or-Within lo hi [] i h lt = absurd (omega arith)
get_or-Within lo hi (x ∷ xs) zero (a, b, rest) lt = (a, b)
get_or-Within lo hi (x ∷ xs) (suc i) (a, b, rest) lt =
    get_or-Within lo hi xs i rest (omega (arith, lt))

month_table-Within : Within 28 31 month_table
unfolding Within
month_table-Within = ground arith

month_length : (y m : ℕ) → (28 ≤ days_in_month y m) × (days_in_month y m ≤ 31)
unfolding days_in_month
month_length y m = ground (
  arith,
  get_or-Within 28 31 month_table (u32 (m + 2 ^ 32 - 1) % 12) month_table-Within (omega arith),
)

-- A day's carries count one day on.
next_day_lem :
    (t : DateTime)
    → IsTabled t
    → t.year + 1 < 2 ^ 32
    → (day_number (next_day t) ≡ suc (day_number t))
      × IsTabled (next_day t)
      × ((next_day t).hour ≡ t.hour)
      × ((next_day t).min ≡ t.min)
      × ((next_day t).sec ≡ t.sec)
unfolding next_day day_number
next_day_lem t d small = elim (Bool-cases (leb (u32 (t.day + 1)) (days_in_month t.year t.month))) [
  | inl e ↦
      rw (e, one_day)
        (
          omega (arith, d.a_day),
          record {
            a_month = d.a_month;
            a_day = (omega arith, ground (arith, e, one_day));
            a_time = d.a_time;
            a_week = d.a_week;
          },
          refl,
          refl,
          refl,
        )
  | inr e ↦ elim (Bool-cases (leb (u32 (t.month + 1)) 12)) [
    | inl f ↦
        rw (e, f, one_month)
          (
            ground (arith, e, one_day, d.a_day, month_next t.year t.month d.a_month.0 d.a_month.1),
            record {
              a_month = (omega arith, ground (arith, f, one_month));
              a_day = (omega arith, omega (arith, month_length t.year (t.month + 1)));
              a_time = d.a_time;
              a_week = d.a_week;
            },
            refl,
            refl,
            refl,
          )
    | inr f ↦
        rw (e, f, one_year)
          (
            ground (
              arith,
              e,
              one_day,
              d.a_day,
              ap (days_in_month t.year) (december f),
              ap (month_start t.year) (december f),
              leap_years_next t.year,
              year_length t.year,
              month_next t.year 12 (omega arith) (omega arith),
            ),
            record {
              a_month = (omega arith, omega arith);
              a_day = (omega arith, omega (arith, month_length (t.year + 1) 1));
              a_time = d.a_time;
              a_week = d.a_week;
            },
            refl,
            refl,
            refl,
          )
  ]
]
  where
    one_day : u32 (t.day + 1) ≡ t.day + 1
    one_day = omega (arith, d.a_day, month_length t.year t.month)

    one_month : u32 (t.month + 1) ≡ t.month + 1
    one_month = omega (arith, d.a_month)

    one_year : u32 (t.year + 1) ≡ t.year + 1
    one_year = omega (arith, small)

    december : leb (u32 (t.month + 1)) 12 ≡ false → t.month ≡ 12
    december f = ground (arith, f, one_month, d.a_month)

next_second_lem :
    (t : DateTime)
    → IsTabled t
    → t.year + 1 < 2 ^ 32
    → (second_number (next_second t) ≡ suc (second_number t)) × IsTabled (next_second t)
unfolding next_second second_number day_number
next_second_lem t d small = elim (Bool-cases (ltb (u32 (t.sec + 1)) 60)) [
  | inl e ↦ rw (e) (
    ground (arith, e, d.a_time),
    record {
      a_month = d.a_month;
      a_day = d.a_day;
      a_week = d.a_week;
      a_time = ground (arith, e, d.a_time);
    },
  )
  | inr e ↦ elim (Bool-cases (ltb (u32 (t.min + 1)) 60)) [
    | inl f ↦
        rw (e, f)
          (
            ground (arith, e, f, d.a_time),
            record {
              a_month = d.a_month;
              a_day = d.a_day;
              a_week = d.a_week;
              a_time = ground (arith, f, d.a_time);
            },
          )
    | inr f ↦ elim (Bool-cases (ltb (u32 (t.hour + 1)) 24)) [
      | inl g ↦
          rw (e, f, g)
            (
              ground (arith, e, f, g, d.a_time),
              record {
                a_month = d.a_month;
                a_day = d.a_day;
                a_week = d.a_week;
                a_time = ground (arith, g, d.a_time);
              },
            )
      | inr g ↦
          let (next, valid, h, m, s) = next_day_lem midnight midnight-IsTabled small in
          rw (e, f, g) (ground (arith, e, f, g, d.a_time, next, h, m, s), valid)
    ]
  ]
]
  where
    midnight : DateTime
    midnight = record t { sec = 0; min = 0; hour = 0; dotw = u32 (t.dotw + 1) % 7 }

    midnight-IsTabled : IsTabled midnight
    midnight-IsTabled = record {
      a_month = d.a_month;
      a_day = d.a_day;
      a_time = (omega arith, omega arith, omega arith);
      a_week = omega arith;
    }

-- From a date of the Gregorian calendar, whose leap years and month lengths are given in closed
-- form, and in a year whose successor fits in 32 bits, the carries of a tick lead to the date whose
-- number of seconds since the start of year 0 is one more, and it is a date of that calendar again.
pub next_second-counts :
    (t : DateTime)
    → IsDate t
    → t.year + 1 < 2 ^ 32
    → (second_number (next_second t) ≡ suc (second_number t)) × IsDate (next_second t)
next_second-counts t d small =
    let (next, valid) = next_second_lem t (IsTabled-IsDate t d) small in
    (next, IsDate-IsTabled (next_second t) valid)
