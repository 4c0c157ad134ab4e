-- ===== src/Peripherals/Watchdog/Timeout.antt =====
-- When an unfed watchdog resets the machine.
use rp2040_simlator.Base.{
  ℕ, zero, suc, ◌+◌, ◌-◌, ◌*◌, ◌/◌, ◌^◌, ◌≤◌, ◌<◌, ◌≡◌, refl, ◌∙◌, ap, true, false, arith, leb,
  if◌then◌else◌, Bool-cases, inl, inr, u64, Option, none, some,
}
use rp2040_simlator.Peripherals.Watchdog.{
  Watchdog, Providers, Reset, requested, k_reason_timer, fire_reset, count_down, on_cycles,
}

-- The microseconds that a count lasts: two of it go in each, and at least one passes.
abbrev pub life : ℕ → ℕ
life c = if leb c 2 then 1 else (c + 1) / 2

-- The watchdog after k microseconds and r more clocks.
abbrev pub expected : Providers → ℕ → ℕ → Watchdog → Option Reset × Watchdog
expected p k r w =
    if leb (life w.counter) k
    then (
      some (requested p),
      record w {
        accum = w.accum - life w.counter * w.cycles_per_us;
        reason = k_reason_timer;
        counter = 0;
        enabled = false;
      },
    )
    else (none, record w { accum = r; counter = w.counter - 2 * k })

-- What a microsecond leaves is what is expected of the rest.
abbrev ticked : Watchdog → Watchdog
ticked w = record w { accum = w.accum - w.cycles_per_us; counter = w.counter - 2 }

life-ticked : (c : ℕ) → leb c 2 ≡ false → life c ≡ 1 + life (c - 2)
life-ticked c e = ground arith

one_more : (n x p : ℕ) → n - p - x * p ≡ n - (1 + x) * p
one_more n x p = grind arith

later :
    (p : Providers) (k r : ℕ) (w : Watchdog)
    → leb w.counter 2 ≡ false
    → expected p k r (ticked w) ≡ expected p (suc k) r w
later p k r w e =
    ground
      (arith, e, life-ticked w.counter e, one_more w.accum (life (w.counter - 2)) w.cycles_per_us)

count_down_lem :
    (p : Providers) (fuel k r : ℕ) (w : Watchdog)
    → w.accum ≤ fuel
    → 0 < w.cycles_per_us
    → k * w.cycles_per_us + r ≡ w.accum
    → r < w.cycles_per_us
    → count_down p fuel w ≡ expected p k r w
unfolding count_down fire_reset
count_down_lem p zero zero r w le pos sum lt = ground arith
count_down_lem p zero (suc k) r w le pos sum lt = absurd (grind (arith, le, pos, sum))
count_down_lem p (suc fuel) zero r w le pos sum lt = ground arith
count_down_lem p (suc fuel) (suc k) r w le pos sum lt = elim (Bool-cases (leb w.counter 2)) [
  | inl e ↦ ground (arith, e, full, one e)
  | inr e ↦
      goes_on e
      ∙ count_down_lem p fuel k r (ticked w) (omega (arith, le, pos)) pos (grind (arith, sum)) lt
      ∙ later p k r w e
]
  where
    full : leb w.cycles_per_us w.accum ≡ true
    full = grind (arith, sum)

    one : leb w.counter 2 ≡ true → leb (life w.counter) (suc k) ≡ true
    one e = ground arith

    goes_on : leb w.counter 2 ≡ false → count_down p (suc fuel) w ≡ count_down p fuel (ticked w)
    goes_on e = rw (full, e) refl

-- An enabled watchdog that is given clocks worth k microseconds and r more resets the machine if and
-- only if k is at least the life of its counter. It then stands disabled with a counter of 0, the
-- timer as the reason, its other registers as they were, and the clocks that are left in its
-- accumulator. Otherwise its counter is 2 lower for each microsecond. The accumulator does not wrap.
pub on_cycles-expires :
    (p : Providers) (w : Watchdog) (n k r : ℕ)
    → w.enabled ≡ true
    → w.accum + n < 2 ^ 64
    → k * w.cycles_per_us + r ≡ w.accum + n
    → r < w.cycles_per_us
    → on_cycles p n w ≡ expected p k r (record w { accum = w.accum + n })
unfolding on_cycles
on_cycles-expires p w n k r on lt sum small =
    ap
      (λ b.
        if b
        then count_down p (u64 (w.accum + n)) (record w { accum = u64 (w.accum + n) })
        else (none, w))
      on
    ∙ ap (λ m. count_down p m (record w { accum = m })) no_wrap
    ∙ count_down_lem p (w.accum + n) k r (record w { accum = w.accum + n }) (omega arith)
        (omega (arith, small)) sum small
  where
    no_wrap : u64 (w.accum + n) ≡ w.accum + n
    no_wrap = omega (arith, lt)
