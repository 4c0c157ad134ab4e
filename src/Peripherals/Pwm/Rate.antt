-- ===== src/Peripherals/Pwm/Rate.antt =====
-- How often a PWM slice that runs freely counts.
use native.Mathlib.Nat.{add-mod_right, div-eq_of_lt, mod-eq_of_lt}
use rp2040_simlator.Base.{
  ℕ, zero, suc, ◌+◌, ◌*◌, ◌/◌, ◌%◌, ◌^◌, ◌≤◌, ◌<◌, ◌≡◌, refl, sym, ◌∙◌, ap, subst, arith, of_bool,
  Bool, true, false, leb, if◌then◌else◌, length, length-set, get_or-set_self, set, Bool-cases, inl,
  inr,
}
use rp2040_simlator.Base.Rates.{rest_of, rest_of-first}
use rp2040_simlator.Peripherals.Pacing.{ticks}
use rp2040_simlator.Peripherals.Pwm.{
  Pwm, Slice, fresh_slice, slice, div_mode, period, pace, forward, update_outputs, advance_slice,
  clock_slice,
}

-- The fraction of the divider, in sixteenths.
abbrev pub fraction : Slice → ℕ
fraction sl = sl.div % 2 ^ 4

-- A slice that runs freely and counts up only, and whose integer divider is above 1 or whose
-- fraction is 0.
pub record IsFree (sl : Slice) : Type 0 where
  pub free : div_mode sl ≡ 0
  pub upward : sl.csr / 2 % 2 ≡ 0
  pub top_fits : sl.top < 2 ^ 16
  pub counter : sl.ctr ≤ sl.top
  pub step_fits : 16 + fraction sl ≤ period sl
  pub accum : sl.frac_accum < period sl

-- The slice after a clock.
abbrev counted : Slice → Slice
counted sl = let (due, sl') = pace sl in if due then (forward sl').1 else sl'

slice-set :
    (p : Pwm) (s : ℕ) (sl : Slice)
    → s < length p.slices
    → slice (record p { slices = set p.slices s sl }) s ≡ sl
slice-set p s sl h = get_or-set_self p.slices s sl fresh_slice h

advance_slice-set :
    (p : Pwm) (s : ℕ) (sl : Slice)
    → s < length p.slices
    → let p' = advance_slice s (record p { slices = set p.slices s sl }) in
      (slice p' s ≡ (forward sl).1) × (length p'.slices ≡ length p.slices)
unfolding advance_slice update_outputs
advance_slice-set p s sl h = (
  get_or-set_self (set p.slices s sl) s (forward (slice q s)).1 fresh_slice
        (subst (λ n. s < n) (sym (length-set p.slices s sl)) h)
      ∙ ap (λ x. (forward x).1) (slice-set p s sl h),
  length-set (set p.slices s sl) s (forward (slice q s)).1 ∙ length-set p.slices s sl,
)
  where
    q : Pwm
    q = record p { slices = set p.slices s sl }

clock_slice_lem :
    (p : Pwm) (s : ℕ)
    → s < length p.slices
    → div_mode (slice p s) ≡ 0
    → let p' = clock_slice s p in
      (slice p' s ≡ counted (slice p s)) × (length p'.slices ≡ length p.slices)
unfolding clock_slice
clock_slice_lem p s h free =
    let sl' = (pace (slice p s)).1 in
    elim (Bool-cases (pace (slice p s)).0) [
      | inl due ↦ rw (free, due) (advance_slice-set p s sl' h)
      | inr waits ↦ rw (free, waits) (slice-set p s sl' h, length-set p.slices s sl')
    ]

-- One clock of a slice, and what it keeps.
Next : Slice → Slice → Type 0
Next sl sl' =
    let due = leb (period sl) (sl.frac_accum + (16 + fraction sl)) in
    (sl'.frac_accum ≡ rest_of (period sl) (16 + fraction sl) sl.frac_accum)
    × (sl'.ctr ≡ (if due then (if leb sl.top sl.ctr then 0 else sl.ctr + 1) else sl.ctr))
    × (sl'.csr ≡ sl.csr)
    × (sl'.div ≡ sl.div)
    × (sl'.top ≡ sl.top)

counted_lem : (sl : Slice) → IsFree sl → Next sl (counted sl)
unfolding pace forward Next
counted_lem sl h = ground (arith, h.upward, h.top_fits, h.counter, h.step_fits, h.accum)

Next-IsFree : (sl sl' : Slice) → IsFree sl → Next sl sl' → IsFree sl'
unfolding Next
Next-IsFree sl sl' h (acc, ctr, csr, div, top) = record {
  free = ground (arith, csr, h.free);
  upward = ground (arith, csr, h.upward);
  top_fits = ground (arith, top, h.top_fits);
  counter = rw (ctr, top) (ground (arith, h.counter));
  step_fits = rw div h.step_fits;
  accum = rw (acc, div) (ground (arith, h.step_fits, h.accum));
}

-- A slice n clocks later: the sum of its steps is divided by the period, the accumulator has the
-- rest, and the counter has gone up by the quotient, modulo TOP + 1.
abbrev pub Rated : ℕ → Slice → Slice → Type 0
Rated n sl sl' =
    let sum = sl.frac_accum + n * (16 + fraction sl) in
    (sl'.frac_accum ≡ sum % period sl)
    × (sl'.ctr ≡ (sl.ctr + sum / period sl) % (sl.top + 1))
    × (sl'.csr ≡ sl.csr)
    × (sl'.div ≡ sl.div)
    × (sl'.top ≡ sl.top)

-- The counter after the first count.
wrapped_first :
    (due : Bool) (ctr top k : ℕ)
    → ctr ≤ top
    → ((if due then (if leb top ctr then 0 else ctr + 1) else ctr) + k) % (top + 1)
      ≡ (ctr + (of_bool due + k)) % (top + 1)
wrapped_first false ctr top k h = ap (λ x. x % (top + 1)) (omega arith)
wrapped_first true ctr top k h = elim (Bool-cases (leb top ctr)) [
  | inl p ↦
      rw p (sym (ap (λ x. x % (top + 1)) (ground (arith, p, h)) ∙ add-mod_right (0 + k) (top + 1)))
  | inr p ↦ rw p (ap (λ x. x % (top + 1)) (omega arith))
]

Rated-zero : (sl : Slice) → IsFree sl → Rated 0 sl sl
Rated-zero sl h = (
  sym (ap (λ x. x % period sl) (same sl.frac_accum) ∙ mod-eq_of_lt h.accum),
  sym (
      ap (λ x. (sl.ctr + x) % (sl.top + 1))
        (ap (λ x. x / period sl) (same sl.frac_accum) ∙ div-eq_of_lt h.accum)
      ∙ ap (λ x. x % (sl.top + 1)) (none_more sl.ctr)
      ∙ mod-eq_of_lt (omega (arith, h.counter))),
  refl,
  refl,
  refl,
)
  where
    same : (a : ℕ) → a + 0 * (16 + fraction sl) ≡ a
    same a = omega arith

    none_more : (a : ℕ) → a + 0 ≡ a
    none_more a = omega arith

Rated-suc :
    (n : ℕ) (sl sl1 sl2 : Slice) → IsFree sl → Next sl sl1 → Rated n sl1 sl2 → Rated (suc n) sl sl2
unfolding Next
Rated-suc n sl sl1 sl2 h (acc, ctr, csr, div, top) (acc', ctr', csr', div', top') =
    let f = 16 + fraction sl in
    let (q, r) = rest_of-first (period sl) f sl.frac_accum n h.step_fits h.accum in
    let due = leb (period sl) (sl.frac_accum + f) in
    (
      acc' ∙ rw (acc, div, r) refl,
      ctr'
          ∙ rw (acc, div, ctr, top, q)
              (wrapped_first due sl.ctr sl.top
                ((rest_of (period sl) f sl.frac_accum + n * f) / period sl) h.counter),
      csr' ∙ csr,
      div' ∙ div,
      top' ∙ top,
    )

-- A slice that runs freely and counts up, with a counter and an accumulator in range, and whose
-- integer divider is above 1 or whose fraction is 0, at each of n clocks: it counts as often as 16
-- times the integer divider goes into the accumulator plus n times 16 plus the fraction, modulo TOP
-- + 1, and the accumulator has the rest. CSR, DIV and TOP stay as they are. So a fraction makes the
-- slice count more often.
pub clock_slice-Rated :
    (n : ℕ) (p : Pwm) (s : ℕ)
    → s < length p.slices
    → IsFree (slice p s)
    → Rated n (slice p s) (slice (ticks (clock_slice s) n p) s)
clock_slice-Rated zero p s h free = Rated-zero (slice p s) free
clock_slice-Rated (suc n) p s h free =
    let (e, len) = clock_slice_lem p s h free.free in
    let p1 = clock_slice s p in
    let next = subst (Next (slice p s)) (sym e) (counted_lem (slice p s) free) in
    Rated-suc n (slice p s) (slice p1 s) (slice (ticks (clock_slice s) n p1) s) free next (
      clock_slice-Rated n p1 s (subst (λ k. s < k) (sym len) h)
        (Next-IsFree (slice p s) (slice p1 s) free next))
