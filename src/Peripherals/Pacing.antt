-- ===== src/Peripherals/Pacing.antt =====
-- The loop by which peripherals turn system clocks into ticks:
-- `accum_ += n; while (accum_ >= period) { accum_ -= period; tick(); }`.
use native.Mathlib.Nat.{zero-add}
use rp2040_simlator.Base.{
  ℕ, zero, suc, ◌+◌, ◌-◌, ◌*◌, ◌≤◌, ◌<◌, ◌≡◌, refl, sym, ◌∙◌, ap, true, false, arith, leb,
  if◌then◌else◌, Bool-cases, inl, inr, subst,
}

suc-add : (j k : ℕ) → suc j + k ≡ suc (j + k)
suc-add j k = omega arith

module _ {S : Type 0} (tick : S → S) where
  -- The tick k times.
  abbrev pub ticks : ℕ → S → S
  ticks zero s = s
  ticks (suc k) s = ticks k (tick s)

  pub ticks-add : (j k : ℕ) (s : S) → ticks (j + k) s ≡ ticks k (ticks j s)
  ticks-add zero k s = ap (λ n. ticks n s) (zero-add k)
  ticks-add (suc j) k s = ap (λ n. ticks n s) (suc-add j k) ∙ ticks-add j k (tick s)

-- Rounds of suc n ticks, the first one taken off.
pub ticks-rounds :
    {S : Type 0} (tick : S → S) (n k : ℕ) (s : S)
    → ticks tick (suc k * suc n) s ≡ ticks tick (k * suc n) (ticks tick (suc n) s)
ticks-rounds tick n k s =
    ap (λ j. ticks tick j s) (count n k) ∙ ticks-add tick (suc n) (k * suc n) s
  where
    count : (n k : ℕ) → suc k * suc n ≡ suc n + k * suc n
    count n k = grind arith

-- A counter that each tick lowers, down to the tick that finishes.
pub ticks_countdown :
    {S : Type 0} (tick : S → S) (put : ℕ → S → S) (finish : S → S)
    → ((k : ℕ) (s : S) → tick (put (suc (suc k)) s) ≡ put (suc k) s)
    → ((s : S) → tick (put 1 s) ≡ finish s)
    → (k : ℕ) (s : S) → ticks tick (suc k) (put (suc k) s) ≡ finish s
ticks_countdown tick put finish lower last zero s = last s
ticks_countdown tick put finish lower last (suc k) s =
    ap (ticks tick (suc k)) (lower k s) ∙ ticks_countdown tick put finish lower last k s

module _ {S : Type 0} (tick : S → S) (period : ℕ) where
  -- The loop with fuel. `acc` is enough where the period is not 0.
  unfoldable pub drain : ℕ → ℕ → S → ℕ × S
  drain zero acc s = (acc, s)
  drain (suc fuel) acc s =
      let rest = drain fuel (acc - period) (tick s) in if leb period acc then rest else (acc, s)

  -- More fuel than the accumulator holds changes nothing.
  drain_enough :
      (f g acc : ℕ) (s : S) → 0 < period → acc ≤ f → acc ≤ g → drain f acc s ≡ drain g acc s
  unfolding drain
  drain_enough zero zero acc s p h k = refl
  drain_enough zero (suc g) acc s p h k = elim (Bool-cases (leb period acc)) [
    | inl e ↦ absurd (ground arith)
    | inr e ↦ rw (e) refl
  ]
  drain_enough (suc f) zero acc s p h k = elim (Bool-cases (leb period acc)) [
    | inl e ↦ absurd (ground arith)
    | inr e ↦ rw (e) refl
  ]
  drain_enough (suc f) (suc g) acc s p h k = elim (Bool-cases (leb period acc)) [
    | inl e ↦ rw (e) (drain_enough f g (acc - period) (tick s) p (omega arith) (omega arith))
    | inr e ↦ rw (e) refl
  ]

  -- What is left over when the loop stops counts for later clocks.
  drain_split :
      (f g h acc b : ℕ) (s : S)
      → 0 < period
      → acc ≤ f
      → acc + b ≤ g
      → let (r, s') = drain f acc s in r + b ≤ h → drain g (acc + b) s ≡ drain h (r + b) s'
  unfolding drain
  drain_split zero g h acc b s p lf lg lh = drain_enough g h (acc + b) s p lg lh
  drain_split (suc f) zero h acc b s p lf lg lh = elim (Bool-cases (leb period acc)) [
    | inl e ↦ absurd (ground arith)
    | inr e ↦ rw (e) (drain_enough zero h (acc + b) s p lg (subst (λ x. x.0 + b ≤ h) (stops e) lh))
  ]
    where
      stops : leb period acc ≡ false → drain (suc f) acc s ≡ (acc, s)
      stops e = rw (e) refl
  drain_split (suc f) (suc g) h acc b s p lf lg lh = elim (Bool-cases (leb period acc)) [
    | inl e ↦
        rw (more e, e)
          (ap (λ k. drain g k (tick s)) (moved e)
            ∙ drain_split f g h (acc - period) b (tick s) p (omega arith) (ground (arith, e))
                (subst (λ x. x.0 + b ≤ h) (goes e) lh))
    | inr e ↦
        rw (e) (drain_enough (suc g) h (acc + b) s p lg (subst (λ x. x.0 + b ≤ h) (stops e) lh))
  ]
    where
      stops : leb period acc ≡ false → drain (suc f) acc s ≡ (acc, s)
      stops e = rw (e) refl

      goes : leb period acc ≡ true → drain (suc f) acc s ≡ drain f (acc - period) (tick s)
      goes e = rw (e) refl

      more : leb period acc ≡ true → leb period (acc + b) ≡ true
      more e = ground arith

      moved : leb period acc ≡ true → acc + b - period ≡ acc - period + b
      moved e = ground arith

  -- The loop runs until the accumulator is below the period, and takes the period off as often as
  -- it ticks.
  pub drain_lem :
      (f acc : ℕ) (s : S)
      → 0 < period
      → acc ≤ f
      → (k r : ℕ) × (drain f acc s ≡ (r, ticks tick k s)) × (k * period + r ≡ acc) × (r < period)
  unfolding drain
  drain_lem zero acc s p h = (0, acc, refl, omega arith, omega arith)
  drain_lem (suc f) acc s p h = elim (Bool-cases (leb period acc)) [
    | inl e ↦
        let (k, r, eq, sum, lt) = drain_lem f (acc - period) (tick s) p (omega arith) in
        (suc k, r, rw (e) eq, grind (arith, sum, e), lt)
    | inr e ↦ (0, acc, rw (e) refl, omega arith, ground arith)
  ]

  -- The clocks of two portions are drained as those of one.
  pub drain-add :
      (acc b r : ℕ) (s s' : S)
      → 0 < period
      → drain acc acc s ≡ (r, s')
      → drain (acc + b) (acc + b) s ≡ drain (r + b) (r + b) s'
  drain-add acc b r s s' p eq =
      drain_split acc (acc + b) (r + b) acc b s p (omega arith) (omega arith)
        (subst (λ x. x.0 + b ≤ r + b) (sym eq) (omega arith))
      ∙ ap (λ x. drain (r + b) (x.0 + b) x.1) eq
