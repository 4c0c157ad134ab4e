-- ===== src/Core/Scs/SysTick.antt =====
-- The period of SysTick.
use native.Mathlib.Nat.{add-mod_right, mod-eq_of_lt}
use rp2040_simlator.Base.{
  ℕ, zero, suc, ◌+◌, ◌-◌, ◌*◌, ◌%◌, ◌^◌, ◌≤◌, ◌<◌, ◌≡◌, refl, sym, ◌∙◌, ap, ap₂, Bool, true, ◌&&◌,
  ◌||◌, ltb, leb, ◌==◌, if◌then◌else◌, test_bit, arith,
}
use rp2040_simlator.Base.Bits.{test_bit-set_bit}
use rp2040_simlator.Core.Cpu.{CoreState, exc_systick, is_pending}
use rp2040_simlator.Core.Interrupts.Lines.{is_pending-pend_exception}
use rp2040_simlator.Core.Scs.{Bank, Scs, cur, bank, systick_cycle, on_cycles}
use rp2040_simlator.Peripherals.Pacing.{ticks}

-- The clocks until the counter next comes down to 0.
abbrev pub until_zero : ℕ → ℕ → ℕ
until_zero reload v = if v == 0 then reload + 1 else v

-- Whether it does so within n clocks.
abbrev pub expires : ℕ → ℕ → ℕ → Bool
expires reload v n = ltb 0 reload && leb (until_zero reload v) n

-- The counter n clocks later: it counts down modulo reload + 1.
abbrev pub counted : ℕ → ℕ → ℕ → ℕ
counted reload v n = (v + n * reload) % (reload + 1)

-- The state of a SysTick after n clocks from x to y.
abbrev pub Ticked : ℕ → Bank × CoreState → Bank × CoreState → Type 0
Ticked n (b, c) (b', c') =
    let fired = expires b.syst_rvr b.syst_cvr n in
    (b'.syst_cvr ≡ counted b.syst_rvr b.syst_cvr n)
    × (b'.syst_rvr ≡ b.syst_rvr)
    × ((k : ℕ) → test_bit b'.syst_csr k ≡ (test_bit b.syst_csr k || (k == 16 && fired)))
    × ((e : ℕ)
        → is_pending c' e
          ≡ (is_pending c e || (e == exc_systick && test_bit b.syst_csr 1 && fired)))

-- One clock of a counter that is at most its reload value.
next : ℕ → ℕ → ℕ
next reload v = if v == 0 then reload else v - 1

cycle_lem :
    (b : Bank) (c : CoreState)
    → b.syst_rvr < 2 ^ 24
    → b.syst_cvr ≤ b.syst_rvr
    → let (b', c') = systick_cycle (b, c) in
      (b'.syst_cvr ≡ next b.syst_rvr b.syst_cvr)
      × (b'.syst_rvr ≡ b.syst_rvr)
      × ((k : ℕ)
          → test_bit b'.syst_csr k ≡ (test_bit b.syst_csr k || (k == 16 && (b.syst_cvr == 1))))
      × ((e : ℕ)
          → is_pending c' e
            ≡ (is_pending c e || (e == exc_systick && test_bit b.syst_csr 1 && (b.syst_cvr == 1))))
unfolding systick_cycle next
cycle_lem b c lt le = (
  ground (arith, lt, le),
  ground (arith, lt, le),
  λ k. ground (arith, lt, le, test_bit-set_bit b.syst_csr 16 k),
  λ e. ground (arith, lt, le, is_pending-pend_exception c exc_systick e),
)

regroup : (r v n : ℕ) → suc v + suc n * r ≡ v + n * r + (r + 1)
regroup r v n = grind arith

counted_zero : (r v : ℕ) → v ≤ r → counted r v 0 ≡ v
counted_zero r v le = ap (λ x. x % (r + 1)) (none_yet r v) ∙ mod-eq_of_lt (omega (arith, le))
  where
    none_yet : (r v : ℕ) → v + 0 * r ≡ v
    none_yet r v = omega arith

counted-next : (r v n : ℕ) → v ≤ r → counted r (next r v) n ≡ counted r v (suc n)
unfolding next
counted-next r zero n le = ap (λ x. x % (r + 1)) (grind arith)
counted-next r (suc v) n le =
    ap (λ x. (x + n * r) % (r + 1)) (before v)
    ∙ sym (ap (λ x. x % (r + 1)) (regroup r v n) ∙ add-mod_right (v + n * r) (r + 1))
  where
    before : (v : ℕ) → (if suc v == 0 then r else suc v - 1) ≡ v
    before v = ground arith

next-le : (r v : ℕ) → v ≤ r → next r v ≤ r
unfolding next
next-le r v le = ground (arith, le)

expires-next : (r v n : ℕ) → v ≤ r → (v == 1 || expires r (next r v) n) ≡ expires r v (suc n)
unfolding next
expires-next r v n le = ground (arith, le)

ticks_lem :
    (n : ℕ) (b : Bank) (c : CoreState)
    → b.syst_rvr < 2 ^ 24
    → b.syst_cvr ≤ b.syst_rvr
    → Ticked n (b, c) (ticks systick_cycle n (b, c))
ticks_lem zero b c lt le =
    (sym (counted_zero b.syst_rvr b.syst_cvr le), refl, λ k. ground arith, λ e. ground arith)
ticks_lem (suc n) b c lt le =
    let (b', c') = systick_cycle (b, c) in
    let (v, r, flag, pend) = cycle_lem b c lt le in
    let (v', r', flag', pend') =
      ticks_lem n b' c' (ground (arith, r, lt)) (rw (v, r) (next-le b.syst_rvr b.syst_cvr le)) in
    let again =
      ap₂ (λ x y. b.syst_cvr == 1 || expires x y n) r v ∙ expires-next b.syst_rvr b.syst_cvr n le in
    (
      v' ∙ ap₂ (λ x y. counted x y n) r v ∙ counted-next b.syst_rvr b.syst_cvr n le,
      r' ∙ r,
      λ k. flag' k ∙ ground (arith, flag k, again),
      λ e. pend' e ∙ ground (arith, pend e, flag 1, again),
    )

-- SysTick, enabled, with a counter that is at most its reload value, and n clocks of the active core.
-- The counter counts down modulo reload + 1. COUNTFLAG is set, and the exception is pending where
-- TICKINT asks for it, if and only if they were before or the counter came down to 0, which takes
-- the counter's own number of clocks, reload + 1 from 0, and never happens where the reload value is
-- 0. No other flag and no other exception changes.
pub on_cycles-ticks :
    (s : Scs) (n : ℕ)
    → test_bit (bank s).syst_csr 0 ≡ true
    → (bank s).syst_rvr < 2 ^ 24
    → (bank s).syst_cvr ≤ (bank s).syst_rvr
    → let s' = on_cycles s n in Ticked n (bank s, cur s) (bank s', cur s')
unfolding on_cycles
on_cycles-ticks s n on lt le = rw (on, self s.active) (ticks_lem n (bank s) (cur s) lt le)
  where
    self : (k : ℕ) → (k == k) ≡ true
    self k = ground arith
