-- ===== src/Core/Registers/Status.antt =====
-- The program status word as a number, and its restoration.
use rp2040_simlator.Base.{
  ℕ, ◌+◌, ◌*◌, ◌%◌, ◌^◌, ◌<◌, ◌≡◌, Bool, true, false, arith, ◌==◌, not, if◌then◌else◌, of_bool, bit,
  bit_or, bit_and, ap,
}
use rp2040_simlator.Base.Bits.{
  bit_or-fields, bit_or-add-bit_and, bit_and-pow, bit_and-zero, set_bit_value, clear_bit_value,
  set_bit, clear_bit,
}
use rp2040_simlator.Core.Registers.{
  RegisterFile, apsr, xpsr, set_xpsr, base_condition, condition_holds,
}

pub flags_value : RegisterFile → ℕ
flags_value s = of_bool s.n * 8 + of_bool s.z * 4 + of_bool s.c * 2 + of_bool s.v

pub apsr_value : (s : RegisterFile) → apsr s ≡ flags_value s * 2 ^ 28
unfolding apsr flags_value
apsr_value s = ground (
  arith,
  bit_or-fields 29 (of_bool s.c) (of_bool s.v * 2 ^ 28),
  bit_or-fields 30 (of_bool s.z) (of_bool s.c * 2 ^ 29 + of_bool s.v * 2 ^ 28),
  bit_or-fields 31 (of_bool s.n)
      (of_bool s.z * 2 ^ 30 + (of_bool s.c * 2 ^ 29 + of_bool s.v * 2 ^ 28)),
)

no_overlap : (v : ℕ) (t : Bool) → bit v 24 ≡ 0 → bit_and v (of_bool t * 2 ^ 24) ≡ 0
no_overlap v true h = omega (arith, bit_and-pow 24 v)
no_overlap v false h = bit_and-zero v

-- The fields of xPSR do not overlap.
pub xpsr_value :
    (s : RegisterFile)
    → s.exception < 2 ^ 9
    → xpsr s ≡ flags_value s * 2 ^ 28 + of_bool s.t * 2 ^ 24 + s.exception
unfolding xpsr
xpsr_value s h = omega (
  arith,
  apsr_value s,
  ap (λ a. bit_or (bit_or a (s.exception % 2 ^ 9)) (of_bool s.t * 2 ^ 24)) (apsr_value s),
  ap (λ a. bit_or a (of_bool s.t * 2 ^ 24)) fields,
  bit_or-add-bit_and (flags_value s * 2 ^ 28 + s.exception % 2 ^ 9) (of_bool s.t * 2 ^ 24),
  no_overlap (flags_value s * 2 ^ 28 + s.exception % 2 ^ 9) s.t (omega arith),
)
  where
    fields :
        bit_or (flags_value s * 2 ^ 28) (s.exception % 2 ^ 9)
        ≡ flags_value s * 2 ^ 28 + s.exception % 2 ^ 9
    fields = bit_or-fields 28 (flags_value s) (s.exception % 2 ^ 9) (omega arith)

-- The word that exception entry stacks: xPSR with bit 9 set or cleared.
abbrev pub stacked : Bool → ℕ → ℕ
stacked realigned w = if realigned then set_bit w 9 else clear_bit w 9

pub stacked_value :
    (s : RegisterFile) (realigned : Bool)
    → s.exception < 2 ^ 9
    → stacked realigned (xpsr s)
      ≡ flags_value s * 2 ^ 28 + of_bool s.t * 2 ^ 24 + of_bool realigned * 2 ^ 9 + s.exception
stacked_value s true h = omega (arith, xpsr_value s h, set_bit_value (xpsr s) 9)
stacked_value s false h = omega (arith, xpsr_value s h, clear_bit_value (xpsr s) 9)

pub stacked-lt :
    (s : RegisterFile) (realigned : Bool)
    → s.exception < 2 ^ 9
    → stacked realigned (xpsr s) < 2 ^ 32
unfolding flags_value
stacked-lt s realigned h = ground (arith, stacked_value s realigned h)

-- Writing back a status word that was read, with the stack-alignment bit set or cleared, restores
-- every flag, the Thumb bit and the exception number, whatever the registers held in between, and
-- leaves all else alone.
pub set_xpsr-xpsr :
    (s s' : RegisterFile) (realigned : Bool)
    → s.exception < 2 ^ 9
    → set_xpsr s' (stacked realigned (xpsr s))
      ≡ record s' { n = s.n; z = s.z; c = s.c; v = s.v; t = s.t; exception = s.exception }
unfolding set_xpsr flags_value
set_xpsr-xpsr s s' realigned h = ground (arith, stacked_value s realigned h)

-- For k < 7 the odd condition 2 k + 1 is the negation of the even one 2 k; AL (14) always holds,
-- and so does the reserved 15, which is not inverted.
pub condition_holds_pairs :
    (s : RegisterFile) (k : ℕ)
    → k < 8
    → (condition_holds s (2 * k) ≡ base_condition s k)
      × (condition_holds s (2 * k + 1) ≡ (if k == 7 then true else not (condition_holds s (2 * k))))
unfolding condition_holds
condition_holds_pairs s k h = ground arith
