-- ===== src/Core/Registers/Invariant.antt =====
-- The invariant of the register file, and what a write to one register does to the others.
use rp2040_simlator.Base.{
  ℕ, zero, suc, ◌%◌, ◌^◌, ◌<◌, ◌≡◌, refl, arith, ◌==◌, if◌then◌else◌, length, get_or, replicate,
  clear_low, length-set, get_or-set-lt, get_or-set_self, get_or-set_ne,
}
use rp2040_simlator.Core.Registers.{RegisterFile, reset, get, set_reg, k_sp, k_pc}

-- Thirteen 32-bit registers, a halfword-aligned PC, word-aligned stack pointers, and a 9-bit
-- exception number.
pub record IsValid (s : RegisterFile) : Type 0 where
  pub thirteen : length s.r ≡ 13
  pub words : (i : ℕ) → get_or s.r i 0 < 2 ^ 32
  pub pc_word : s.pc < 2 ^ 32
  pub pc_even : s.pc % 2 ≡ 0
  pub lr_word : s.lr < 2 ^ 32
  pub msp_word : s.msp < 2 ^ 32
  pub msp_aligned : s.msp % 4 ≡ 0
  pub psp_word : s.psp < 2 ^ 32
  pub psp_aligned : s.psp % 4 ≡ 0
  pub exception_fits : s.exception < 2 ^ 9

get_or-zeros : (n i : ℕ) → get_or (replicate n 0) i 0 < 2 ^ 32
get_or-zeros zero i = omega arith
get_or-zeros (suc n) zero = omega arith
get_or-zeros (suc n) (suc i) = get_or-zeros n i

-- Reset gives a valid register file.
pub reset-IsValid : IsValid reset
unfolding reset
reset-IsValid = record {
  thirteen = refl;
  words = get_or-zeros 13;
  pc_word = omega arith;
  pc_even = refl;
  lr_word = omega arith;
  msp_word = omega arith;
  msp_aligned = refl;
  psp_word = omega arith;
  psp_aligned = refl;
  exception_fits = omega arith;
}

set_reg-IsValid :
    (s : RegisterFile) (n value : ℕ) → value < 2 ^ 32 → IsValid s → IsValid (set_reg s n value)
unfolding set_reg
set_reg-IsValid s n value h w =
    ground
      (arith, length-set s.r n value, λ (i : ℕ). get_or-set-lt s.r n i value (2 ^ 32) w.words h)

pub get-lt : (s : RegisterFile) (n : ℕ) → IsValid s → get s n < 2 ^ 32
unfolding get
get-lt s n w = ground (arith, w.words n)

-- The word that register `n` holds after `value` is written to it.
abbrev pub held : ℕ → ℕ → ℕ
held n value =
    if n == k_sp then clear_low value 2 else if n == k_pc then clear_low value 1 else value

get-set_reg :
    (s : RegisterFile) (n m value : ℕ)
    → n < 16
    → m < 16
    → IsValid s
    → get (set_reg s n value) m ≡ (if n == m then held n value else get s m)
unfolding get set_reg
get-set_reg s n m value hn hm w =
    ground (arith, get_or-set_self s.r n value 0, get_or-set_ne s.r n m value 0, w.thirteen)

-- In a valid register file, reading back the register that was written with a 32-bit value gives the
-- value, word aligned in SP and halfword aligned in PC, and every other register reads as before;
-- and the register file stays valid.
pub set_reg_lem :
    (s : RegisterFile) (n m value : ℕ)
    → n < 16
    → m < 16
    → value < 2 ^ 32
    → IsValid s
    → (get (set_reg s n value) m ≡ (if n == m then held n value else get s m))
      × IsValid (set_reg s n value)
set_reg_lem s n m value hn hm h w = (get-set_reg s n m value hn hm w, set_reg-IsValid s n value h w)
