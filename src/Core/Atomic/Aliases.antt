-- ===== src/Core/Atomic/Aliases.antt =====
-- What the aliases do to a register, bit by bit.
use rp2040_simlator.Base.{
  ℕ, ◌+◌, ◌*◌, ◌/◌, ◌%◌, ◌^◌, ◌<◌, ◌≡◌, sym, ap, ◌∙◌, ◌==◌, if◌then◌else◌, bit_and, bit_or, bit_xor,
  and_not, Bool, not, ◌&&◌, ◌||◌, test_bit, arith,
}
use rp2040_simlator.Base.Bits.{bit-bit_and, bit-bit_or, bit-bit_xor, bit-and_not}
use rp2040_simlator.Core.Bus.{BusWidth}
use rp2040_simlator.Core.Atomic.{Registers, Storage, bus_read, bus_write}

-- Bit by bit: the normal address writes, 0x1000 flips, 0x2000 sets and 0x3000 clears.
abbrev pub aliased : ℕ → Bool → Bool → Bool
aliased alias old new =
    if alias == 1
    then (if new then not old else old)
    else if alias == 2
    then old || new
    else if alias == 3
    then old && not new
    else new

-- The word that a write at an alias stores.
abbrev combined : ℕ → ℕ → ℕ → ℕ
combined alias old value =
    if alias == 1
    then bit_xor old value
    else if alias == 2
    then bit_or old value
    else if alias == 3
    then and_not old value
    else value

test_bit-combined :
    (alias old value mask n : ℕ)
    → test_bit (bit_and (combined alias old value) mask) n
      ≡ (test_bit mask n && aliased alias (test_bit old n) (test_bit value n))
test_bit-combined alias old value mask n = ground (
  arith,
  bit-bit_and n (combined alias old value) mask,
  bit-bit_xor n old value,
  bit-bit_or n old value,
  bit-and_not n old value,
)

module _ {S : Type 0} (p : Registers S) (reg mask : ℕ) (st : Storage p reg mask) where
  bus_read_lem : (s : S) (w : BusWidth) → reg < 2 ^ 12 → (bus_read p s reg w).0.value ≡ st.view s
  unfolding bus_read
  bus_read_lem s w small =
      ap (λ r. (p.reg_read s r w).0.value) low ∙ ap (λ x. x.0.value) (st.reads s w)
    where
      low : reg % 2 ^ 12 ≡ reg
      low = omega (arith, small)

  bus_write_lem :
      (s : S) (alias value : ℕ) (w : BusWidth)
      → reg < 2 ^ 12
      → alias < 4
      → st.view (bus_write p s (alias * 2 ^ 12 + reg) value w).1
        ≡ bit_and (combined alias (st.view s) value) mask
  unfolding bus_write
  bus_write_lem s alias value w small four =
      rw (low, high, st.reads s w)
        (ground (
          arith,
          st.writes s (bit_xor (st.view s) value) w,
          st.writes s (bit_or (st.view s) value) w,
          st.writes s (and_not (st.view s) value) w,
          st.writes s value w,
        ))
    where
      low : (alias * 2 ^ 12 + reg) % 2 ^ 12 ≡ reg
      low = omega (arith, small)

      high : (alias * 2 ^ 12 + reg) / 2 ^ 12 % 4 ≡ alias
      high = omega (arith, small, four)

-- A write at any of the four addresses of a register that reads back leaves in it, at each bit that
-- it implements, the value that the alias makes of the old and the written bit, and 0 elsewhere.
pub bus_write-aliased :
    {S : Type 0} (p : Registers S) (reg mask : ℕ)
    → (st : Storage p reg mask) → (s : S) (alias value n : ℕ) (w : BusWidth) → reg < 2 ^ 12
    → alias < 4
    → let s' = (bus_write p s (alias * 2 ^ 12 + reg) value w).1 in
      test_bit (bus_read p s' reg w).0.value n ≡ (
        test_bit mask n
        && aliased alias (test_bit (bus_read p s reg w).0.value n) (test_bit value n))
bus_write-aliased p reg mask st s alias value n w small four =
    ap (λ v. test_bit v n)
      (bus_read_lem p reg mask st (bus_write p s (alias * 2 ^ 12 + reg) value w).1 w small
        ∙ bus_write_lem p reg mask st s alias value w small four)
    ∙ test_bit-combined alias (st.view s) value mask n
    ∙ ap (λ v. test_bit mask n && aliased alias (test_bit v n) (test_bit value n))
        (sym (bus_read_lem p reg mask st s w small))
