-- ===== src/Peripherals/Dma/Block.antt =====
-- A channel that copies bytes, and what a byte of it does to the SRAM.
use rp2040_simlator.Base.{
  ℕ, suc, ◌+◌, ◌-◌, ◌/◌, ◌%◌, ◌^◌, ◌≤◌, ◌<◌, ◌≡◌, ◌⊎◌, inl, inr, refl, sym, ap, ◌∙◌, subst, true,
  false, ◌&&◌, ltb, leb, ◌==◌, if◌then◌else◌, Bool-cases, test_bit, arith, add32, u8, bit_or, ◌<<<◌,
  ◌>>>◌,
}
use rp2040_simlator.Base.Bits.{bit_or-fields, clear_bit_value, clear_bit}
use rp2040_simlator.Core.Memory.{Memory, k_sram}
use rp2040_simlator.Core.Memory.Watchpoints.{check_watchpoints}
use rp2040_simlator.Core.Memory.Scalar.{assemble, scatter}
use rp2040_simlator.Core.Memory.Sram.{check_watchpoints_keeps}
use rp2040_simlator.Peripherals.Dma.{Channel, k_ctrl_busy}
use rp2040_simlator.Peripherals.Dma.Transfer.{next_addr, bump}

-- CTRL of a channel that copies bytes: EN, 8 bits, both addresses incremented, no ring, no chain,
-- unpaced and without a byte swap.
pub record IsByteCopy (ctrl ch : ℕ) : Type 0 where
  pub enabled : test_bit ctrl 0 ≡ true
  pub size : ctrl / 2 ^ 2 % 2 ^ 2 ≡ 0
  pub incr_read : test_bit ctrl 4 ≡ true
  pub incr_write : test_bit ctrl 5 ≡ true
  pub ring_size : ctrl / 2 ^ 6 % 2 ^ 4 ≡ 0
  pub chain_to : ctrl / 2 ^ 11 % 2 ^ 4 ≡ ch
  pub treq_sel : ctrl / 2 ^ 15 % 2 ^ 6 ≡ 0x3F
  pub bswap : test_bit ctrl 22 ≡ false

-- A channel that is to move n bytes more.
pub record IsCopying (c : Channel) (ch n src dst : ℕ) : Type 0 where
  pub is_copy : IsByteCopy c.ctrl ch
  pub busy : test_bit c.ctrl k_ctrl_busy ≡ true
  pub remaining : c.remaining ≡ n
  pub paced : c.pace_accum ≡ 0
  pub from : c.read_addr ≡ k_sram.base + src
  pub to : c.write_addr ≡ k_sram.base + dst
  pub src_fits : src + n ≤ k_sram.size
  pub dst_fits : dst + n ≤ k_sram.size

-- The memory after a byte has gone from one address to another.
abbrev pub copied : Memory → ℕ → ℕ → Memory
copied m from to =
    let m' = check_watchpoints m from 1 false in
    let value = assemble m.sram (from - k_sram.base) 1 0 0 in
    check_watchpoints (record m' { sram = scatter m'.sram (to - k_sram.base) 1 0 (value % 0x100) })
      to 1 true

bump_copy :
    (c : Channel) (ch : ℕ)
    → IsByteCopy c.ctrl ch
    → bump c ≡ record c { read_addr = add32 c.read_addr 1; write_addr = add32 c.write_addr 1 }
unfolding bump next_addr
bump_copy c ch h = rw (h.size, h.ring_size, h.incr_read, h.incr_write) refl

pub nonzero : (n : ℕ) → (suc n == 0) ≡ false
nonzero n = ground arith

pub itself : (n : ℕ) → (n == n) ≡ true
itself n = ground arith

add-zero : (n : ℕ) → n + 0 ≡ n
add-zero n = omega arith

-- A byte that is assembled and scattered again.
byte_back : (v : ℕ) → v < 256 → u8 ((bit_or 0 (v <<< 0) % 0x100) >>> 0) ≡ v
byte_back v lt = ground (arith, lt, bit_or-fields 8 0 v lt)

pub copied_sram :
    (m : Memory) (from to j : ℕ)
    → ((i : ℕ) → m.sram i < 256)
    → (copied m from to).sram j
      ≡ (if to - k_sram.base == j then m.sram (from - k_sram.base) else m.sram j)
unfolding assemble scatter
copied_sram m from to j small =
    let m' = check_watchpoints m from 1 false in
    let value = assemble m.sram (from - k_sram.base) 1 0 0 in
    let w = record m' { sram = scatter m'.sram (to - k_sram.base) 1 0 (value % 0x100) } in
    ap (λ f. f j) (check_watchpoints_keeps w to 1 true).2
    ∙ plain m'.sram (check_watchpoints_keeps m from 1 false).2
  where
    plain :
        (p : ℕ → ℕ)
        → p ≡ m.sram
        → scatter p (to - k_sram.base) 1 0 (assemble m.sram (from - k_sram.base) 1 0 0 % 0x100) j
          ≡ (if to - k_sram.base == j then m.sram (from - k_sram.base) else m.sram j)
    plain p e =
        rw
          (
            e,
            add-zero (to - k_sram.base),
            add-zero (from - k_sram.base),
            byte_back (m.sram (from - k_sram.base)) (small (from - k_sram.base)),
          )
          refl

pub counted_down :
    (c : Channel) (ch n src dst : ℕ)
    → IsCopying c ch (suc n) src dst
    → IsCopying (record (bump c) { remaining = c.remaining - 1 }) ch n (src + 1) (dst + 1)
counted_down c ch n src dst h =
    subst (λ b. IsCopying (record b { remaining = c.remaining - 1 }) ch n (src + 1) (dst + 1))
      (sym (bump_copy c ch h.is_copy))
      (record {
        is_copy = h.is_copy;
        busy = h.busy;
        remaining = omega (arith, h.remaining);
        paced = h.paced;
        from = omega (arith, h.from, h.src_fits);
        to = omega (arith, h.to, h.dst_fits);
        src_fits = omega (arith, h.src_fits);
        dst_fits = omega (arith, h.dst_fits);
      })

pub chain_kept : (v : ℕ) → clear_bit v k_ctrl_busy / 2 ^ 11 % 2 ^ 4 ≡ v / 2 ^ 11 % 2 ^ 4
chain_kept v = omega (arith, clear_bit_value v k_ctrl_busy)

-- The first byte of a block and then the others, through a store g that differs from f in the
-- first one.
pub split_block :
    (f g : ℕ → ℕ) (src dst j n : ℕ)
    → ((i : ℕ) → g i ≡ (if dst == i then f src else f i))
    → (src + suc n ≤ dst) ⊎ (dst + suc n ≤ src)
    → (if leb (dst + 1) j && ltb j (dst + 1 + n) then g (src + 1 + (j - (dst + 1))) else g j)
      ≡ (if leb dst j && ltb j (dst + suc n) then f (src + (j - dst)) else f j)
split_block f g src dst j n eq apart = elim (Bool-cases (leb (dst + 1) j && ltb j (dst + 1 + n))) [
  | inl e ↦ rw (e, inside e) (eq (src + 1 + (j - (dst + 1))) ∙ rw (elsewhere e) (ap f (place e)))
  | inr e ↦
      rw (e, eq j)
        (elim (Bool-cases (dst == j)) [
          | inl k ↦ rw (k, at_first k) (ap f (start k))
          | inr k ↦ rw (k, outside e k) refl
        ])
]
  where
    inside :
        (leb (dst + 1) j && ltb j (dst + 1 + n)) ≡ true → (leb dst j && ltb j (dst + suc n)) ≡ true
    inside e = ground (arith, e)

    elsewhere :
        (leb (dst + 1) j && ltb j (dst + 1 + n)) ≡ true → (dst == src + 1 + (j - (dst + 1))) ≡ false
    elsewhere e = ground (arith, e, apart)

    place :
        (leb (dst + 1) j && ltb j (dst + 1 + n)) ≡ true
        → src + 1 + (j - (dst + 1)) ≡ src + (j - dst)
    place e = ground (arith, e)

    at_first : (dst == j) ≡ true → (leb dst j && ltb j (dst + suc n)) ≡ true
    at_first k = ground (arith, k)

    start : (dst == j) ≡ true → src ≡ src + (j - dst)
    start k = ground (arith, k)

    outside :
        (leb (dst + 1) j && ltb j (dst + 1 + n)) ≡ false
        → (dst == j) ≡ false
        → (leb dst j && ltb j (dst + suc n)) ≡ false
    outside e k = ground (arith, e, k)
