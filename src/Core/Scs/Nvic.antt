-- ===== src/Core/Scs/Nvic.antt =====
-- What the set and clear registers of the interrupt controller do to each of its lines.
use rp2040_simlator.Base.{
  ℕ, zero, suc, ◌+◌, ◌<◌, ◌≡◌, refl, sym, ◌∙◌, ap, ap₂, Bool, true, false, not, ◌&&◌, ◌||◌, ltb,
  leb, ◌==◌, test_bit, arith, Bool-cases, inl, inr,
}
use rp2040_simlator.Base.Bits.{set_bit, test_bit-set_bit, test_bit-clear_bit}
use rp2040_simlator.Core.Cpu.{
  CoreState, exc_external0, num_rp2040_irqs, is_pending, set_irq_enabled, irq_is_enabled,
}
use rp2040_simlator.Core.Interrupts.Lines.{is_pending-pend_exception, is_pending-clear_pending}
use rp2040_simlator.Core.Scs.{
  Scs, cur, gather, for_bits, pend_irq, clear_irq, bus_read, bus_write, write_core,
}

test_bit-gather :
    (p : ℕ → Bool) (left i v j : ℕ)
    → test_bit (gather p left i v) j ≡ (test_bit v j || (leb i j && ltb j (i + left) && p j))
unfolding gather
test_bit-gather p zero i v j = ground arith
test_bit-gather p (suc left) i v j = ground (
  arith,
  test_bit-gather p left (i + 1) (set_bit v i) j,
  test_bit-gather p left (i + 1) v j,
  test_bit-set_bit v i j,
)

-- The loops over a word, for what they do to one observation of the core.
module _ (f : CoreState → ℕ → CoreState) (seen : CoreState → ℕ → Bool) where
  for_bits-sets :
      (ok : ℕ → Bool)
      → ((c : CoreState) (i j : ℕ) → seen (f c i) j ≡ (ok j && (j == i) || seen c j))
      → (left i value j : ℕ) (c : CoreState)
      → seen (for_bits f left i value c) j
        ≡ (seen c j || (leb i j && ltb j (i + left) && test_bit value j && ok j))
  unfolding for_bits
  for_bits-sets ok h zero i value j c = ground arith
  for_bits-sets ok h (suc left) i value j c = ground (
    arith,
    for_bits-sets ok h left (i + 1) value j (f c i),
    for_bits-sets ok h left (i + 1) value j c,
    h c i j,
  )

  for_bits-clears :
      ((c : CoreState) (i j : ℕ) → seen (f c i) j ≡ (not (j == i) && seen c j))
      → (left i value j : ℕ) (c : CoreState)
      → seen (for_bits f left i value c) j
        ≡ (seen c j && not (leb i j && ltb j (i + left) && test_bit value j))
  unfolding for_bits
  for_bits-clears h zero i value j c = ground arith
  for_bits-clears h (suc left) i value j c = ground (
    arith,
    for_bits-clears h left (i + 1) value j (f c i),
    for_bits-clears h left (i + 1) value j c,
    h c i j,
  )

enabling :
    (c : CoreState) (i j : ℕ)
    → irq_is_enabled (set_irq_enabled c i true) j
      ≡ (ltb j num_rp2040_irqs && (j == i) || irq_is_enabled c j)
unfolding irq_is_enabled set_irq_enabled
enabling c i j = ground (arith, test_bit-set_bit c.irq_enabled i j)

disabling :
    (c : CoreState) (i j : ℕ)
    → irq_is_enabled (set_irq_enabled c i false) j ≡ (not (j == i) && irq_is_enabled c j)
unfolding irq_is_enabled set_irq_enabled
disabling c i j = ground (arith, test_bit-clear_bit c.irq_enabled i j)

irq_pending : CoreState → ℕ → Bool
irq_pending c i = is_pending c (exc_external0 + i)

pending :
    (c : CoreState) (i j : ℕ) → irq_pending (pend_irq c i) j ≡ (true && (j == i) || irq_pending c j)
unfolding irq_pending
pending c i j = ground (arith, is_pending-pend_exception c (exc_external0 + i) (exc_external0 + j))

unpending :
    (c : CoreState) (i j : ℕ) → irq_pending (clear_irq c i) j ≡ (not (j == i) && irq_pending c j)
unfolding irq_pending
unpending c i j = ground (arith, is_pending-clear_pending c (exc_external0 + i) (exc_external0 + j))

-- The offset of a register: ISER, ICER, ISPR and ICPR.
pub data Register : Type 0 where
  iser icer ispr icpr : Register

abbrev pub offset_of : Register → ℕ
offset_of Register.iser = 0x100
offset_of Register.icer = 0x180
offset_of Register.ispr = 0x200
offset_of Register.icpr = 0x280

-- What a register makes of an old and a written bit.
abbrev pub updated : Register → Bool → Bool → Bool
updated Register.iser old new = old || new
updated Register.icer old new = old && not new
updated Register.ispr old new = old || new
updated Register.icpr old new = old && not new

-- Bit j of a register as the active core reads it.
abbrev pub line : Scs → Register → ℕ → Bool
line s r j = test_bit (bus_read 0 s (offset_of r)).0.value j

-- What the core holds for a line of the register.
seen : Register → CoreState → ℕ → Bool
seen Register.iser c j = irq_is_enabled c j
seen Register.icer c j = irq_is_enabled c j
seen Register.ispr c j = irq_pending c j
seen Register.icpr c j = irq_pending c j

line_lem :
    (s : Scs) (r : Register) (j : ℕ) → line s r j ≡ (ltb j num_rp2040_irqs && seen r (cur s) j)
unfolding bus_read seen irq_pending
line_lem s Register.iser j =
    ground (arith, test_bit-gather (irq_is_enabled (cur s)) num_rp2040_irqs 0 0 j)
line_lem s Register.icer j =
    ground (arith, test_bit-gather (irq_is_enabled (cur s)) num_rp2040_irqs 0 0 j)
line_lem s Register.ispr j =
    ground (arith, test_bit-gather (irq_pending (cur s)) num_rp2040_irqs 0 0 j)
line_lem s Register.icpr j =
    ground (arith, test_bit-gather (irq_pending (cur s)) num_rp2040_irqs 0 0 j)

seen-write_core :
    (r : Register) (value j : ℕ) (c : CoreState)
    → j < num_rp2040_irqs
    → seen r (write_core (offset_of r) value c) j ≡ updated r (seen r c j) (test_bit value j)
unfolding write_core seen
seen-write_core Register.iser value j c lt = ground (
  arith,
  for_bits-sets (λ k i. set_irq_enabled k i true) irq_is_enabled (λ k. ltb k num_rp2040_irqs)
      enabling 32 0 value j c,
)
seen-write_core Register.icer value j c lt = ground (
  arith,
  for_bits-clears (λ k i. set_irq_enabled k i false) irq_is_enabled disabling 32 0 value j c,
)
seen-write_core Register.ispr value j c lt =
    ground
      (arith, for_bits-sets pend_irq irq_pending (λ k. true) pending num_rp2040_irqs 0 value j c)
seen-write_core Register.icpr value j c lt =
    ground (arith, for_bits-clears clear_irq irq_pending unpending num_rp2040_irqs 0 value j c)

cur-bus_write :
    (s : Scs) (offset value : ℕ)
    → cur (bus_write s offset value).2 ≡ write_core offset value (cur s)
unfolding bus_write
cur-bus_write s offset value = rw (self s.active) refl
  where
    self : (k : ℕ) → (k == k) ≡ true
    self k = ground arith

-- A write to ISER or ISPR sets the lines that it names and keeps the others, and one to ICER or ICPR
-- clears them, as reading the same register back shows; the bits past the 26 lines read as 0.
pub bus_write-line :
    (s : Scs) (r : Register) (value j : ℕ)
    → line (bus_write s (offset_of r) value).2 r j
      ≡ (ltb j num_rp2040_irqs && updated r (line s r j) (test_bit value j))
bus_write-line s r value j = elim (Bool-cases (ltb j num_rp2040_irqs)) [
  | inl e ↦
      line_lem (bus_write s (offset_of r) value).2 r j
      ∙ ap₂ (λ x y. x && y) e
          (ap (λ c. seen r c j) (cur-bus_write s (offset_of r) value)
            ∙ seen-write_core r value j (cur s) (ground (arith, e)))
      ∙ ap (λ o. updated r o (test_bit value j))
          (sym (line_lem s r j ∙ ap (λ x. x && seen r (cur s) j) e))
      ∙ sym (ap (λ x. x && updated r (line s r j) (test_bit value j)) e)
  | inr e ↦
      line_lem (bus_write s (offset_of r) value).2 r j
      ∙ ap (λ x. x && seen r (cur (bus_write s (offset_of r) value).2) j) e
      ∙ sym (ap (λ x. x && updated r (line s r j) (test_bit value j)) e)
]
