-- ===== src/Pio/Registers/Windows.antt =====
-- The FIFO windows of the register block against the queues of the state machines.
use rp2040_simlator.Base.{
  ℕ, zero, suc, ◌+◌, ◌-◌, ◌*◌, ◌/◌, ◌<◌, ◌≡◌, ◌≢◌, refl, sym, ◌∙◌, ap, subst, Bool, true, false,
  not, ◌&&◌, ◌||◌, List, [], ◌∷◌, Option, none, some, ◌==◌, if◌then◌else◌, length, test_bit, arith,
}
use rp2040_simlator.Base.Bits.{set_bit, test_bit-set_bit}
use rp2040_simlator.Pio.Fifo.{PioFifo, fresh, push}
use rp2040_simlator.Pio.Fifo.Queue.{IsValid, contents, push_queue, push-queue, push_queue_refused}
use rp2040_simlator.Pio.Block.{Lane, k_num_sm}
use rp2040_simlator.Pio.Registers.{
  PioRegisters, on_lane, at_lane, update_lane, write_txf, reg_write, is_txf,
}

on_lane-at_lane_self :
    {A : Type 0} (f : Lane → A) (a : A) (g : Lane → Lane) (ls : List Lane) (i : ℕ)
    → on_lane f a (at_lane g ls i) i ≡ on_lane (λ l. f (g l)) a ls i
on_lane-at_lane_self f a g [] i = refl
on_lane-at_lane_self f a g (l ∷ ls) zero = refl
on_lane-at_lane_self f a g (l ∷ ls) (suc i) = on_lane-at_lane_self f a g ls i

on_lane-at_lane_ne :
    {A : Type 0} (f : Lane → A) (a : A) (g : Lane → Lane) (ls : List Lane) (i j : ℕ)
    → j ≢ i
    → on_lane f a (at_lane g ls i) j ≡ on_lane f a ls j
on_lane-at_lane_ne f a g [] i j ne = refl
on_lane-at_lane_ne f a g (l ∷ ls) zero zero ne = absurd (ne refl)
on_lane-at_lane_ne f a g (l ∷ ls) zero (suc j) ne = refl
on_lane-at_lane_ne f a g (l ∷ ls) (suc i) zero ne = refl
on_lane-at_lane_ne f a g (l ∷ ls) (suc i) (suc j) ne =
    on_lane-at_lane_ne f a g ls i j (λ e. ne (ap suc e))

on_lane_same :
    {A : Type 0} (a b : A) (ls : List Lane) (i : ℕ) → i < length ls → on_lane (λ l. b) a ls i ≡ b
on_lane_same a b [] i lt = absurd (omega arith)
on_lane_same a b (l ∷ ls) zero lt = refl
on_lane_same a b (l ∷ ls) (suc i) lt = on_lane_same a b ls i (omega (arith, lt))

-- A function of a lane, applied outside.
on_lane_ap :
    {A B : Type 0} (h : A → B) (f : Lane → A) (a : A) (ls : List Lane) (i : ℕ)
    → h (on_lane f a ls i) ≡ on_lane (λ l. h (f l)) (h a) ls i
on_lane_ap h f a [] i = refl
on_lane_ap h f a (l ∷ ls) zero = refl
on_lane_ap h f a (l ∷ ls) (suc i) = on_lane_ap h f a ls i

on_lane_default :
    {A : Type 0} (f : Lane → A) (a b : A) (ls : List Lane) (i : ℕ)
    → i < length ls
    → on_lane f a ls i ≡ on_lane f b ls i
on_lane_default f a b [] i lt = absurd (omega arith)
on_lane_default f a b (l ∷ ls) zero lt = refl
on_lane_default f a b (l ∷ ls) (suc i) lt = on_lane_default f a b ls i (omega (arith, lt))

-- The transmit queue of machine i, and the whole of a machine's lane.
abbrev pub tx_at : PioRegisters → ℕ → PioFifo
tx_at s i = on_lane (λ l. l.sm.tx) fresh s.block.lanes i

abbrev pub lane_at : PioRegisters → ℕ → Option Lane
lane_at s i = on_lane (λ l. some l) none s.block.lanes i

abbrev pub with_tx : PioFifo → Option Lane → Option Lane
with_tx f none = none
with_tx f (some l) = some (record l { sm = record (l.sm) { tx = f } })

-- What a write of v to TXF i leaves: the queue has taken the word if it had room, and is the same
-- FIFO as before if it had none; TXOVER i is then set. Nothing else has changed: not the rest of
-- machine i's lane, the lanes of the other machines, the other bits of FDEBUG, or any other register
-- or part of the block.
abbrev pub Sent : PioRegisters → ℕ → ℕ → PioRegisters → Type 0
Sent s i v s' =
    let (ok, q) = push_queue (tx_at s i).depth (contents (tx_at s i)) v in
    (contents (tx_at s' i) ≡ q)
    × IsValid (tx_at s' i)
    × ((k : ℕ) → test_bit s'.fdebug k ≡ (test_bit s.fdebug k || (k == 20 + i && not ok)))
    × ((j : ℕ) → j ≢ i → lane_at s' j ≡ lane_at s j)
    × (lane_at s' i ≡ with_tx (tx_at s' i) (lane_at s i))
    × ((if ok then tx_at s i else tx_at s' i) ≡ tx_at s i)
    × (s' ≡ record s { block = record (s.block) { lanes = s'.block.lanes }; fdebug = s'.fdebug })

on_lane-with_tx :
    (ls : List Lane) (i : ℕ)
    → on_lane (λ l. some l) none ls i
      ≡ with_tx (on_lane (λ l. l.sm.tx) fresh ls i) (on_lane (λ l. some l) none ls i)
on_lane-with_tx [] i = refl
on_lane-with_tx (l ∷ ls) zero = refl
on_lane-with_tx (l ∷ ls) (suc i) = on_lane-with_tx ls i

pushed :
    (s : PioRegisters) (i v : ℕ)
    → i < length s.block.lanes
    → on_lane (λ l. push l.sm.tx v) (true, fresh) s.block.lanes i ≡ push (tx_at s i) v
pushed s i v lt =
    on_lane_default (λ l. push l.sm.tx v) (true, fresh) (push fresh v) s.block.lanes i lt
    ∙ sym (on_lane_ap (λ f. push f v) (λ l. l.sm.tx) fresh s.block.lanes i)

-- The block after a push with a result.
abbrev after_push : PioRegisters → ℕ → Bool × PioFifo → PioRegisters
after_push s i (ok, tx) =
    if ok
    then update_lane (λ l. record l { sm = record (l.sm) { tx = tx } }) i s
    else record s { fdebug = set_bit s.fdebug (20 + i) }

after_push-Sent :
    (s : PioRegisters) (i v : ℕ) (x : Bool × PioFifo)
    → i < length s.block.lanes
    → IsValid (tx_at s i)
    → (x.0, contents x.1) ≡ push_queue (tx_at s i).depth (contents (tx_at s i)) v
    → IsValid x.1
    → Sent s i v (after_push s i x)
after_push-Sent s i v (true, f) lt valid eq valid' =
    let give = λ (l : Lane). record l { sm = record (l.sm) { tx = f } } in
    let there =
      on_lane-at_lane_self (λ l. l.sm.tx) fresh give s.block.lanes i
      ∙ on_lane_same fresh f s.block.lanes i lt in
    let took = ap (λ p. p.0) eq in
    (
      ap contents there ∙ ap (λ p. p.1) eq,
      subst IsValid (sym there) valid',
      λ k. ground (arith, took),
      λ j ne. on_lane-at_lane_ne (λ l. some l) none give s.block.lanes i j ne,
      on_lane-at_lane_self (λ l. some l) none give s.block.lanes i
          ∙ sym (on_lane_ap (with_tx f) (λ l. some l) none s.block.lanes i)
          ∙ ap (λ t. with_tx t (lane_at s i)) (sym there),
      ground (arith, took),
      refl,
    )
after_push-Sent s i v (false, f) lt valid eq valid' =
    let took = sym (ap (λ p. p.0) eq) in
    (
      sym (push_queue_refused (tx_at s i).depth (contents (tx_at s i)) v took),
      valid,
      λ k. ground (arith, took, test_bit-set_bit s.fdebug (20 + i) k),
      λ j ne. refl,
      on_lane-with_tx s.block.lanes i,
      ground (arith, took),
      refl,
    )

write_txf-Sent :
    (s : PioRegisters) (i v : ℕ)
    → i < length s.block.lanes
    → IsValid (tx_at s i)
    → Sent s i v (write_txf s i v)
unfolding write_txf
write_txf-Sent s i v lt valid =
    let (eq, valid') = push-queue (tx_at s i) v valid in
    subst (Sent s i v) (sym (ap (after_push s i) (pushed s i v lt)))
      (after_push-Sent s i v (push (tx_at s i) v) lt valid eq valid')

-- A write to the TXF window of a machine pushes the word to its valid transmit FIFO, as the bounded
-- queue does, and changes nothing else of the block and its registers; where the queue is full it
-- changes only the machine's sticky TXOVER flag.
pub reg_write-Sent :
    (fuel : ℕ) (s : PioRegisters) (i v : ℕ)
    → length s.block.lanes ≡ k_num_sm
    → i < k_num_sm
    → IsValid (tx_at s i)
    → (s' : PioRegisters) × (reg_write fuel s (0x10 + i * 4) v ≡ some s') × Sent s i v s'
unfolding reg_write
reg_write-Sent fuel s i v len lt valid =
    (write_txf s i v, rw (window, index) refl, write_txf-Sent s i v (omega (arith, len, lt)) valid)
  where
    window : is_txf (0x10 + i * 4) ≡ true
    window = ground arith

    index : (0x10 + i * 4 - 0x10) / 4 ≡ i
    index = omega arith
