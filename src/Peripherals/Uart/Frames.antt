-- ===== src/Peripherals/Uart/Frames.antt =====
-- What the transmitter puts on the wire, and when.
use rp2040_simlator.Base.{
  ℕ, zero, suc, ◌+◌, ◌*◌, ◌/◌, ◌%◌, ◌^◌, ◌<◌, ◌≡◌, sym, ◌∙◌, ap, ap₂, subst, true, false, List, [],
  ◌∷◌, ◌++◌, ◌==◌, if◌then◌else◌, length, append-nil, append_snoc, arith, test_bit,
}
use rp2040_simlator.Peripherals.Uart.{
  Line, bits_per_frame, start_tx, tick_tx_bit, tick_rx_bit, refresh_irq, tick_bit,
}
use rp2040_simlator.Peripherals.Pacing.{ticks, ticks-rounds}

-- The transmitter's part of a line, which the receiver and the interrupt leave alone.
abbrev SameTx : Line → Line → Type 0
SameTx l l' =
    (l'.tx_fifo ≡ l.tx_fifo)
    × (l'.tx_log ≡ l.tx_log)
    × (l'.tx_bits_left ≡ l.tx_bits_left)
    × (l'.tx_shift ≡ l.tx_shift)
    × (l'.cr ≡ l.cr)
    × (l'.lcr_h ≡ l.lcr_h)

receiving : (l : Line) → SameTx l (refresh_irq (tick_rx_bit l))
unfolding refresh_irq tick_rx_bit
receiving l = ground arith

-- One bit period of a frame that is under way.
busy_lem :
    (l : Line) (k : ℕ)
    → l.tx_bits_left ≡ suc k
    → let l' = tick_bit l in
      (l'.tx_bits_left ≡ k)
      × (l'.tx_log ≡ (if k == 0 then l.tx_log ++ (l.tx_shift ∷ []) else l.tx_log))
      × (l'.tx_fifo ≡ l.tx_fifo)
      × (l'.tx_shift ≡ l.tx_shift)
      × (l'.cr ≡ l.cr)
      × (l'.lcr_h ≡ l.lcr_h)
unfolding tick_bit tick_tx_bit
busy_lem l k e = ground (arith, e, receiving (tick_tx_bit l))

-- The bit period that takes a byte from the queue.
start_lem :
    (l : Line) (b : ℕ) (rest : List ℕ)
    → l.tx_bits_left ≡ 0
    → l.tx_fifo ≡ b ∷ rest
    → test_bit l.cr 8 ≡ true
    → test_bit l.lcr_h 0 ≡ false
    → let l' = tick_bit l in
      (l'.tx_bits_left ≡ bits_per_frame l)
      × (l'.tx_log ≡ l.tx_log)
      × (l'.tx_fifo ≡ rest)
      × (l'.tx_shift ≡ b)
      × (l'.cr ≡ l.cr)
      × (l'.lcr_h ≡ l.lcr_h)
unfolding tick_bit tick_tx_bit
start_lem l b rest e q on free = ground (arith, taken, receiving (tick_tx_bit l))
  where
    starts : tick_tx_bit l ≡ start_tx l.tx_fifo l
    starts = ground (arith, e, on, free)

    taken :
        tick_tx_bit l ≡ record l { tx_shift = b; tx_fifo = rest; tx_bits_left = bits_per_frame l }
    taken = starts ∙ ap (λ f. start_tx f l) q

-- The rest of a frame.
frame_lem :
    (k : ℕ) (l : Line)
    → l.tx_bits_left ≡ suc k
    → let l' = ticks tick_bit (suc k) l in
      (l'.tx_bits_left ≡ 0)
      × (l'.tx_log ≡ l.tx_log ++ (l.tx_shift ∷ []))
      × (l'.tx_fifo ≡ l.tx_fifo)
      × (l'.cr ≡ l.cr)
      × (l'.lcr_h ≡ l.lcr_h)
frame_lem zero l e = ground (arith, busy_lem l 0 e)
frame_lem (suc k) l e =
    let (left, log, fifo, shift, cr, lcr) = busy_lem l (suc k) e in
    ground (arith, left, log, fifo, shift, cr, lcr, frame_lem k (tick_bit l) left)

whole_frame :
    (n : ℕ) (l : Line)
    → 0 < n
    → l.tx_bits_left ≡ n
    → let l' = ticks tick_bit n l in
      (l'.tx_bits_left ≡ 0)
      × (l'.tx_log ≡ l.tx_log ++ (l.tx_shift ∷ []))
      × (l'.tx_fifo ≡ l.tx_fifo)
      × (l'.cr ≡ l.cr)
      × (l'.lcr_h ≡ l.lcr_h)
whole_frame zero l lt e = absurd (omega arith)
whole_frame (suc k) l lt e = frame_lem k l e

bits_same : (l l' : Line) → l'.lcr_h ≡ l.lcr_h → bits_per_frame l' ≡ bits_per_frame l
unfolding bits_per_frame
bits_same l l' e =
    ap
      (λ v.
        1 + (5 + v / 2 ^ 5 % 4) + (if test_bit v 1 then 1 else 0) + (if test_bit v 3 then 2 else 1))
      e

some_bits : (l : Line) → 0 < bits_per_frame l
unfolding bits_per_frame
some_bits l = omega arith

-- A transmitter that may send, between two bytes.
pub record Idle (l : Line) : Type 0 where
  pub enabled : test_bit l.cr 8 ≡ true
  pub no_break : test_bit l.lcr_h 0 ≡ false
  pub at_rest : l.tx_bits_left ≡ 0

-- One byte: a bit period to take it from the queue, and those of its frame.
byte_lem :
    (l : Line) (b : ℕ) (rest : List ℕ)
    → Idle l
    → l.tx_fifo ≡ b ∷ rest
    → let l' = ticks tick_bit (suc (bits_per_frame l)) l in
      (l'.tx_log ≡ l.tx_log ++ (b ∷ []))
      × (l'.tx_fifo ≡ rest)
      × Idle l'
      × (bits_per_frame l' ≡ bits_per_frame l)
byte_lem l b rest idle q =
    let (left, log, fifo, shift, cr, lcr) =
      start_lem l b rest idle.at_rest q idle.enabled idle.no_break in
    let (left', log', fifo', cr', lcr') =
      whole_frame (bits_per_frame l) (tick_bit l) (some_bits l) left in
    let l' = ticks tick_bit (bits_per_frame l) (tick_bit l) in
    (
      log' ∙ ap₂ (λ xs x. xs ++ (x ∷ [])) log shift,
      fifo' ∙ fifo,
      record {
        enabled = ap (λ v. test_bit v 8) (cr' ∙ cr) ∙ idle.enabled;
        no_break = ap (λ v. test_bit v 0) (lcr' ∙ lcr) ∙ idle.no_break;
        at_rest = left';
      },
      bits_same l l' (lcr' ∙ lcr),
    )

-- With at least as many bytes queued as `sent` holds, a free transmitter has put exactly those on
-- the wire, in their order, after a bit period and a frame for each of them.
pub ticks-sends :
    (sent rest : List ℕ) (l : Line)
    → Idle l
    → l.tx_fifo ≡ sent ++ rest
    → let l' = ticks tick_bit (length sent * suc (bits_per_frame l)) l in
      (l'.tx_log ≡ l.tx_log ++ sent) × (l'.tx_fifo ≡ rest) × Idle l'
ticks-sends [] rest l idle q =
    subst
      (λ n.
        let l' = ticks tick_bit n l in (l'.tx_log ≡ l.tx_log ++ []) × (l'.tx_fifo ≡ rest) × Idle l')
      (nothing (bits_per_frame l)) (sym (append-nil l.tx_log), q, idle)
  where
    nothing : (n : ℕ) → 0 ≡ 0 * suc n
    nothing n = omega arith
ticks-sends (b ∷ sent) rest l idle q =
    let (log, fifo, idle', bits) = byte_lem l b (sent ++ rest) idle q in
    let l1 = ticks tick_bit (suc (bits_per_frame l)) l in
    let (log', fifo', idle'') = ticks-sends sent rest l1 idle' fifo in
    subst (λ l'. (l'.tx_log ≡ l.tx_log ++ (b ∷ sent)) × (l'.tx_fifo ≡ rest) × Idle l')
      (sym (
        ticks-rounds tick_bit (bits_per_frame l) (length sent) l
        ∙ ap (λ n. ticks tick_bit (length sent * suc n) l1) (sym bits)))
      (log' ∙ ap (λ xs. xs ++ sent) log ∙ append_snoc l.tx_log b sent, fifo', idle'')
