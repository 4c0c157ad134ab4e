-- ===== src/Peripherals/Spi/Loopback.antt =====
-- The frames that a controller in loopback sends to itself.
use rp2040_simlator.Base.{
  ℕ, suc, ◌+◌, ◌*◌, ◌%◌, ◌^◌, ◌≤◌, ◌≡◌, refl, sym, ◌∙◌, ap, subst, true, List, [], ◌∷◌, ◌++◌, ltb,
  length, arith, test_bit, u8, length-append, append-nil, append_snoc,
}
use rp2040_simlator.Peripherals.Spi.{
  Spi, k_fifo_depth, frame_bits, refresh_irq, answer, finish_frame, tick_bit,
}
use rp2040_simlator.Peripherals.Pacing.{ticks, ticks-rounds, ticks_countdown}

-- What the receiver keeps of the frames sent.
abbrev pub echoed : ℕ → List ℕ → List ℕ
echoed bits [] = []
echoed bits (b ∷ bs) = b % 2 ^ bits ∷ echoed bits bs

abbrev pub low_bytes : List ℕ → List ℕ
low_bytes [] = []
low_bytes (b ∷ bs) = u8 b ∷ low_bytes bs

module _ {X : Type 0} where
  -- Enabled, in loopback, and between two frames.
  pub record Ready (s : Spi X) : Type 0 where
    pub enabled : test_bit s.cr1 1 ≡ true
    pub loopback : test_bit s.cr1 0 ≡ true
    pub at_rest : s.bits_left ≡ 0

  abbrev put : ℕ → Spi X → Spi X
  put k s = record s { bits_left = k }

  -- The bit periods of a frame.
  frame_lem : (k : ℕ) (s : Spi X) → ticks tick_bit (suc k) (put (suc k) s) ≡ finish_frame (put 0 s)
  unfolding tick_bit
  frame_lem = ticks_countdown tick_bit put (λ s. finish_frame (put 0 s)) (λ k s. refl) (λ s. refl)

  -- The frame that is taken from the queue.
  abbrev taken : Spi X → ℕ → List ℕ → Spi X
  taken s b rest =
      refresh_irq (record s { tx_shift = b; tx_fifo = rest; bits_left = frame_bits s.cr0 })

  start_lem :
      (s : Spi X) (b : ℕ) (rest : List ℕ)
      → Ready s
      → s.tx_fifo ≡ b ∷ rest
      → tick_bit s ≡ taken s b rest
  unfolding tick_bit
  start_lem s b rest h q = rw (h.at_rest, h.enabled, q) refl

  one_frame :
      (s : Spi X) (b : ℕ) (rest : List ℕ)
      → Ready s
      → s.tx_fifo ≡ b ∷ rest
      → ticks tick_bit (suc (frame_bits s.cr0)) s ≡ finish_frame (put 0 (taken s b rest))
  unfolding frame_bits refresh_irq
  one_frame s b rest h q =
      ap (ticks tick_bit (frame_bits s.cr0)) (start_lem s b rest h q)
      ∙ frame_lem (s.cr0 % 2 ^ 4) (taken s b rest)

  -- What a frame in loopback leaves.
  finished :
      (s : Spi X)
      → test_bit s.cr1 0 ≡ true
      → length s.rx + 1 ≤ k_fifo_depth
      → finish_frame s
        ≡ refresh_irq (record s {
          mosi_log = s.mosi_log ++ (u8 s.tx_shift ∷ []);
          rx = s.rx ++ (s.tx_shift % 2 ^ frame_bits s.cr0 ∷ []);
        })
  unfolding finish_frame answer
  finished s h room = rw (h, lt) refl
    where
      lt : ltb (length s.rx) k_fifo_depth ≡ true
      lt = ground (arith, room)

  -- The state after a frame in loopback.
  abbrev echo : Spi X → ℕ → List ℕ → Spi X
  echo s b rest =
      let t = put 0 (taken s b rest) in
      refresh_irq (record t {
        mosi_log = s.mosi_log ++ (u8 b ∷ []);
        rx = s.rx ++ (b % 2 ^ frame_bits s.cr0 ∷ []);
      })

  echo_lem :
      (s : Spi X) (b : ℕ) (rest : List ℕ)
      → Ready s
      → s.tx_fifo ≡ b ∷ rest
      → length s.rx + 1 ≤ k_fifo_depth
      → ticks tick_bit (suc (frame_bits s.cr0)) s ≡ echo s b rest
  unfolding refresh_irq
  echo_lem s b rest h q room =
      one_frame s b rest h q ∙ finished (put 0 (taken s b rest)) h.loopback room

  echo-Ready : (s : Spi X) (b : ℕ) (rest : List ℕ) → Ready s → Ready (echo s b rest)
  unfolding refresh_irq
  echo-Ready s b rest h = record { enabled = h.enabled; loopback = h.loopback; at_rest = refl }

  -- The parts of that state that matter for the next frame.
  echo_parts :
      (s : Spi X) (b : ℕ) (rest : List ℕ)
      → let s' = echo s b rest in
        (s'.rx ≡ s.rx ++ (b % 2 ^ frame_bits s.cr0 ∷ []))
        × (s'.mosi_log ≡ s.mosi_log ++ (u8 b ∷ []))
        × (s'.tx_fifo ≡ rest)
        × (s'.cr0 ≡ s.cr0)
  unfolding refresh_irq
  echo_parts s b rest = (refl, refl, refl, refl)

  -- A controller in loopback, enabled and between two frames, with the frames `sent` at the head of
  -- its queue and room for them in the receive FIFO: after a bit period and the bits of a frame for
  -- each, the receiver has them in order, cut to the width of a frame, and the log their low bytes.
  pub ticks-echoed :
      (sent rest : List ℕ) (s : Spi X)
      → Ready s
      → s.tx_fifo ≡ sent ++ rest
      → length s.rx + length sent ≤ k_fifo_depth
      → let s' = ticks tick_bit (length sent * suc (frame_bits s.cr0)) s in
        (s'.rx ≡ s.rx ++ echoed (frame_bits s.cr0) sent)
        × (s'.mosi_log ≡ s.mosi_log ++ low_bytes sent)
        × (s'.tx_fifo ≡ rest)
        × Ready s'
  ticks-echoed [] rest s h q room =
      subst
        (λ n.
          let s' = ticks tick_bit n s in
          (s'.rx ≡ s.rx ++ []) × (s'.mosi_log ≡ s.mosi_log ++ []) × (s'.tx_fifo ≡ rest) × Ready s')
        (nothing (frame_bits s.cr0)) (sym (append-nil s.rx), sym (append-nil s.mosi_log), q, h)
    where
      nothing : (n : ℕ) → 0 ≡ 0 * suc n
      nothing n = omega arith
  ticks-echoed (b ∷ sent) rest s h q room =
      let next = echo s b (sent ++ rest) in
      let (rx, log, fifo, cr0) = echo_parts s b (sent ++ rest) in
      let (rx', log', fifo', ready') =
        ticks-echoed sent rest next (echo-Ready s b (sent ++ rest) h) fifo (fits rx) in
      subst
        (λ s'.
          (s'.rx ≡ s.rx ++ echoed (frame_bits s.cr0) (b ∷ sent))
          × (s'.mosi_log ≡ s.mosi_log ++ low_bytes (b ∷ sent))
          × (s'.tx_fifo ≡ rest)
          × Ready s')
        (sym (
          ticks-rounds tick_bit (frame_bits s.cr0) (length sent) s
          ∙ ap (ticks tick_bit (length sent * suc (frame_bits s.cr0)))
              (echo_lem s b (sent ++ rest) h q (omega (arith, room)))
          ∙ ap (λ c. ticks tick_bit (length sent * suc (frame_bits c)) next) (sym cr0)))
        (
          rx'
              ∙ ap (λ xs. xs ++ echoed (frame_bits next.cr0) sent) rx
              ∙ ap (λ c. (s.rx ++ (b % 2 ^ frame_bits s.cr0 ∷ [])) ++ echoed (frame_bits c) sent)
                  cr0
              ∙ append_snoc s.rx (b % 2 ^ frame_bits s.cr0) (echoed (frame_bits s.cr0) sent),
          log'
              ∙ ap (λ xs. xs ++ low_bytes sent) log
              ∙ append_snoc s.mosi_log (u8 b) (low_bytes sent),
          fifo',
          ready',
        )
    where
      fits :
          (echo s b (sent ++ rest)).rx ≡ s.rx ++ (b % 2 ^ frame_bits s.cr0 ∷ [])
          → length (echo s b (sent ++ rest)).rx + length sent ≤ k_fifo_depth
      fits e = omega (arith, ap length e, length-append s.rx (b % 2 ^ frame_bits s.cr0 ∷ []), room)
