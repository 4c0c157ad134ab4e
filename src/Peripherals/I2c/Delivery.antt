-- ===== src/Peripherals/I2c/Delivery.antt =====
-- What reaches a slave of the bytes that are written to it, and when.
use rp2040_simlator.Base.{
  ℕ, suc, ◌+◌, ◌*◌, ◌^◌, ◌<◌, ◌≡◌, refl, sym, ◌∙◌, ap, subst, Bool, true, false, List, [], ◌∷◌,
  ◌++◌, ◌||◌, ◌==◌, some, length, is_empty, arith, u32,
}
use rp2040_simlator.Peripherals.I2c.{
  I2c, Cmd, Answer, refresh_irq, scl_period_cycles, addressed, run_command, clock_with, ic_clock,
}
use rp2040_simlator.Peripherals.Pacing.{ticks, ticks-rounds, ticks_countdown}

-- The commands that write bytes, without a STOP.
abbrev pub writes : List ℕ → List Cmd
writes [] = []
writes (b ∷ bs) = record { data_byte = b; is_read = false; stop = false } ∷ writes bs

-- A slave's function.
abbrev pub Slave : Type 0 → Type 0
Slave X = Bool → ℕ → X → Answer × X

-- The state of a slave that is given bytes one after the other.
abbrev pub given : {X : Type 0} → Slave X → X → List ℕ → X
given f x [] = x
given f x (b ∷ bs) = given f (f false b x).1 bs

module _ {X : Type 0} (f : Slave X) where
  -- A controller that is connected to the slave and between two bytes, with suc k clocks for nine
  -- SCL periods.
  pub record Ready (k : ℕ) (s : I2c X) : Type 0 where
    pub connected : addressed s ≡ some f
    pub nine_periods : scl_period_cycles s * 9 ≡ suc k
    pub no_stretch : s.stretch_cycles ≡ 0
    pub at_rest : s.byte_cycles_left ≡ 0

  abbrev put : ℕ → I2c X → I2c X
  put n s = record s { byte_cycles_left = n }

  byte_lem : (k : ℕ) (s : I2c X) → ticks ic_clock (suc k) (put (suc k) s) ≡ run_command (put 0 s)
  unfolding ic_clock
  byte_lem = ticks_countdown ic_clock put (λ s. run_command (put 0 s)) (λ k s. refl) (λ s. refl)

  start_lem :
      (k b : ℕ) (rest : List Cmd) (s : I2c X)
      → suc k < 2 ^ 32
      → Ready k s
      → s.tx_cmds ≡ record { data_byte = b; is_read = false; stop = false } ∷ rest
      → ic_clock s ≡ put (suc k) s
  unfolding ic_clock
  start_lem k b rest s small h q =
      ap (λ n. clock_with n s) h.at_rest
      ∙ starts
      ∙ ap (λ n. record s { byte_cycles_left = n; stretch_cycles = 0 }) amount
      ∙ ap (λ c. record s { byte_cycles_left = suc k; stretch_cycles = c }) (sym h.no_stretch)
    where
      runs : (scl_period_cycles s == 0) ≡ false
      runs = ground (arith, h.nine_periods)

      queued : (is_empty s.tx_cmds || (scl_period_cycles s == 0)) ≡ false
      queued = ap (λ c. is_empty c || (scl_period_cycles s == 0)) q ∙ runs

      starts : clock_with 0 s ≡ record s {
        byte_cycles_left = u32 (u32 (scl_period_cycles s * 9) + s.stretch_cycles);
        stretch_cycles = 0;
      }
      starts = rw (queued) refl

      amount : u32 (u32 (scl_period_cycles s * 9) + s.stretch_cycles) ≡ suc k
      amount = omega (arith, h.nine_periods, h.no_stretch, small)

  -- The state after an acknowledged byte.
  abbrev served : I2c X → ℕ → List Cmd → I2c X
  served s b rest =
      refresh_irq (record s { tx_cmds = rest; byte_cycles_left = 0; ext = (f false b s.ext).1 })

  served_lem :
      (k b : ℕ) (rest : List Cmd) (s : I2c X)
      → Ready k s
      → s.tx_cmds ≡ record { data_byte = b; is_read = false; stop = false } ∷ rest
      → (f false b s.ext).0.ack ≡ true
      → run_command (put 0 s) ≡ served s b rest
  unfolding run_command
  served_lem k b rest s h q ack = rw (q, h.connected, ack) refl

  one_byte :
      (k b : ℕ) (rest : List Cmd) (s : I2c X)
      → suc k < 2 ^ 32
      → Ready k s
      → s.tx_cmds ≡ record { data_byte = b; is_read = false; stop = false } ∷ rest
      → (f false b s.ext).0.ack ≡ true
      → ticks ic_clock (suc (suc k)) s ≡ served s b rest
  one_byte k b rest s small h q ack =
      ap (ticks ic_clock (suc k)) (start_lem k b rest s small h q)
      ∙ byte_lem k s
      ∙ served_lem k b rest s h q ack

  served-Ready : (k b : ℕ) (rest : List Cmd) (s : I2c X) → Ready k s → Ready k (served s b rest)
  unfolding refresh_irq scl_period_cycles
  served-Ready k b rest s h = record {
    connected = h.connected;
    nine_periods = h.nine_periods;
    no_stretch = h.no_stretch;
    at_rest = refl;
  }

  served_parts :
      (s : I2c X) (b : ℕ) (rest : List Cmd)
      → ((served s b rest).ext ≡ (f false b s.ext).1)
        × ((served s b rest).tx_cmds ≡ rest)
        × ((served s b rest).raw_intr ≡ s.raw_intr)
  unfolding refresh_irq
  served_parts s b rest = (refl, refl, refl)

  -- With at least as many writes queued as `sent` holds, and a slave that acknowledges every byte, the
  -- slave has been given exactly those, in their order, after nine SCL periods and a clock for each
  -- of them; no interrupt is raised. Nine periods are below 2^32 clocks.
  pub ticks-delivers :
      (sent : List ℕ) (k : ℕ) (rest : List Cmd) (s : I2c X)
      → suc k < 2 ^ 32
      → Ready k s
      → s.tx_cmds ≡ writes sent ++ rest
      → ((b : ℕ) (x : X) → (f false b x).0.ack ≡ true)
      → let s' = ticks ic_clock (length sent * suc (suc k)) s in
        (s'.ext ≡ given f s.ext sent)
        × (s'.tx_cmds ≡ rest)
        × (s'.raw_intr ≡ s.raw_intr)
        × Ready k s'
  ticks-delivers [] k rest s small h q ack =
      subst
        (λ n.
          let s' = ticks ic_clock n s in
          (s'.ext ≡ s.ext) × (s'.tx_cmds ≡ rest) × (s'.raw_intr ≡ s.raw_intr) × Ready k s')
        (nothing (suc k)) (refl, q, refl, h)
    where
      nothing : (n : ℕ) → 0 ≡ 0 * suc n
      nothing n = omega arith
  ticks-delivers (b ∷ sent) k rest s small h q ack =
      let next = served s b (writes sent ++ rest) in
      let (ext, cmds, intr) = served_parts s b (writes sent ++ rest) in
      let (ext', cmds', intr', ready') =
        ticks-delivers sent k rest next small (served-Ready k b (writes sent ++ rest) s h) cmds
          ack in
      subst
        (λ s'.
          (s'.ext ≡ given f s.ext (b ∷ sent))
          × (s'.tx_cmds ≡ rest)
          × (s'.raw_intr ≡ s.raw_intr)
          × Ready k s')
        (sym (
          ticks-rounds ic_clock (suc k) (length sent) s
          ∙ ap (ticks ic_clock (length sent * suc (suc k)))
              (one_byte k b (writes sent ++ rest) s small h q (ack b s.ext))))
        (ext' ∙ ap (λ x. given f x sent) ext, cmds', intr' ∙ intr, ready')
