-- ===== src/Core/Cpu/Exceptions/Frame.antt =====
-- The eight stacked words: what the stacking loop leaves in the SRAM and the unstacking loop reads.
use rp2040_simlator.Base.{
  ℕ, ◌+◌, ◌-◌, ◌*◌, ◌%◌, ◌^◌, ◌≤◌, ◌<◌, ◌≡◌, ◌⊎◌, refl, sym, ◌∙◌, ap, true, false, arith, List, [],
  ◌∷◌, inl, inr, length, All, add32,
}
use rp2040_simlator.Core.Bus.{BusWidth}
use rp2040_simlator.Core.Memory.Scalar.{scatter}
use rp2040_simlator.Core.Memory.Watchpoints.{check_watchpoints}
use rp2040_simlator.Core.Memory.Access.{
  IsBytes, bytes_value, assemble_value, scatter_value, scatter-IsBytes, scatter_outside,
}
use rp2040_simlator.Core.Memory.Sram.{
  InSram, write_scalar_sram, read_scalar_sram, check_watchpoints_keeps,
}
use rp2040_simlator.Core.Cpu.{ExecStatus}
use rp2040_simlator.Core.Cpu.Machine.{
  Machine, Wiring, Outcome, done, load_or, store_or, ◌>>=◌, return, bind_done,
}
use rp2040_simlator.Core.Cpu.Exceptions.{push_frame, pop_frame}

-- The words of the list stand in memory as words i, i + 1, ... from offset `base`.
abbrev pub Holds : (ℕ → ℕ) → ℕ → ℕ → List ℕ → Type 0
Holds p base i [] = Unit
Holds p base i (x ∷ xs) = (bytes_value p (base + 4 * i) BusWidth.word ≡ x) × Holds p base (i + 1) xs

abbrev pub AllWords : List ℕ → Type 0
AllWords = All (λ x. x < 2 ^ 32)

-- `n` words from the word-aligned address `a` on lie in the SRAM.
pub record WordsFit (a n : ℕ) : Type 0 where
  pub aligned : a % 4 ≡ 0
  pub low : 0x2000_0000 ≤ a
  pub high : a + 4 * n ≤ 0x2004_2000

-- Only the SRAM contents and the watchpoint latch of the machine may differ, and the SRAM is a
-- vector of bytes again.
pub record SameButSram {D : Type 0} (s s' : Machine D) : Type 0 where
  pub regs : s'.regs ≡ s.regs
  pub core : s'.core ≡ s.core
  pub dev : s'.dev ≡ s.dev
  pub rom : s'.mem.rom ≡ s.mem.rom
  pub flash : s'.mem.flash ≡ s.mem.flash
  pub sram_bytes : IsBytes s'.mem.sram

word-InSram :
    (frameptr i n : ℕ) → WordsFit frameptr n → i < n → InSram (add32 frameptr (4 * i)) BusWidth.word
word-InSram frameptr i n f h = ground arith

word_offset :
    (frameptr i n : ℕ)
    → WordsFit frameptr n
    → i < n
    → add32 frameptr (4 * i) - 0x2000_0000 ≡ frameptr - 0x2000_0000 + 4 * i
word_offset frameptr i n f h = ground arith

-- A word whose bytes did not change has the same value.
head_word :
    (p q : ℕ → ℕ) (off : ℕ)
    → ((j : ℕ) → j < off + 4 → q j ≡ p j)
    → bytes_value q off BusWidth.word ≡ bytes_value p off BusWidth.word
head_word p q off h = omega (
  arith,
  h off (omega arith),
  h (off + 1) (omega arith),
  h (off + 2) (omega arith),
  h (off + 3) (omega arith),
)

beyond_rest :
    (base i n j : ℕ)
    → (j < base + 4 * i) ⊎ (base + 4 * n ≤ j)
    → (j < base + 4 * (i + 1)) ⊎ (base + 4 * n ≤ j)
beyond_rest base i n j (inl h) = inl (omega arith)
beyond_rest base i n j (inr h) = inr h

beyond_first :
    (base off i n j : ℕ)
    → off ≡ base + 4 * i
    → i < n
    → (j < base + 4 * i) ⊎ (base + 4 * n ≤ j)
    → (j < off) ⊎ (off + 4 ≤ j)
beyond_first base off i n j e l (inl h) = inl (omega arith)
beyond_first base off i n j e l (inr h) = inr (omega arith)

module _ {D : Type 0} (w : Wiring D) where
  -- The machine after a word is stored in the SRAM.
  pub stored : Machine D → ℕ → ℕ → Machine D
  stored s addr x = record s {
    mem =
        check_watchpoints (record (s.mem) { sram = scatter s.mem.sram (addr - 0x2000_0000) 4 0 x })
          addr 4 true;
  }

  store_or_sram :
      (e : ExecStatus) (addr x : ℕ) (s : Machine D)
      → InSram addr BusWidth.word
      → store_or w e addr x BusWidth.word s ≡ (done tt, stored s addr x)
  unfolding store_or stored
  store_or_sram e addr x s h =
      rw (write_scalar_sram w.devices s.mem (s.core, s.dev) addr BusWidth.word h x)

  -- The machine after a word is loaded from the SRAM: a watchpoint may have been hit.
  unfoldable pub loaded : Machine D → ℕ → Machine D
  loaded s addr = record s { mem = check_watchpoints s.mem addr 4 false }

  load_or_sram :
      (e : ExecStatus) (addr : ℕ) (s : Machine D)
      → InSram addr BusWidth.word
      → IsBytes s.mem.sram
      → load_or w e addr BusWidth.word s
        ≡ (done (bytes_value s.mem.sram (addr - 0x2000_0000) BusWidth.word), loaded s addr)
  unfolding load_or loaded
  load_or_sram e addr s h b =
      rw (read_scalar_sram w.devices s.mem (s.core, s.dev) addr BusWidth.word h) (
        ap (λ v. (done v, loaded'))
          (assemble_value s.mem.sram (addr - 0x2000_0000) BusWidth.word b))
    where
      loaded' : Machine D
      loaded' = record s { mem = check_watchpoints s.mem addr 4 false }

  stored_keeps :
      (s : Machine D) (addr x : ℕ)
      → IsBytes s.mem.sram
      → SameButSram s (stored s addr x)
        × ((j : ℕ)
            → (j < addr - 0x2000_0000) ⊎ (addr - 0x2000_0000 + 4 ≤ j)
            → (stored s addr x).mem.sram j ≡ s.mem.sram j)
        × (x < 2 ^ 32
            → bytes_value (stored s addr x).mem.sram (addr - 0x2000_0000) BusWidth.word ≡ x)
  unfolding stored
  stored_keeps s addr x b =
      let off = addr - 0x2000_0000 in
      let written = record (s.mem) { sram = scatter s.mem.sram off 4 0 x } in
      let kept = check_watchpoints_keeps written addr 4 true in
      (
        record {
          regs = refl;
          core = refl;
          dev = refl;
          rom = kept.0;
          flash = kept.1;
          sram_bytes = rw (kept.2) (scatter-IsBytes s.mem.sram off 4 0 x b);
        },
        λ j out. ap (λ f. f j) kept.2 ∙ scatter_outside s.mem.sram off 4 0 x j (place off j out),
        λ h. rw (kept.2) (scatter_value s.mem.sram off x BusWidth.word h),
      )
    where
      place : (off j : ℕ) → (j < off) ⊎ (off + 4 ≤ j) → (j < off + 0) ⊎ (off + 0 + 4 ≤ j)
      place off j (inl h) = inl (omega arith)
      place off j (inr h) = inr (omega arith)

  -- What stacking words i to n of a frame leaves.
  pub record Pushed (frameptr i n : ℕ) (xs : List ℕ) (s : Machine D)
      (out : Outcome (Unit {0}) × Machine D) : Type 0 where
    pub finished : out.0 ≡ done tt
    pub same : SameButSram s out.1
    pub holds : Holds out.1.mem.sram (frameptr - 0x2000_0000) i xs
    pub outside :
        (j : ℕ)
        → (j < frameptr - 0x2000_0000 + 4 * i) ⊎ (frameptr - 0x2000_0000 + 4 * n ≤ j)
        → out.1.mem.sram j ≡ s.mem.sram j

  SameButSram-trans : {s t u : Machine D} → SameButSram s t → SameButSram t u → SameButSram s u
  SameButSram-trans a b = record {
    regs = b.regs ∙ a.regs;
    core = b.core ∙ a.core;
    dev = b.dev ∙ a.dev;
    rom = b.rom ∙ a.rom;
    flash = b.flash ∙ a.flash;
    sram_bytes = b.sram_bytes;
  }

  push_frame_cons :
      (frameptr i n x : ℕ) (xs : List ℕ) (s : Machine D)
      → WordsFit frameptr n
      → i < n
      → push_frame w frameptr i (x ∷ xs) s
        ≡ push_frame w frameptr (i + 1) xs (stored s (add32 frameptr (4 * i)) x)
  unfolding push_frame
  push_frame_cons frameptr i n x xs s f h =
      bind_done (store_or w ExecStatus.lockup (add32 frameptr (4 * i)) x BusWidth.word)
        (λ _. push_frame w frameptr (i + 1) xs)
        (store_or_sram ExecStatus.lockup (add32 frameptr (4 * i)) x s
          (word-InSram frameptr i n f h))

  pub push_frame-Pushed :
      (frameptr i n : ℕ) (xs : List ℕ) (s : Machine D)
      → WordsFit frameptr n
      → i + length xs ≡ n
      → IsBytes s.mem.sram
      → AllWords xs
      → Pushed frameptr i n xs s (push_frame w frameptr i xs s)
  unfolding push_frame
  push_frame-Pushed frameptr i n [] s f e b a = record {
    finished = refl;
    same = record {
      regs = refl;
      core = refl;
      dev = refl;
      rom = refl;
      flash = refl;
      sram_bytes = b;
    };
    holds = tt;
    outside = λ j h. refl;
  }
  push_frame-Pushed frameptr i n (x ∷ xs) s f e b a =
      let addr = add32 frameptr (4 * i) in
      let off = word_offset frameptr i n f (omega arith) in
      let first = stored_keeps s addr x b in
      let rest =
        push_frame-Pushed frameptr (i + 1) n xs (stored s addr x) f (omega arith)
          (first.0.sram_bytes) a.1 in
      rw (push_frame_cons frameptr i n x xs s f (omega arith)) record {
        finished = rest.finished;
        same = SameButSram-trans first.0 rest.same;
        holds = (
          head_word (stored s addr x).mem.sram _ _ (λ j h. rest.outside j (inl (omega arith)))
              ∙ ap (λ o. bytes_value (stored s addr x).mem.sram o BusWidth.word) (sym off)
              ∙ first.2 a.0,
          rest.holds,
        );
        outside = λ j h.
            rest.outside j (beyond_rest (frameptr - 0x2000_0000) i n j h)
            ∙ first.1 j (beyond_first _ _ i n j off (omega arith) h);
      }

  -- What unstacking words that stand in memory gives.
  pub record Popped (xs : List ℕ) (s : Machine D) (out : Outcome (List ℕ) × Machine D)
      : Type 0 where
    pub final : Machine D
    pub finished : out ≡ (done xs, final)
    pub same : SameButSram s final
    pub sram : final.mem.sram ≡ s.mem.sram

  loaded_keeps :
      (s : Machine D) (addr : ℕ)
      → IsBytes s.mem.sram
      → SameButSram s (loaded s addr) × ((loaded s addr).mem.sram ≡ s.mem.sram)
  unfolding loaded
  loaded_keeps s addr b =
      let kept = check_watchpoints_keeps s.mem addr 4 false in
      (
        record {
          regs = refl;
          core = refl;
          dev = refl;
          rom = kept.0;
          flash = kept.1;
          sram_bytes = rw (kept.2) b;
        },
        kept.2,
      )

  pub pop_frame-Popped :
      (frameptr i n : ℕ) (xs : List ℕ) (s : Machine D)
      → WordsFit frameptr n
      → i + length xs ≡ n
      → IsBytes s.mem.sram
      → Holds s.mem.sram (frameptr - 0x2000_0000) i xs
      → Popped xs s (pop_frame w frameptr i (length xs) s)
  unfolding pop_frame
  pop_frame-Popped frameptr i n [] s f e b h = record {
    final = s;
    finished = refl;
    same = record {
      regs = refl;
      core = refl;
      dev = refl;
      rom = refl;
      flash = refl;
      sram_bytes = b;
    };
    sram = refl;
  }
  pop_frame-Popped frameptr i n (x ∷ xs) s f e b h =
      let addr = add32 frameptr (4 * i) in
      let next = loaded s addr in
      let step = loaded_keeps s addr b in
      let rest =
        pop_frame-Popped frameptr (i + 1) n xs next f (omega arith) (step.0.sram_bytes)
          (rw (step.1) h.1) in
      record {
        final = rest.final;
        finished =
            bind_done (load_or w ExecStatus.lockup addr BusWidth.word)
              (λ x. pop_frame w frameptr (i + 1) (length xs) >>= λ xs. return (x ∷ xs))
              (load_or_sram ExecStatus.lockup addr s (word-InSram frameptr i n f (omega arith)) b)
            ∙ bind_done (pop_frame w frameptr (i + 1) (length xs))
                (λ xs. return (bytes_value s.mem.sram (addr - 0x2000_0000) BusWidth.word ∷ xs))
                rest.finished
            ∙ ap (λ v. (done (v ∷ xs), rest.final))
                (ap (λ o. bytes_value s.mem.sram o BusWidth.word)
                    (word_offset frameptr i n f (omega arith))
                  ∙ h.0);
        same = SameButSram-trans step.0 rest.same;
        sram = rest.sram ∙ step.1;
      }
