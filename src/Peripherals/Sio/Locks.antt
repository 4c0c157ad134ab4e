-- ===== src/Peripherals/Sio/Locks.antt =====
-- The hardware spinlocks exclude each other's holders, whatever the cores do in between.
use rp2040_simlator.Base.{
  ℕ, zero, suc, ◌+◌, ◌-◌, ◌*◌, ◌/◌, ◌^◌, ◌<◌, ◌≡◌, refl, sym, ◌∙◌, ap, subst, Bool, true, false,
  ◌&&◌, List, ◌==◌, if◌then◌else◌, [], ◌∷◌, ◌++◌, Option, none, some, get_or, set, length,
  length-set, arith, Bool-cases, inl, inr,
}
use rp2040_simlator.Core.Bus.{BusResult, good}
use rp2040_simlator.Peripherals.Sio.{
  Sio, k_num_spinlocks, is_spinlock, set_active_core, on_cycles, bus_read, bus_write, mailbox_read,
  mailbox_write, refresh_fifo_irqs, launch_step,
}

-- The block, and which core believes to hold which lock.
pub record System : Type 0 where
  pub sio : Sio
  pub holds : ℕ → ℕ → Bool

abbrev pub lock_address : ℕ → ℕ
lock_address n = 0x100 + n * 4

abbrev update : ℕ → ℕ → Bool → (ℕ → ℕ → Bool) → ℕ → ℕ → Bool
update c n b h k m = if k == c && (m == n) then b else h k m

-- A core that reads a lock holds it when it reads something else than 0.
abbrev pub tried : ℕ → ℕ → System → System
tried c n y =
    let (r, s') = bus_read y.sio (lock_address n) in
    record { sio = s'; holds = if r.value == 0 then y.holds else update c n true y.holds }

abbrev pub unlocked : ℕ → ℕ → ℕ → System → System
unlocked c n value y = record {
  sio = (bus_write y.sio (lock_address n) value).1;
  holds = update c n false y.holds;
}

-- A core writes to a lock only when it holds it. Either core reads and writes every other register
-- at any time.
pub data Step : System → System → Type 0 where
  try_lock : (c n : ℕ) (y : System) → n < k_num_spinlocks → Step y (tried c n y)
  unlock :
      (c n value : ℕ) (y : System)
      → n < k_num_spinlocks
      → y.holds c n ≡ true
      → Step y (unlocked c n value y)
  read :
      (offset : ℕ) (y : System)
      → is_spinlock offset ≡ false
      → Step y (record y { sio = (bus_read y.sio offset).1 })
  write :
      (offset value : ℕ) (y : System)
      → is_spinlock offset ≡ false
      → Step y (record y { sio = (bus_write y.sio offset value).1 })
  switch : (c : ℕ) (y : System) → Step y (record y { sio = set_active_core y.sio c })
  cycles : (n : ℕ) (y : System) → Step y (record y { sio = on_cycles y.sio n })

-- From a block with its 32 locks, that no core holds yet.
pub data Reach : System → Type 0 where
  start :
      (s : Sio)
      → length s.spinlock ≡ k_num_spinlocks
      → Reach (record { sio = s; holds = λ c n. false })
  next : {y z : System} → Reach y → Step y z → Reach z

-- A lock that a core holds is taken, and no two cores hold one lock.
abbrev Held : System → Type 0
Held y = (c n : ℕ) → y.holds c n ≡ true → get_or y.sio.spinlock n false ≡ true

abbrev Alone : System → Type 0
Alone y = (c k n : ℕ) → y.holds c n ≡ true → y.holds k n ≡ true → c ≡ k

abbrev Invariant : System → Type 0
Invariant y = (length y.sio.spinlock ≡ k_num_spinlocks) × Held y × Alone y

refresh-keeps : (s : Sio) → (refresh_fifo_irqs s).spinlock ≡ s.spinlock
unfolding refresh_fifo_irqs
refresh-keeps s = refl

launch-keeps : (s : Sio) (v : ℕ) (stage : Option ℕ) → (launch_step s v stage).spinlock ≡ s.spinlock
unfolding launch_step
launch-keeps s v none = ground arith
launch-keeps s v (some x) = ground arith

mailbox_read-keeps : (s : Sio) (queue : List ℕ) → (mailbox_read s queue).1.spinlock ≡ s.spinlock
unfolding mailbox_read refresh_fifo_irqs
mailbox_read-keeps s [] = refl
mailbox_read-keeps s (x ∷ xs) = ground arith

mailbox_write-keeps : (s : Sio) (v : ℕ) → (mailbox_write s v).spinlock ≡ s.spinlock
unfolding mailbox_write refresh_fifo_irqs
mailbox_write-keeps s v = ground (
  arith,
  launch-keeps (record s { to1 = s.to1 ++ (v ∷ []); to0 = s.to0 ++ (v ∷ []) }) v s.launch_stage,
)

bus_read-keeps :
    (s : Sio) (offset : ℕ)
    → is_spinlock offset ≡ false
    → (bus_read s offset).1.spinlock ≡ s.spinlock
unfolding bus_read
bus_read-keeps s offset e =
    rw (e) (ground (arith, mailbox_read-keeps s s.to0, mailbox_read-keeps s s.to1))

bus_write-keeps :
    (s : Sio) (offset v : ℕ)
    → is_spinlock offset ≡ false
    → (bus_write s offset v).1.spinlock ≡ s.spinlock
unfolding bus_write
bus_write-keeps s offset v e = rw (e) (ground (arith, mailbox_write-keeps s v))

address_lem :
    (n : ℕ)
    → n < k_num_spinlocks
    → (is_spinlock (lock_address n) ≡ true) × ((lock_address n - 0x100) / 4 ≡ n)
address_lem n lt = (ground arith, omega arith)

get_or-set :
    (xs : List Bool) (n m : ℕ) (b : Bool)
    → n < length xs
    → get_or (set xs n b) m false ≡ (if m == n then b else get_or xs m false)
get_or-set [] n m b lt = absurd (omega arith)
get_or-set (x ∷ xs) zero zero b lt = refl
get_or-set (x ∷ xs) zero (suc m) b lt = ground arith
get_or-set (x ∷ xs) (suc n) zero b lt = ground arith
get_or-set (x ∷ xs) (suc n) (suc m) b lt = ground (arith, get_or-set xs n m b (omega (arith, lt)))

pow_pos : (n : ℕ) → 0 < 2 ^ n
pow_pos zero = omega arith
pow_pos (suc n) = omega (arith, pow_pos n)

nonzero : (n : ℕ) → (2 ^ n == 0) ≡ false
nonzero n = ground (arith, pow_pos n)

bus_read-lock :
    (s : Sio) (n : ℕ)
    → n < k_num_spinlocks
    → bus_read s (lock_address n) ≡ (
        if get_or s.spinlock n false
        then (good 0, s)
        else (good (2 ^ n), record s { spinlock = set s.spinlock n true }))
unfolding bus_read
bus_read-lock s n lt = let (a, b) = address_lem n lt in rw (a, b) refl

-- What a core makes of its try.
after_try : ℕ → ℕ → System → BusResult × Sio → System
after_try c n y x = record {
  sio = x.1;
  holds = if x.0.value == 0 then y.holds else update c n true y.holds;
}

tried_free :
    (c n : ℕ) (y : System)
    → n < k_num_spinlocks
    → get_or y.sio.spinlock n false ≡ false
    → tried c n y ≡ record {
      sio = record (y.sio) { spinlock = set y.sio.spinlock n true };
      holds = update c n true y.holds;
    }
unfolding after_try
tried_free c n y lt e =
    ap (after_try c n y) (bus_read-lock y.sio n lt)
    ∙ ap
        (λ b. after_try c n y (
          if b
          then (good 0, y.sio)
          else (good (2 ^ n), record (y.sio) { spinlock = set y.sio.spinlock n true })))
        e
    ∙ ap
        (λ b. record {
          sio = record (y.sio) { spinlock = set y.sio.spinlock n true };
          holds = if b then y.holds else update c n true y.holds;
        })
        (nonzero n)

tried_taken :
    (c n : ℕ) (y : System)
    → n < k_num_spinlocks
    → get_or y.sio.spinlock n false ≡ true
    → tried c n y ≡ y
unfolding after_try
tried_taken c n y lt e =
    ap (after_try c n y) (bus_read-lock y.sio n lt)
    ∙ ap
        (λ b. after_try c n y (
          if b
          then (good 0, y.sio)
          else (good (2 ^ n), record (y.sio) { spinlock = set y.sio.spinlock n true })))
        e

unlocked_lem :
    (c n value : ℕ) (y : System)
    → n < k_num_spinlocks
    → unlocked c n value y ≡ record {
      sio = record (y.sio) { spinlock = set y.sio.spinlock n false };
      holds = update c n false y.holds;
    }
unfolding bus_write
unlocked_lem c n value y lt = let (a, b) = address_lem n lt in rw (a, b) refl

taking :
    (c n : ℕ) (y : System) (s : Sio)
    → s.spinlock ≡ set y.sio.spinlock n true
    → n < k_num_spinlocks
    → get_or y.sio.spinlock n false ≡ false
    → Invariant y
    → Invariant (record { sio = s; holds = update c n true y.holds })
taking c n y s e lt free (len, held, alone) =
    (ap length e ∙ length-set y.sio.spinlock n true ∙ len, held', alone')
  where
    held' : Held (record { sio = s; holds = update c n true y.holds })
    held' k m h = ground (arith, e, h, held k m, len, lt, get_or-set y.sio.spinlock n m true)

    alone' : Alone (record { sio = s; holds = update c n true y.holds })
    alone' j k m h g = ground (arith, h, g, free, held j m, held k m, alone j k m)

freeing :
    (c n : ℕ) (y : System) (s : Sio)
    → s.spinlock ≡ set y.sio.spinlock n false
    → n < k_num_spinlocks
    → y.holds c n ≡ true
    → Invariant y
    → Invariant (record { sio = s; holds = update c n false y.holds })
freeing c n y s e lt mine (len, held, alone) =
    (ap length e ∙ length-set y.sio.spinlock n false ∙ len, held', alone')
  where
    held' : Held (record { sio = s; holds = update c n false y.holds })
    held' k m h =
        ground
          (arith, e, h, mine, held k m, alone c k n, len, lt, get_or-set y.sio.spinlock n m false)

    alone' : Alone (record { sio = s; holds = update c n false y.holds })
    alone' j k m h g = ground (arith, h, g, alone j k m)

same :
    (y : System) (s : Sio)
    → s.spinlock ≡ y.sio.spinlock
    → Invariant y
    → Invariant (record y { sio = s })
same y s e (len, held, alone) =
    (ap length e ∙ len, λ c n h. ap (λ l. get_or l n false) e ∙ held c n h, alone)

switch-keeps : (s : Sio) (c : ℕ) → (set_active_core s c).spinlock ≡ s.spinlock
unfolding set_active_core
switch-keeps s c = refl

cycles-keeps : (s : Sio) (n : ℕ) → (on_cycles s n).spinlock ≡ s.spinlock
unfolding on_cycles
cycles-keeps s n = refl

preserved : {y z : System} → Step y z → Invariant y → Invariant z
preserved (try_lock c n y lt) inv = elim (Bool-cases (get_or y.sio.spinlock n false)) [
  | inl e ↦ subst Invariant (sym (tried_taken c n y lt e)) inv
  | inr e ↦
      subst Invariant (sym (tried_free c n y lt e))
        (taking c n y (record (y.sio) { spinlock = set y.sio.spinlock n true }) refl lt e inv)
]
preserved (unlock c n value y lt mine) inv =
    subst Invariant (sym (unlocked_lem c n value y lt))
      (freeing c n y (record (y.sio) { spinlock = set y.sio.spinlock n false }) refl lt mine inv)
preserved (read offset y e) inv =
    same y (bus_read y.sio offset).1 (bus_read-keeps y.sio offset e) inv
preserved (write offset value y e) inv =
    same y (bus_write y.sio offset value).1 (bus_write-keeps y.sio offset value e) inv
preserved (switch c y) inv = same y (set_active_core y.sio c) (switch-keeps y.sio c) inv
preserved (cycles n y) inv = same y (on_cycles y.sio n) (cycles-keeps y.sio n) inv

invariant : {y : System} → Reach y → Invariant y
invariant (start s len) =
    (len, λ c n h. absurd (ground (arith, h)), λ c k n h g. absurd (ground (arith, h)))
invariant (next r st) = preserved st (invariant r)

-- In every state that the cores reach from a block of 32 locks, in whatever order they try locks,
-- write to those that they hold, and read and write the other registers, no two cores hold the same
-- lock, and a lock that a core holds is taken in the block.
pub reach-exclusive :
    {y : System}
    → Reach y
    → (c k n : ℕ) → y.holds c n ≡ true
    → y.holds k n ≡ true
    → (c ≡ k) × (get_or y.sio.spinlock n false ≡ true)
reach-exclusive r c k n h g = let (len, held, alone) = invariant r in (alone c k n h g, held c n h)
