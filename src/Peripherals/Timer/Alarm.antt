-- ===== src/Peripherals/Timer/Alarm.antt =====
-- An armed alarm fires when the counter reaches it, and its interrupt stays raised.
use rp2040_simlator.Base.{
  ℕ, zero, suc, ◌+◌, ◌<◌, ◌≡◌, refl, sym, ◌∙◌, ap, Bool, true, not, ◌&&◌, ◌||◌, arith, List, ltb,
  leb, ◌==◌, if◌then◌else◌, Bool-cases, inl, inr, get_or, u32, u64, test_bit, bit_or,
}
use rp2040_simlator.Base.Bits.{test_bit-set_bit, test_bit-clear_bit, bit-bit_and, bit-bit_or}
use rp2040_simlator.Core.Cpu.{is_pending}
use rp2040_simlator.Core.Interrupts.{Cores, mem_core, pend_all, clear_all}
use rp2040_simlator.Core.Interrupts.Lines.{is_pending-pend_all, is_pending-clear_all}
use rp2040_simlator.Peripherals.Pacing.{ticks}
use rp2040_simlator.Peripherals.Timer.{
  Alarms, k_irq0, k_num_alarms, asserted, refresh_from, refresh_irqs, fire_one, fire_from,
  fire_due_alarms, tick,
}

-- Whether the loop over alarms i, i + 1, ... fires alarm j.
abbrev due : ℕ → ℕ → ℕ → Alarms → Bool
due left i j a =
    leb i j && ltb j (i + left) && test_bit a.armed j && (get_or a.alarm j 0 == u32 a.counter)

fire_one_lem :
    (i j : ℕ) (a : Alarms)
    → let a' = fire_one i a in
      (test_bit a'.intr j ≡ (test_bit a.intr j || due 1 i j a))
      × (test_bit a'.armed j ≡ (test_bit a.armed j && not (due 1 i j a)))
      × (a'.alarm ≡ a.alarm)
      × (a'.counter ≡ a.counter)
      × (a'.inte ≡ a.inte)
      × (a'.nvic ≡ a.nvic)
unfolding fire_one
fire_one_lem i j a = ground (arith, test_bit-set_bit a.intr i j, test_bit-clear_bit a.armed i j)

fire_from_lem :
    (left i j : ℕ) (a : Alarms)
    → let a' = fire_from left i a in
      (test_bit a'.intr j ≡ (test_bit a.intr j || due left i j a))
      × (test_bit a'.armed j ≡ (test_bit a.armed j && not (due left i j a)))
      × (a'.alarm ≡ a.alarm)
      × (a'.counter ≡ a.counter)
      × (a'.inte ≡ a.inte)
      × (a'.nvic ≡ a.nvic)
unfolding fire_from
fire_from_lem zero i j a = ground arith
fire_from_lem (suc left) i j a =
    ground (arith, fire_from_lem left (i + 1) j (fire_one i a), fire_one_lem i j a)

refresh_from_lem :
    (left i j k lines : ℕ) (nvic : List ℕ) (cpus : Cores)
    → is_pending (refresh_from left i nvic lines cpus k) (k_irq0 + j) ≡ (
        if leb i j && ltb j (i + left) && mem_core k nvic
        then test_bit lines j
        else is_pending (cpus k) (k_irq0 + j))
unfolding refresh_from
refresh_from_lem zero i j k lines nvic cpus = ground arith
refresh_from_lem (suc left) i j k lines nvic cpus = ground (
  arith,
  refresh_from_lem left (i + 1) j k lines nvic (pend_all nvic (k_irq0 + i) cpus),
  refresh_from_lem left (i + 1) j k lines nvic (clear_all nvic (k_irq0 + i) cpus),
  is_pending-pend_all nvic (k_irq0 + i) (k_irq0 + j) k cpus,
  is_pending-clear_all nvic (k_irq0 + i) (k_irq0 + j) k cpus,
)

-- One microsecond, as alarm j sees it.
abbrev fires : ℕ → Alarms → Bool
fires j a = test_bit a.armed j && (get_or a.alarm j 0 == u32 (a.counter + 1))

tick_lem :
    (j : ℕ) (a : Alarms)
    → j < k_num_alarms
    → let a' = tick a in
      (test_bit a'.intr j ≡ (test_bit a.intr j || fires j a))
      × (test_bit a'.armed j ≡ (test_bit a.armed j && not (fires j a)))
      × (a'.alarm ≡ a.alarm)
      × (a'.counter ≡ u64 (a.counter + 1))
      × (a'.inte ≡ a.inte)
      × (a'.nvic ≡ a.nvic)
unfolding tick fire_due_alarms refresh_irqs
tick_lem j a lt =
    ground (arith, lt, fire_from_lem k_num_alarms 0 j (record a { counter = u64 (a.counter + 1) }))

pub test_bit-asserted :
    (a : Alarms) (j : ℕ)
    → test_bit (asserted a) j ≡ ((test_bit a.intr j || test_bit a.intf j) && test_bit a.inte j)
unfolding asserted
test_bit-asserted a j =
    ground (arith, bit-bit_and j (bit_or a.intr a.intf) a.inte, bit-bit_or j a.intr a.intf)

asserted-refresh_irqs : (a : Alarms) → asserted (refresh_irqs a) ≡ asserted a
unfolding asserted refresh_irqs
asserted-refresh_irqs a = refl

-- After any microsecond the interrupt lines show the asserted alarms.
is_pending-refresh_irqs :
    (j c : ℕ) (a : Alarms)
    → j < k_num_alarms
    → mem_core c a.nvic ≡ true
    → is_pending ((refresh_irqs a).cpus c) (k_irq0 + j) ≡ test_bit (asserted a) j
unfolding refresh_irqs
is_pending-refresh_irqs j c a lt mem =
    ground (arith, lt, mem, refresh_from_lem k_num_alarms 0 j c (asserted a) a.nvic a.cpus)

is_pending-tick :
    (j c : ℕ) (a : Alarms)
    → j < k_num_alarms
    → mem_core c a.nvic ≡ true
    → is_pending ((tick a).cpus c) (k_irq0 + j) ≡ test_bit (asserted (tick a)) j
unfolding tick fire_due_alarms
is_pending-tick j c a lt mem =
    let b = fire_from k_num_alarms 0 (record a { counter = u64 (a.counter + 1) }) in
    is_pending-refresh_irqs j c b lt (
      ground
        (arith, mem, fire_from_lem k_num_alarms 0 j (record a { counter = u64 (a.counter + 1) })))
    ∙ ap (λ n. test_bit n j) (sym (asserted-refresh_irqs b))

-- Alarm i is armed for d microseconds from now.
abbrev pub Waiting : ℕ → ℕ → Alarms → Type 0
Waiting i d a = (test_bit a.armed i ≡ true) × (get_or a.alarm i 0 ≡ u32 (a.counter + d))

u32-step : (n d : ℕ) → u32 (u64 (n + 1) + d) ≡ u32 (n + suc d)
u32-step n d = omega arith

ticks-keeps_intr :
    (k i : ℕ) (a : Alarms)
    → i < k_num_alarms
    → test_bit a.intr i ≡ true
    → test_bit (ticks tick k a).intr i ≡ true
ticks-keeps_intr zero i a lt set = set
ticks-keeps_intr (suc k) i a lt set =
    ticks-keeps_intr k i (tick a) lt (ground (arith, set, tick_lem i a lt))

pub ticks-keeps :
    (k : ℕ) (a : Alarms) → ((ticks tick k a).inte ≡ a.inte) × ((ticks tick k a).nvic ≡ a.nvic)
ticks-keeps zero a = (refl, refl)
ticks-keeps (suc k) a = ground (arith, ticks-keeps k (tick a), tick_lem 0 a (omega arith))

-- An alarm set d ≥ 1 microseconds ahead is raised after d of them.
pub ticks-raises :
    (k d i : ℕ) (a : Alarms)
    → i < k_num_alarms
    → d < k
    → Waiting i (suc d) a
    → test_bit (ticks tick k a).intr i ≡ true
ticks-raises zero d i a lt le w = absurd (omega (arith, le))
ticks-raises (suc k) zero i a lt le (on, at) =
    ticks-keeps_intr k i (tick a) lt (ground (arith, on, at, tick_lem i a lt))
ticks-raises (suc k) (suc d) i a lt le (on, at) = elim (Bool-cases (fires i a)) [
  | inl e ↦ ticks-keeps_intr k i (tick a) lt (ground (arith, e, tick_lem i a lt))
  | inr e ↦ ticks-raises k d i (tick a) lt (omega (arith, le)) (
    ground (arith, e, on, tick_lem i a lt),
    ground (arith, at, tick_lem i a lt, u32-step a.counter (suc d)),
  )
]

-- After a microsecond the lines show what is asserted.
pub is_pending-ticks :
    (k i c : ℕ) (a : Alarms)
    → i < k_num_alarms
    → mem_core c a.nvic ≡ true
    → 0 < k
    → is_pending ((ticks tick k a).cpus c) (k_irq0 + i) ≡ test_bit (asserted (ticks tick k a)) i
is_pending-ticks zero i c a lt mem pos = absurd (omega (arith, pos))
is_pending-ticks (suc zero) i c a lt mem pos = is_pending-tick i c a lt mem
is_pending-ticks (suc (suc k)) i c a lt mem pos =
    is_pending-ticks (suc k) i c (tick a) lt (ground (arith, mem, tick_lem 0 a (omega arith)))
      (omega arith)
