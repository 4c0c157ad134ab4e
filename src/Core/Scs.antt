-- ===== src/Core/Scs.antt =====
-- The System Control Space of both cores: core/scs.h and scs.cpp.
pub mod Nvic
pub mod SysTick
use rp2040_simlator.Base.{
  ℕ, zero, suc, ◌+◌, ◌-◌, ◌*◌, ◌/◌, ◌%◌, ◌^◌, Bool, true, false, not, ◌&&◌, ◌||◌, ltb, leb, ◌==◌,
  if◌then◌else◌, bit_and, bit_or, and_not, test_bit, Option, none, some,
}
use rp2040_simlator.Base.Bits.{set_bit, clear_bit}
use rp2040_simlator.Core.Bus.{BusStatus, BusResult, good}
use rp2040_simlator.Core.Cpu.{
  CoreState, exc_svcall, exc_pendsv, exc_systick, exc_external0, num_rp2040_irqs, pend_exception,
  clear_pending, is_pending, set_vtor, exception_priority, set_exception_priority, set_irq_enabled,
  irq_is_enabled, set_sleep_on_exit,
}
use rp2040_simlator.Core.Interrupts.{Cores, at_core}
use rp2040_simlator.Peripherals.Pacing.{ticks}

abbrev pub k_cpuid : ℕ
k_cpuid = 0x410C_C601

-- The registers of one core: SysTick and SCR.
pub record Bank : Type 0 where
  pub syst_csr : ℕ
  pub syst_rvr : ℕ
  pub syst_cvr : ℕ
  pub scr : ℕ

-- The cores of `core_`, and whether there is a second one.
pub record Scs : Type 0 where
  pub cpus : Cores
  pub has_core1 : Bool
  pub active : ℕ
  pub banks : ℕ → Bank

unfoldable pub set_active_core : Scs → ℕ → Scs
set_active_core s core = record s { active = if core == 1 && s.has_core1 then 1 else 0 }

-- `cur()` and the active bank, and changes to them.
abbrev pub cur : Scs → CoreState
cur s = s.cpus s.active

abbrev pub bank : Scs → Bank
bank s = s.banks s.active

abbrev pub at_cur : (CoreState → CoreState) → Scs → Scs
at_cur f s = record s { cpus = at_core f s.active s.cpus }

abbrev pub at_bank : (Bank → Bank) → Scs → Scs
at_bank f s = record s { banks = λ k. if k == s.active then f (s.banks k) else s.banks k }

-- The loops over the bits of a word, from bit i on: collecting the bits for which a test holds, and
-- acting on the core for each bit that is set.
unfoldable pub gather : (ℕ → Bool) → ℕ → ℕ → ℕ → ℕ
gather p zero i v = v
gather p (suc left) i v = gather p left (i + 1) (if p i then set_bit v i else v)

unfoldable pub for_bits : (CoreState → ℕ → CoreState) → ℕ → ℕ → ℕ → CoreState → CoreState
for_bits f zero i value c = c
for_bits f (suc left) i value c =
    for_bits f left (i + 1) value (if test_bit value i then f c i else c)

abbrev pub pend_irq : CoreState → ℕ → CoreState
pend_irq c i = pend_exception c (exc_external0 + i)

abbrev pub clear_irq : CoreState → ℕ → CoreState
clear_irq c i = clear_pending c (exc_external0 + i)

-- The loops of `read_ipr` and `write_ipr` from byte b on.
unfoldable pub read_ipr : CoreState → ℕ → ℕ → ℕ → ℕ → ℕ
read_ipr c word zero b v = v
read_ipr c word (suc left) b v =
    read_ipr c word left (b + 1)
      (bit_or v (exception_priority c (exc_external0 + (word * 4 + b)) * 2 ^ (b * 8)))

unfoldable pub write_ipr : ℕ → ℕ → ℕ → ℕ → CoreState → CoreState
write_ipr word value zero b c = c
write_ipr word value (suc left) b c =
    let irq = word * 4 + b in
    let rest =
      write_ipr word value left (b + 1)
        (set_exception_priority c (exc_external0 + irq) (value / 2 ^ (b * 8) % 2 ^ 8)) in
    if leb num_rp2040_irqs irq then c else rest

unfoldable pub read_shpr2 : CoreState → ℕ
read_shpr2 c = exception_priority c exc_svcall * 2 ^ 24

unfoldable pub read_shpr3 : CoreState → ℕ
read_shpr3 c =
    bit_or (exception_priority c exc_systick * 2 ^ 24) (exception_priority c exc_pendsv * 2 ^ 16)

abbrev pub is_ipr : ℕ → Bool
is_ipr offset = leb 0x400 offset && ltb offset 0x420

-- `vectactive` is the exception number in the program status of the active core.
unfoldable pub icsr : ℕ → CoreState → ℕ
icsr vectactive c =
    let v = if is_pending c exc_pendsv then bit_or vectactive (2 ^ 28) else vectactive in
    if is_pending c exc_systick then bit_or v (2 ^ 26) else v

unfoldable pub bus_read : ℕ → Scs → ℕ → BusResult × Scs
bus_read vectactive s offset =
    let c = cur s in
    let b = bank s in
    if offset == 0x010
    then (good b.syst_csr, at_bank (λ k. record k { syst_csr = clear_bit k.syst_csr 16 }) s)
    else (
      good (
          if offset == 0x014
          then b.syst_rvr % 2 ^ 24
          else if offset == 0x018
          then b.syst_cvr % 2 ^ 24
          else if offset == 0x100
          then gather (irq_is_enabled c) num_rp2040_irqs 0 0
          else if offset == 0x180
          then gather (irq_is_enabled c) num_rp2040_irqs 0 0
          else if offset == 0x200
          then gather (λ i. is_pending c (exc_external0 + i)) num_rp2040_irqs 0 0
          else if offset == 0x280
          then gather (λ i. is_pending c (exc_external0 + i)) num_rp2040_irqs 0 0
          else if offset == 0xD00
          then k_cpuid
          else if offset == 0xD04
          then icsr vectactive c
          else if offset == 0xD08
          then c.vtor
          else if offset == 0xD0C
          then 0x05FA_0000
          else if offset == 0xD10
          then b.scr
          else if offset == 0xD14
          then 0x208
          else if offset == 0xD1C
          then read_shpr2 c
          else if offset == 0xD20
          then read_shpr3 c
          else if is_ipr offset
          then read_ipr c ((offset - 0x400) / 4) 4 0 0
          else 0),
      s,
    )

-- The four commands of ICSR, in their order.
unfoldable pub write_icsr : ℕ → CoreState → CoreState
write_icsr value c =
    let c1 = if test_bit value 28 then pend_exception c exc_pendsv else c in
    let c2 = if test_bit value 27 then clear_pending c1 exc_pendsv else c1 in
    let c3 = if test_bit value 26 then pend_exception c2 exc_systick else c2 in
    if test_bit value 25 then clear_pending c3 exc_systick else c3

unfoldable pub write_shpr3 : ℕ → CoreState → CoreState
write_shpr3 value c =
    set_exception_priority (set_exception_priority c exc_systick (value / 2 ^ 24)) exc_pendsv
      (value / 2 ^ 16 % 2 ^ 8)

-- The writes that reach the active core; the others leave it.
unfoldable pub write_core : ℕ → ℕ → CoreState → CoreState
write_core offset value c =
    if offset == 0x100
    then for_bits (λ k i. set_irq_enabled k i true) 32 0 value c
    else if offset == 0x180
    then for_bits (λ k i. set_irq_enabled k i false) 32 0 value c
    else if offset == 0x200
    then for_bits pend_irq num_rp2040_irqs 0 value c
    else if offset == 0x280
    then for_bits clear_irq num_rp2040_irqs 0 value c
    else if offset == 0xD04
    then write_icsr value c
    else if offset == 0xD08
    then set_vtor c value
    else if offset == 0xD10
    then set_sleep_on_exit c (test_bit value 1)
    else if offset == 0xD1C
    then set_exception_priority c exc_svcall (value / 2 ^ 24)
    else if offset == 0xD20
    then write_shpr3 value c
    else if is_ipr offset
    then write_ipr ((offset - 0x400) / 4) value 4 0 c
    else c

-- The writes that reach the active bank. A write to CSR keeps COUNTFLAG.
unfoldable pub write_bank : ℕ → ℕ → Bank → Bank
write_bank offset value b =
    if offset == 0x010
    then record b { syst_csr = bit_or (bit_and b.syst_csr (2 ^ 16)) (value % 2 ^ 3) }
    else if offset == 0x014
    then record b { syst_rvr = value % 2 ^ 24 }
    else if offset == 0x018
    then record b { syst_cvr = 0; syst_csr = clear_bit b.syst_csr 16 }
    else if offset == 0xD10
    then record b { scr = bit_and value 0x16 }
    else b

-- Whether a write asks for a reset of the system: SYSRESETREQ, with the key.
abbrev pub asks_reset : ℕ → ℕ → Bool
asks_reset offset value = offset == 0xD0C && (value / 2 ^ 16 == 0x05FA) && test_bit value 2

-- With the status, the core whose write asks for a reset: the callback, or else that core's own
-- reset, takes it from there.
unfoldable pub bus_write : Scs → ℕ → ℕ → BusStatus × Option ℕ × Scs
bus_write s offset value = (
  BusStatus.ok,
  if asks_reset offset value then some s.active else none,
  at_cur (write_core offset value) (at_bank (write_bank offset value) s),
)

-- One core clock of SysTick: the active core's registers and its exceptions.
unfoldable pub systick_cycle : Bank × CoreState → Bank × CoreState
systick_cycle (b, c) =
    let v = (b.syst_cvr - 1) % 2 ^ 24 in
    if b.syst_cvr % 2 ^ 24 == 0
    then (record b { syst_cvr = b.syst_rvr % 2 ^ 24 }, c)
    else if v == 0
    then (
      record b { syst_cvr = v; syst_csr = set_bit b.syst_csr 16 },
      if test_bit b.syst_csr 1 then pend_exception c exc_systick else c,
    )
    else (record b { syst_cvr = v }, c)

unfoldable pub on_cycles : Scs → ℕ → Scs
on_cycles s cycles =
    let (b, c) = ticks systick_cycle cycles (bank s, cur s) in
    if test_bit (bank s).syst_csr 0 then at_bank (λ k. b) (at_cur (λ k. c) s) else s
