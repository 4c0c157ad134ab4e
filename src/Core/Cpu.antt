-- ===== src/Core/Cpu.antt =====
-- The processor's own state, its exceptions and their priorities: core/cpu.h, core/cpu.cpp and
-- include/exceptions.h.
pub mod Machine
pub mod Priority
pub mod Data
pub mod LoadStore
pub mod Exceptions
pub mod Execute
pub mod Sleep
pub mod Step
use rp2040_simlator.Base.{
  ℕ, zero, suc, ◌+◌, ◌-◌, ◌*◌, ◌/◌, ◌%◌, ◌^◌, Bool, true, false, not, ◌&&◌, ◌||◌, List, ltb, leb,
  ◌==◌, if◌then◌else◌, get_or, set, bit_or, and_not, bit, test_bit, clear_low,
}
use rp2040_simlator.Base.Bits.{set_bit, clear_bit}
use rp2040_simlator.Base.Int.{ℤ, pos, negsuc, ltb_ℤ}
use rp2040_simlator.Core.Registers.{RegisterFile}

pub data ExecStatus : Type 0 where
  ok unimplemented undefined breakpoint svc mem_fault waiting_for_interrupt : ExecStatus
  exception_taken lockup : ExecStatus

abbrev pub exc_nmi : ℕ
exc_nmi = 2

abbrev pub exc_hard_fault : ℕ
exc_hard_fault = 3

abbrev pub exc_svcall : ℕ
exc_svcall = 11

abbrev pub exc_pendsv : ℕ
exc_pendsv = 14

abbrev pub exc_systick : ℕ
exc_systick = 15

abbrev pub exc_external0 : ℕ
exc_external0 = 16

abbrev pub num_rp2040_irqs : ℕ
num_rp2040_irqs = 26

abbrev pub max_exception : ℕ
max_exception = 41

abbrev pub exception_table_entries : ℕ
exception_table_entries = 42

-- The top two bits of the priority byte.
abbrev pub effective_priority : ℕ → ℕ
effective_priority raw = raw / 2 ^ 6 % 4

abbrev pub exc_return_handler_msp : ℕ
exc_return_handler_msp = 0xFFFF_FFF1

abbrev pub exc_return_thread_msp : ℕ
exc_return_thread_msp = 0xFFFF_FFF9

abbrev pub exc_return_thread_psp : ℕ
exc_return_thread_psp = 0xFFFF_FFFD

-- `(v & 0xFFFFFFF0) == 0xFFFFFFF0`, for a 32-bit v.
abbrev pub is_exc_return : ℕ → Bool
is_exc_return v = v / 2 ^ 4 == 0xFFF_FFFF

abbrev pub stack_frame_bytes : ℕ
stack_frame_bytes = 32

-- The private fields of `Cpu` but for its references: those that the System Control Space and the
-- interrupt lines of the peripherals write, and those of the core alone.
pub record CoreState : Type 0 where
  pub cycles : ℕ
  pub vtor : ℕ
  pub pending : ℕ
  pub irq_enabled : ℕ
  pub priority : List ℕ
  pub svc_imm : ℕ
  pub bkpt_imm : ℕ
  pub asleep : Bool
  pub sleep_is_wfe : Bool
  pub event : Bool
  pub sleep_on_exit : Bool

unfoldable pub pend_exception : CoreState → ℕ → CoreState
pend_exception c exc = record c { pending = set_bit c.pending exc }

unfoldable pub clear_pending : CoreState → ℕ → CoreState
clear_pending c exc = record c { pending = clear_bit c.pending exc }

unfoldable pub is_pending : CoreState → ℕ → Bool
is_pending c exc = test_bit c.pending exc

unfoldable pub set_vtor : CoreState → ℕ → CoreState
set_vtor c v = record c { vtor = clear_low v 7 }

unfoldable pub exception_priority : CoreState → ℕ → ℕ
exception_priority c exc = if ltb exc exception_table_entries then get_or c.priority exc 0 else 0

unfoldable pub set_exception_priority : CoreState → ℕ → ℕ → CoreState
set_exception_priority c exc raw =
    if ltb exc exception_table_entries then record c { priority = set c.priority exc raw } else c

unfoldable pub set_irq_enabled : CoreState → ℕ → Bool → CoreState
set_irq_enabled c irq en = if leb num_rp2040_irqs irq then c else record c {
  irq_enabled = if en then set_bit c.irq_enabled irq else clear_bit c.irq_enabled irq;
}

unfoldable pub irq_is_enabled : CoreState → ℕ → Bool
irq_is_enabled c irq = ltb irq num_rp2040_irqs && test_bit c.irq_enabled irq

unfoldable pub set_sleep_on_exit : CoreState → Bool → CoreState
set_sleep_on_exit c on = record c { sleep_on_exit = on }

unfoldable pub signal_event : CoreState → CoreState
signal_event c = record c {
  event = true;
  asleep = if c.asleep && c.sleep_is_wfe then false else c.asleep;
}

unfoldable pub priority_of : CoreState → ℕ → ℤ
unfolding exception_priority
priority_of c exc =
    if exc == exc_nmi
    then negsuc 1
    else if exc == exc_hard_fault
    then negsuc 0
    else pos (effective_priority (exception_priority c exc))

-- 256 if no exception is active; PRIMASK raises the priority to 0.
unfoldable pub current_execution_priority : CoreState → RegisterFile → ℤ
current_execution_priority c r =
    let prio = if r.exception == 0 then pos 256 else priority_of c r.exception in
    if r.primask && ltb_ℤ (pos 0) prio then pos 0 else prio

-- What the loop of `highest_pending_exception` asks of exception e before its priority counts.
unfoldable pub eligible : CoreState → RegisterFile → ℕ → Bool
unfolding irq_is_enabled
eligible c r e =
    test_bit c.pending e
    && not (leb exc_external0 e && not (irq_is_enabled c (e - exc_external0)))
    && not (r.primask && not (ltb_ℤ (priority_of c e) (pos 0)))

-- The loop, with `left` exceptions to go from e on.
unfoldable pub search_pending : CoreState → RegisterFile → ℕ → ℕ → ℕ → ℤ → ℕ
search_pending c r zero e best best_prio = best
search_pending c r (suc left) e best best_prio =
    let better = eligible c r e && ltb_ℤ (priority_of c e) best_prio in
    search_pending c r left (e + 1) (if better then e else best)
      (if better then priority_of c e else best_prio)

-- 0 if none is eligible.
unfoldable pub highest_pending_exception : CoreState → RegisterFile → ℕ
unfolding search_pending
highest_pending_exception c r = search_pending c r 40 2 0 (current_execution_priority c r)
