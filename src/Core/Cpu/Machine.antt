-- ===== src/Core/Cpu/Machine.antt =====
-- A core with the memory and the peripherals that it reaches, and computations that may stop
-- with a status, as the early returns of core/cpu.cpp do.
use rp2040_simlator.Base.{◌≡◌, ap, ℕ, ◌==◌, if◌then◌else◌, add32, clear_low}
use rp2040_simlator.Core.Bus.{BusWidth, BusStatus, BusResult, Devices, is_ok}
use rp2040_simlator.Core.Memory.{Memory}
use rp2040_simlator.Core.Memory.Scalar.{read_scalar, write_scalar}
use rp2040_simlator.Core.Registers.{RegisterFile, get, set_reg, set_pc}
use rp2040_simlator.Core.Cpu.{CoreState, ExecStatus}

-- `dev` is the state of all that stands behind the bus and is not the core's own.
pub record Machine (D : Type 0) : Type 0 where
  pub regs : RegisterFile
  pub mem : Memory
  pub core : CoreState
  pub dev : D

-- What the core is wired to. The peripherals see the core's exception state too, since the System
-- Control Space and the interrupt lines write it. `on_cycles` is `scs_->on_cycles`, and the
-- identity where no SCS is attached; `send_event` is `signal_event` on the sibling core.
pub record Wiring (D : Type 0) : Type 0 where
  pub devices : Devices (CoreState × D)
  pub on_cycles : ℕ → CoreState × D → CoreState × D
  pub send_event : D → D

pub data Outcome (A : Type 0) : Type 0 where
  done : A → Outcome A
  stop : ExecStatus → Outcome A

abbrev pub M : Type 0 → Type 0 → Type 0
M D A = Machine D → Outcome A × Machine D

-- What follows a part that finished; an early return passes the rest over.
abbrev pub resume : {D A B : Type 0} → (A → M D B) → Outcome A × Machine D → Outcome B × Machine D
resume f (done a, s) = f a s
resume f (stop e, s) = (stop e, s)

infixl 5 ◌>>=◌ ◌>>◌
abbrev pub ◌>>=◌ : {D A B : Type 0} → M D A → (A → M D B) → M D B
◌>>=◌ m f s = resume f (m s)

abbrev pub ◌>>◌ : {D B : Type 0} → M D (Unit {0}) → M D B → M D B
m >> k = m >>= λ _. k

-- A bind whose first part finished goes on with the rest.
pub bind_done :
    {D A B : Type 0} (m : M D A) (f : A → M D B) {s s' : Machine D} {a : A}
    → m s ≡ (done a, s')
    → (m >>= f) s ≡ f a s'
bind_done m f e = ap (resume f) e

abbrev pub return : {D A : Type 0} → A → M D A
return a s = (done a, s)

abbrev pub halt : {D A : Type 0} → ExecStatus → M D A
halt e s = (stop e, s)

-- The status of a computation, whichever way it ended.
abbrev pub status_of : Outcome ExecStatus → ExecStatus
status_of (done e) = e
status_of (stop e) = e

abbrev pub gets : {D A : Type 0} → (RegisterFile → A) → M D A
gets f s = (done (f s.regs), s)

abbrev pub modify : {D : Type 0} → (RegisterFile → RegisterFile) → M D (Unit {0})
modify f s = (done tt, record s { regs = f s.regs })

-- R15 reads as the instruction's address plus 4.
unfoldable pub read_reg : RegisterFile → ℕ → ℕ → ℕ
read_reg r n instr_pc = if n == 15 then add32 instr_pc 4 else get r n

unfoldable pub write_reg : RegisterFile → ℕ → ℕ → RegisterFile
write_reg r n value = if n == 15 then set_pc r (clear_low value 1) else set_reg r n value

-- `mem_.read_*` and `mem_.write_*`.
unfoldable pub bus_load : {D : Type 0} → Wiring D → ℕ → BusWidth → Machine D → BusResult × Machine D
bus_load w addr width s =
    let (r, m, cd) = read_scalar w.devices s.mem (s.core, s.dev) addr width in
    (r, record s { mem = m; core = cd.0; dev = cd.1 })

unfoldable pub bus_store :
    {D : Type 0} → Wiring D → ℕ → ℕ → BusWidth → Machine D → BusStatus × Machine D
bus_store w addr value width s =
    let (st, m, cd) = write_scalar w.devices s.mem (s.core, s.dev) addr value width in
    (st, record s { mem = m; core = cd.0; dev = cd.1 })

-- The same, stopping with status `e` where the access fails.
unfoldable pub load_or : {D : Type 0} → Wiring D → ExecStatus → ℕ → BusWidth → M D ℕ
unfolding bus_load
load_or w e addr width s =
    let (r, s') = bus_load w addr width s in
    if is_ok r.status then (done r.value, s') else (stop e, s')

unfoldable pub store_or : {D : Type 0} → Wiring D → ExecStatus → ℕ → ℕ → BusWidth → M D (Unit {0})
unfolding bus_store
store_or w e addr value width s =
    let (st, s') = bus_store w addr value width s in
    if is_ok st then (done tt, s') else (stop e, s')
