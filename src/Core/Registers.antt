-- ===== src/Core/Registers.antt =====
-- The register file of core/registers.h and core/registers.cpp.
pub mod Invariant
pub mod Status
use rp2040_simlator.Base.{
  ℕ, ◌+◌, ◌*◌, ◌/◌, ◌%◌, ◌^◌, Bool, true, false, not, ◌&&◌, List, ltb, ◌==◌, if◌then◌else◌, get_or,
  set, replicate, u32, clear_low, test_bit, of_bool, bit_or, ◌<<<◌,
}

pub data CpuMode : Type 0 where
  thread handler : CpuMode

-- The flags and special bits are the private fields of the class without their final `_`.
pub record RegisterFile : Type 0 where
  pub r : List ℕ
  pub pc : ℕ
  pub lr : ℕ
  pub msp : ℕ
  pub psp : ℕ
  pub n : Bool
  pub z : Bool
  pub c : Bool
  pub v : Bool
  pub t : Bool
  pub exception : ℕ
  pub npriv : Bool
  pub spsel : Bool
  pub primask : Bool

abbrev pub k_sp : ℕ
k_sp = 13

abbrev pub k_lr : ℕ
k_lr = 14

abbrev pub k_pc : ℕ
k_pc = 15

abbrev pub lr_reset_value : ℕ
lr_reset_value = 0xFFFF_FFFF

-- The state after `reset()`; the old state has no part in it.
unfoldable pub reset : RegisterFile
reset = record {
  r = replicate 13 0;
  pc = 0;
  lr = lr_reset_value;
  msp = 0;
  psp = 0;
  n = false;
  z = false;
  c = false;
  v = false;
  t = true;
  exception = 0;
  npriv = false;
  spsel = false;
  primask = false;
}

unfoldable pub mode : RegisterFile → CpuMode
mode s = if s.exception == 0 then CpuMode.thread else CpuMode.handler

unfoldable pub is_handler : RegisterFile → Bool
unfolding mode
is_handler s = elim (mode s) [ CpuMode.handler ↦ true | CpuMode.thread ↦ false ]

unfoldable pub sp : RegisterFile → ℕ
unfolding is_handler
sp s = if is_handler s then s.msp else if s.spsel then s.psp else s.msp

unfoldable pub set_sp : RegisterFile → ℕ → RegisterFile
unfolding is_handler
set_sp s value =
    let aligned = clear_low value 2 in
    if is_handler s
    then record s { msp = aligned }
    else if s.spsel
    then record s { psp = aligned }
    else record s { msp = aligned }

unfoldable pub set_pc : RegisterFile → ℕ → RegisterFile
set_pc s value = record s { pc = clear_low value 1 }

unfoldable pub advance_pc : RegisterFile → ℕ → RegisterFile
advance_pc s bytes = record s { pc = u32 (s.pc + bytes) }

unfoldable pub set_lr : RegisterFile → ℕ → RegisterFile
set_lr s value = record s { lr = value }

unfoldable pub set_msp : RegisterFile → ℕ → RegisterFile
set_msp s value = record s { msp = clear_low value 2 }

unfoldable pub set_psp : RegisterFile → ℕ → RegisterFile
set_psp s value = record s { psp = clear_low value 2 }

-- Callers pass n < 16, which the source asserts.
unfoldable pub get : RegisterFile → ℕ → ℕ
unfolding sp
get s n =
    if ltb n 13
    then get_or s.r n 0
    else if n == k_sp
    then sp s
    else if n == k_lr
    then s.lr
    else s.pc

unfoldable pub set_reg : RegisterFile → ℕ → ℕ → RegisterFile
unfolding set_sp set_pc
set_reg s n value =
    if ltb n 13
    then record s { r = set s.r n value }
    else if n == k_sp
    then set_sp s value
    else if n == k_lr
    then record s { lr = value }
    else set_pc s value

unfoldable pub set_flags : RegisterFile → Bool → Bool → Bool → Bool → RegisterFile
set_flags s n_flag z_flag c_flag v_flag = record s {
  n = n_flag;
  z = z_flag;
  c = c_flag;
  v = v_flag;
}

unfoldable pub set_nz_from : RegisterFile → ℕ → RegisterFile
set_nz_from s result = record s { n = test_bit result 31; z = result == 0 }

unfoldable pub apsr : RegisterFile → ℕ
apsr s =
    bit_or (of_bool s.n <<< 31)
      (bit_or (of_bool s.z <<< 30) (bit_or (of_bool s.c <<< 29) (of_bool s.v <<< 28)))

unfoldable pub ipsr : RegisterFile → ℕ
ipsr s = s.exception % 2 ^ 9

unfoldable pub epsr : RegisterFile → ℕ
epsr s = of_bool s.t <<< 24

unfoldable pub xpsr : RegisterFile → ℕ
unfolding apsr ipsr epsr
xpsr s = bit_or (bit_or (apsr s) (ipsr s)) (epsr s)

unfoldable pub set_apsr : RegisterFile → ℕ → RegisterFile
set_apsr s value = record s {
  n = test_bit value 31;
  z = test_bit value 30;
  c = test_bit value 29;
  v = test_bit value 28;
}

unfoldable pub set_xpsr : RegisterFile → ℕ → RegisterFile
unfolding set_apsr
set_xpsr s value = record (set_apsr s value) { t = test_bit value 24; exception = value % 2 ^ 9 }

unfoldable pub set_thumb : RegisterFile → Bool → RegisterFile
set_thumb s t' = record s { t = t' }

unfoldable pub set_exception_number : RegisterFile → ℕ → RegisterFile
set_exception_number s e = record s { exception = e % 2 ^ 9 }

unfoldable pub set_control : RegisterFile → Bool → Bool → RegisterFile
set_control s npriv' spsel' = record s { npriv = npriv'; spsel = spsel' }

unfoldable pub set_primask : RegisterFile → Bool → RegisterFile
set_primask s m = record s { primask = m }

infix 50 ◌==b◌
abbrev pub ◌==b◌ : Bool → Bool → Bool
true ==b y = y
false ==b y = not y

-- The switch on `cond4 >> 1`.
unfoldable pub base_condition : RegisterFile → ℕ → Bool
base_condition s k =
    if k == 0
    then s.z
    else if k == 1
    then s.c
    else if k == 2
    then s.n
    else if k == 3
    then s.v
    else if k == 4
    then s.c && not s.z
    else if k == 5
    then s.n ==b s.v
    else if k == 6
    then (s.n ==b s.v) && not s.z
    else true

-- Odd encodings invert, except 0b1111.
unfoldable pub condition_holds : RegisterFile → ℕ → Bool
unfolding base_condition
condition_holds s cond4 =
    let result = base_condition s (cond4 / 2) in
    if test_bit cond4 0 && not (cond4 == 15) then not result else result
