-- ===== src/Core/Bus.antt =====
-- The shared types of the system bus, core/bus.h, and the interface of a peripheral.
use rp2040_simlator.Base.{ℕ, Bool, true, false}

pub data BusWidth : Type 0 where
  byte half word : BusWidth

pub data BusStatus : Type 0 where
  ok misaligned_access invalid_address write_to_read_only peripheral_error : BusStatus

pub record BusResult : Type 0 where
  pub value : ℕ
  pub status : BusStatus

abbrev pub fail : BusStatus → BusResult
fail s = record { value = 0; status = s }

abbrev pub good : ℕ → BusResult
good v = record { value = v; status = BusStatus.ok }

abbrev pub is_ok : BusStatus → Bool
is_ok BusStatus.ok = true
is_ok _ = false

-- `sizeof(T)` of an access; the enumerators of BusWidth have these values.
abbrev pub bytes : BusWidth → ℕ
bytes BusWidth.byte = 1
bytes BusWidth.half = 2
bytes BusWidth.word = 4

-- `static_cast<T>(v)` for the type of an access.
abbrev pub bits_mod : BusWidth → ℕ
bits_mod BusWidth.byte = 0x100
bits_mod BusWidth.half = 0x1_0000
bits_mod BusWidth.word = 0x1_0000_0000

-- The virtual functions of `BusPeripheral`, for all the peripherals of one system. A peripheral
-- is named by a number in place of its address, and `S` is the state that the peripherals and
-- what they are wired to make up: a read may change it too.
pub record Devices (S : Type 0) : Type 0 where
  pub bus_read : ℕ → ℕ → BusWidth → S → BusResult × S
  pub bus_write : ℕ → ℕ → ℕ → BusWidth → S → BusStatus × S
