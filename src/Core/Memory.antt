-- ===== src/Core/Memory.antt =====
-- The unified memory and address decoder: core/memory.h and core/memory.cpp.
pub mod Watchpoints
pub mod Scalar
pub mod Backdoor
pub mod Attach
pub mod Access
pub mod Sram
pub mod Protection
pub mod Routing
use rp2040_simlator.Base.{
  ℕ, zero, suc, ◌+◌, ◌-◌, ◌*◌, ◌/◌, ◌%◌, ◌^◌, ◌≤◌, Bool, true, false, not, ◌&&◌, ◌||◌, List, [],
  ◌∷◌, ◌++◌, Option, none, some, ltb, leb, ◌==◌, if◌then◌else◌, u8, u32, bit_and, bit_or, bit_xor,
  and_not, ◌<<<◌, ◌>>>◌, length,
}

pub record Region : Type 0 where
  pub base : ℕ
  pub size : ℕ

abbrev pub contains : Region → ℕ → Bool
contains r addr = leb r.base addr && ltb (addr - r.base) r.size

abbrev pub contains_span : Region → ℕ → ℕ → Bool
contains_span r addr n = leb n r.size && (leb r.base addr && leb (addr - r.base) (r.size - n))

abbrev pub k_rom : Region
k_rom = record { base = 0; size = 0x4000 }

abbrev pub k_flash : Region
k_flash = record { base = 0x1000_0000; size = 0x20_0000 }

abbrev pub k_sram : Region
k_sram = record { base = 0x2000_0000; size = 0x4_2000 }

abbrev pub k_register_space : Region
k_register_space = record { base = 0x4000_0000; size = 0x2000_0000 }

abbrev pub k_sio : Region
k_sio = record { base = 0xD000_0000; size = 0x1000_0000 }

abbrev pub k_ppb : Region
k_ppb = record { base = 0xE000_0000; size = 0x10_0000 }

-- `peripheral` names the object that the pointer of the source points to.
pub record PeripheralMapping : Type 0 where
  pub region : Region
  pub peripheral : ℕ

pub record Watchpoint : Type 0 where
  pub addr : ℕ
  pub len : ℕ
  pub on_read : Bool
  pub on_write : Bool

-- The three byte vectors have fixed sizes, those of their regions, and are functions from the
-- offset; an access is only made where `backing` has found the span inside the region.
pub record Memory : Type 0 where
  pub rom : ℕ → ℕ
  pub flash : ℕ → ℕ
  pub sram : ℕ → ℕ
  pub peripherals : List PeripheralMapping
  pub watchpoints : List Watchpoint
  pub suppress_wp : Bool
  pub wp_hit : Bool
  pub wp_hit_addr : ℕ
  pub wp_hit_was_write : Bool

-- The state after construction: all stores are zero.
unfoldable pub fresh : Memory
fresh = record {
  rom = λ _. 0;
  flash = λ _. 0;
  sram = λ _. 0;
  peripherals = [];
  watchpoints = [];
  suppress_wp = false;
  wp_hit = false;
  wp_hit_addr = 0;
  wp_hit_was_write = false;
}

-- Which vector a backing pointer points into.
pub data Store : Type 0 where
  in_rom in_flash in_sram : Store

abbrev pub store : Memory → Store → ℕ → ℕ
store m Store.in_rom = m.rom
store m Store.in_flash = m.flash
store m Store.in_sram = m.sram

-- The vector and the offset in it; `none` is the null pointer.
unfoldable pub backing : ℕ → ℕ → Option (Store × ℕ)
backing addr n =
    if contains_span k_rom addr n
    then some (Store.in_rom, addr - k_rom.base)
    else if contains_span k_flash addr n
    then some (Store.in_flash, addr - k_flash.base)
    else if contains_span k_sram addr n
    then some (Store.in_sram, addr - k_sram.base)
    else none

abbrev pub update : (ℕ → ℕ) → ℕ → ℕ → ℕ → ℕ
update f i v j = if i == j then v else f j

unfoldable pub find_mapping : List PeripheralMapping → ℕ → ℕ → Option PeripheralMapping
find_mapping [] addr n = none
find_mapping (m ∷ ms) addr n =
    if contains_span m.region addr n then some m else find_mapping ms addr n

unfoldable pub find_peripheral : Memory → ℕ → ℕ → Option PeripheralMapping
find_peripheral m addr n =
    if contains k_register_space addr || (contains k_sio addr || contains k_ppb addr)
    then find_mapping m.peripherals addr n
    else none
