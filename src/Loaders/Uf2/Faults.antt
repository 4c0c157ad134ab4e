-- ===== src/Loaders/Uf2/Faults.antt =====
-- The blocks of a UF2 file that are not accepted, by their fields.
use rp2040_simlator.Base.{ℕ, ◌+◌, ◌/◌, ◌%◌, ◌^◌, ◌≤◌, ◌<◌, ◌≡◌, ◌≢◌, ◌⊎◌, List, ◌++◌}
use rp2040_simlator.Loaders.Uf2.{Uf2Error}
use rp2040_simlator.Loaders.Uf2.Encode.{le32}

-- The fields of any block, and its bytes before others.
pub record Raw : Type 0 where
  pub magic0 : ℕ
  pub magic1 : ℕ
  pub flags : ℕ
  pub addr : ℕ
  pub size : ℕ
  pub number : ℕ
  pub count : ℕ
  pub family : ℕ
  pub bytes : List ℕ
  pub magic_end : ℕ

abbrev pub raw_block : Raw → List ℕ → List ℕ
raw_block h rest = le32 h.magic0 (
    le32 h.magic1 (
      le32 h.flags (
        le32 h.addr (
          le32 h.size
            (le32 h.number (le32 h.count (le32 h.family (h.bytes ++ le32 h.magic_end rest))))))))

-- The start of the ROM, the flash and the SRAM, and no byte beyond.
abbrev pub Beyond : ℕ → ℕ → ℕ → ℕ → Type 0
Beyond base len addr n = (addr < base) ⊎ (base + len < addr + n)

abbrev pub Outside : ℕ → ℕ → Type 0
Outside addr n =
    Beyond 0 0x4000 addr n
    × Beyond 0x1000_0000 0x20_0000 addr n
    × Beyond 0x2000_0000 0x4_2000 addr n

abbrev pub Marked : Raw → Type 0
Marked h = (h.magic0 ≡ 0x0A32_4655) × (h.magic1 ≡ 0x9E5D_5157) × (h.magic_end ≡ 0x0AB1_6F30)

-- A block of a file of n blocks that says so, is no file container and is for the RP2040 if it is
-- for a family, and that goes to the main flash.
pub record IsFor (n : ℕ) (h : Raw) : Type 0 where
  pub marked : Marked h
  pub counted : h.count ≡ n
  pub no_container : h.flags / 4096 % 2 ≡ 0
  pub for_rp2040 : (h.flags / 8192 % 2 ≡ 0) ⊎ (h.family ≡ 0xE48B_FF56)
  pub main_flash : h.flags % 2 ≡ 0

-- What is wrong with a block of a file of n blocks, and the error that says so.
pub data Faulty (n : ℕ) (h : Raw) : Uf2Error → Type 0 where
  first_magic : h.magic0 ≢ 0x0A32_4655 → Faulty n h Uf2Error.bad_start_magic
  second_magic : h.magic1 ≢ 0x9E5D_5157 → Faulty n h Uf2Error.bad_start_magic
  last_magic :
      h.magic0 ≡ 0x0A32_4655
      → h.magic1 ≡ 0x9E5D_5157
      → h.magic_end ≢ 0x0AB1_6F30
      → Faulty n h Uf2Error.bad_end_magic
  other_count : Marked h → h.count ≢ n → Faulty n h Uf2Error.bad_num_blocks
  container : Marked h → h.count ≡ n → h.flags / 4096 % 2 ≡ 1 → Faulty n h Uf2Error.file_container
  other_family :
      Marked h
      → h.count ≡ n
      → h.flags / 4096 % 2 ≡ 0
      → h.flags / 8192 % 2 ≡ 1
      → h.family ≢ 0xE48B_FF56
      → Faulty n h Uf2Error.bad_family
  too_long : IsFor n h → 476 < h.size → Faulty n h Uf2Error.payload_too_long
  beyond_space :
      IsFor n h
      → 0 < h.size
      → h.size ≤ 476
      → 2 ^ 32 < h.addr + h.size
      → Faulty n h Uf2Error.wraps_around
  outside :
      IsFor n h
      → 0 < h.size
      → h.size ≤ 476
      → h.addr + h.size ≤ 2 ^ 32
      → Outside h.addr h.size
      → Faulty n h Uf2Error.not_backed
