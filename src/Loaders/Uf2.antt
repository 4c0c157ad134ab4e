-- ===== src/Loaders/Uf2.antt =====
-- The UF2 loader: loaders/uf2_loader.h and uf2_loader.cpp.
pub mod Images
pub mod Faults
pub mod Refusals
pub mod Encode
use rp2040_simlator.Base.{
  ℕ, zero, suc, ◌+◌, ◌/◌, ◌%◌, Bool, true, false, not, ◌&&◌, ◌||◌, List, [], ◌∷◌, Option, none,
  some, ltb, ◌==◌, if◌then◌else◌, length, get_or, drop, take, u32, test_bit, bit_or, ◌<<<◌,
}
use rp2040_simlator.Core.Memory.{Memory}
use rp2040_simlator.Core.Memory.Backdoor.{load}

-- Little-endian, from the byte at `p` on.
unfoldable pub rd32 : List ℕ → ℕ → ℕ
rd32 b p =
    bit_or (bit_or (bit_or (get_or b p 0) (get_or b (p + 1) 0 <<< 8)) (get_or b (p + 2) 0 <<< 16))
      (get_or b (p + 3) 0 <<< 24)

-- The layout of a block.
abbrev pub k_flags : ℕ
k_flags = 8

abbrev pub k_target_addr : ℕ
k_target_addr = 12

abbrev pub k_payload_size : ℕ
k_payload_size = 16

abbrev pub k_num_blocks : ℕ
k_num_blocks = 24

abbrev pub k_family : ℕ
k_family = 28

abbrev pub k_data_start : ℕ
k_data_start = 32

abbrev pub k_magic_end : ℕ
k_magic_end = 508

abbrev pub k_block_size : ℕ
k_block_size = 512

abbrev pub k_max_payload : ℕ
k_max_payload = 476

abbrev pub k_magic0 : ℕ
k_magic0 = 0x0A32_4655

abbrev pub k_magic1 : ℕ
k_magic1 = 0x9E5D_5157

abbrev pub k_magic_end_val : ℕ
k_magic_end_val = 0x0AB1_6F30

abbrev pub k_uf2_family_rp2040 : ℕ
k_uf2_family_rp2040 = 0xE48B_FF56

-- The messages of `fail`, in the order of the source.
pub data Uf2Error : Type 0 where
  empty_image bad_size bad_start_magic bad_end_magic bad_num_blocks file_container : Uf2Error
  bad_family payload_too_long wraps_around not_backed no_payload : Uf2Error

pub record Uf2Image : Type 0 where
  pub ok : Bool
  pub error : Option Uf2Error
  pub blocks_loaded : ℕ
  pub blocks_skipped : ℕ
  pub family_id : ℕ
  pub lowest_addr : ℕ
  pub highest_addr : ℕ

abbrev pub fresh_image : Uf2Image
fresh_image = record {
  ok = false;
  error = none;
  blocks_loaded = 0;
  blocks_skipped = 0;
  family_id = 0;
  lowest_addr = 0;
  highest_addr = 0;
}

unfoldable pub fail : Uf2Error → Uf2Image
fail msg = record fresh_image { error = some msg }

-- What a block comes to: the result of `load_uf2`, or the next block.
pub data Outcome : Type 0 where
  returned : Uf2Error → Outcome
  next : Memory → Uf2Image → Outcome

-- The checks of a block up to its family, of a file of n blocks.
unfoldable pub header_error : ℕ → List ℕ → Option Uf2Error
header_error n b =
    if not (rd32 b 0 == k_magic0) || not (rd32 b 4 == k_magic1)
    then some Uf2Error.bad_start_magic
    else if not (rd32 b k_magic_end == k_magic_end_val)
    then some Uf2Error.bad_end_magic
    else if not (rd32 b k_num_blocks == n)
    then some Uf2Error.bad_num_blocks
    else if test_bit (rd32 b k_flags) 12
    then some Uf2Error.file_container
    else if test_bit (rd32 b k_flags) 13 && not (rd32 b k_family == k_uf2_family_rp2040)
    then some Uf2Error.bad_family
    else none

-- The family ID of a block that has one.
abbrev pub with_family : List ℕ → Uf2Image → Uf2Image
with_family b img = record img {
  family_id = if test_bit (rd32 b k_flags) 13 then rd32 b k_family else img.family_id;
}

-- After `mem.load` of the payload.
unfoldable pub loaded : ℕ → ℕ → Uf2Image → Bool × Memory → Outcome
loaded addr payload img (false, m) = Outcome.returned Uf2Error.not_backed
loaded addr payload img (true, m) =
    let end = u32 (addr + payload) in
    Outcome.next m (record img {
      blocks_loaded = u32 (img.blocks_loaded + 1);
      lowest_addr = if ltb addr img.lowest_addr then addr else img.lowest_addr;
      highest_addr = if ltb img.highest_addr end then end else img.highest_addr;
    })

-- The rest of the body of the loop, for a block that has passed.
unfoldable pub place_block : List ℕ → Memory → Uf2Image → Outcome
place_block b m img =
    let addr = rd32 b k_target_addr in
    let payload = rd32 b k_payload_size in
    if test_bit (rd32 b k_flags) 0
    then Outcome.next m (record img { blocks_skipped = u32 (img.blocks_skipped + 1) })
    else if payload == 0
    then Outcome.next m img
    else if ltb k_max_payload payload
    then Outcome.returned Uf2Error.payload_too_long
    else if ltb 0x1_0000_0000 (addr + payload)
    then Outcome.returned Uf2Error.wraps_around
    else loaded addr payload img (load m addr (take payload (drop k_data_start b)))

unfoldable pub load_block : ℕ → List ℕ → Memory → Uf2Image → Outcome
load_block n b m img = elim (header_error n b) [
  | some e ↦ Outcome.returned e
  | none ↦ place_block b m (with_family b img)
]

-- The loop over the blocks, of which there are n in the file; what follows the loop comes last. The
-- payloads that were loaded stay in the memory when a later block fails.
unfoldable pub load_blocks : ℕ → ℕ → List ℕ → Memory → Uf2Image → Memory × Uf2Image
load_blocks n zero image m img =
    (m, if img.blocks_loaded == 0 then fail Uf2Error.no_payload else record img { ok = true })
load_blocks n (suc left) image m img = elim (load_block n image m img) [
  | Outcome.returned e ↦ (m, fail e)
  | Outcome.next m' img' ↦ load_blocks n left (drop k_block_size image) m' img'
]

-- The null pointer is the list without bytes.
unfoldable pub load_uf2 : Memory → List ℕ → Memory × Uf2Image
load_uf2 m image =
    if length image == 0
    then (m, fail Uf2Error.empty_image)
    else if not (length image % k_block_size == 0)
    then (m, fail Uf2Error.bad_size)
    else let block_count = length image / k_block_size in
      load_blocks block_count block_count image m (record fresh_image { lowest_addr = 0xFFFF_FFFF })
