-- ===== src/Loaders/Tests.antt =====
-- A concrete UF2 image of two blocks.
use rp2040_simlator.Base.{replicate, some, ◌≡◌, refl, arith, [], ◌∷◌, none, true, false, inl, inr}
use rp2040_simlator.Core.Memory.{Store, fresh, backing}
use rp2040_simlator.Loaders.Uf2.{Uf2Error, load_uf2, k_uf2_family_rp2040}
use rp2040_simlator.Loaders.Uf2.Encode.{Chunk, IsLoadable, encode, encode_from, placed}
use rp2040_simlator.Loaders.Uf2.Images.{AllLoadable, load_uf2-encode}
use rp2040_simlator.Loaders.Uf2.Faults.{Raw, raw_block, IsFor, Faulty}
use rp2040_simlator.Loaders.Uf2.Refusals.{load_uf2-Faulty}

-- One block for the flash, one for the SRAM.
abbrev in_flash : Chunk
in_flash = record { addr = 0x1000_0100; payload = 1 ∷ 2 ∷ 3 ∷ [] }

abbrev in_sram : Chunk
in_sram = record { addr = 0x2000_0000; payload = 4 ∷ 5 ∷ [] }

in_flash-IsLoadable : IsLoadable in_flash
unfolding backing
in_flash-IsLoadable = record {
  some_bytes = omega arith;
  fits = omega arith;
  in_space = omega arith;
  st = Store.in_flash;
  off = 0x100;
  backed = refl;
}

in_sram-IsLoadable : IsLoadable in_sram
unfolding backing
in_sram-IsLoadable = record {
  some_bytes = omega arith;
  fits = omega arith;
  in_space = omega arith;
  st = Store.in_sram;
  off = 0;
  backed = refl;
}

load_uf2-encode_example : load_uf2 fresh (encode (in_flash ∷ in_sram ∷ [])) ≡ (
  placed fresh (in_flash ∷ in_sram ∷ []),
  record {
    ok = true;
    error = none;
    blocks_loaded = 2;
    blocks_skipped = 0;
    family_id = k_uf2_family_rp2040;
    lowest_addr = 0x1000_0100;
    highest_addr = 0x2000_0002;
  },
)
load_uf2-encode_example =
    load_uf2-encode fresh in_flash (in_sram ∷ [])
      (AllLoadable.cons in_flash-IsLoadable (AllLoadable.cons in_sram-IsLoadable AllLoadable.nil))
      (omega arith)

-- A block of zeros instead of the second one.
-- A block of two bytes for the boot ROM's end, where no more than one fits.
abbrev at_the_end : Raw
at_the_end = record {
  magic0 = 0x0A32_4655;
  magic1 = 0x9E5D_5157;
  flags = 0;
  addr = 0x3FFF;
  size = 2;
  number = 1;
  count = 2;
  family = 0;
  bytes = replicate 476 7;
  magic_end = 0x0AB1_6F30;
}

at_the_end-IsFor : IsFor 2 at_the_end
at_the_end-IsFor = record {
  marked = (refl, refl, refl);
  counted = refl;
  no_container = refl;
  for_rp2040 = inl refl;
  main_flash = refl;
}

load_uf2-Faulty_example :
    load_uf2 fresh (encode_from 2 0 (in_flash ∷ []) (raw_block at_the_end [])) ≡ (
      placed fresh (in_flash ∷ []),
      record {
        ok = false;
        error = some Uf2Error.not_backed;
        blocks_loaded = 0;
        blocks_skipped = 0;
        family_id = 0;
        lowest_addr = 0;
        highest_addr = 0;
      },
    )
load_uf2-Faulty_example =
    load_uf2-Faulty fresh (in_flash ∷ []) at_the_end [] 0 Uf2Error.not_backed
      (AllLoadable.cons in_flash-IsLoadable AllLoadable.nil) refl refl
      (Faulty.outside at_the_end-IsFor (omega arith) (omega arith) (omega arith)
        (inr (omega arith), inl (omega arith), inl (omega arith)))
