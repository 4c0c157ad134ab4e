-- ===== src/Loaders/Uf2/Refusals.antt =====
-- Files with a block that is not accepted: the error of each, and what stays in the memory.
use rp2040_simlator.Base.{
  ℕ, zero, suc, ◌+◌, ◌*◌, ◌%◌, ◌^◌, ◌≤◌, ◌<◌, ◌≡◌, refl, ◌∙◌, true, false, List, [], ◌∷◌, ◌++◌,
  none, some, ltb, ◌==◌, length, length-append, take, drop, test_bit, arith,
}
use rp2040_simlator.Core.Memory.{Memory, backing}
use rp2040_simlator.Core.Memory.Backdoor.{load}
use rp2040_simlator.Loaders.Uf2.{
  rd32, Uf2Error, Uf2Image, Outcome, k_block_size, fresh_image, fail, header_error, place_block,
  with_family, loaded, load_block, load_blocks, load_uf2,
}
use rp2040_simlator.Loaders.Uf2.Encode.{
  Chunk, le32, encode_from, placed, noted_all, get_or-append, rd32-le32, rd32_same,
}
use rp2040_simlator.Loaders.Uf2.Images.{
  AllLoadable, load_block_passed, load_uf2_passed, load_blocks-encode_from, length-encode_from,
}
use rp2040_simlator.Loaders.Uf2.Faults.{Raw, raw_block, Outside, IsFor, Faulty}

length-take {ℓ} : {A : Type ℓ} → (n : ℕ) (xs : List A) → n ≤ length xs → length (take n xs) ≡ n
length-take zero xs h = refl
length-take (suc n) [] h = omega (arith, h)
length-take (suc n) (x ∷ xs) h = omega (arith, length-take n xs (omega (arith, h)))

-- The tests on the fields of a block that goes to the main flash.
bit_clear : (f : ℕ) → f % 2 ≡ 0 → test_bit f 0 ≡ false
bit_clear f p = ground (arith, p)

nonzero : (k : ℕ) → 0 < k → (k == 0) ≡ false
nonzero k p = ground (arith, p)

not_below : (l k : ℕ) → k ≤ l → ltb l k ≡ false
not_below l k p = ground (arith, p)

above : (l k : ℕ) → l < k → ltb l k ≡ true
above l k p = ground (arith, p)

-- No load beyond the regions.
backing-Outside : (addr n : ℕ) → 0 < n → n ≤ 476 → Outside addr n → backing addr n ≡ none
unfolding backing
backing-Outside addr n pos short (r, f, s) = ground (arith, pos, short, r, f, s)

load-Outside :
    (m : Memory) (addr : ℕ) (bs : List ℕ) (n : ℕ)
    → length bs ≡ n
    → 0 < n
    → n ≤ 476
    → Outside addr n
    → load m addr bs ≡ (false, m)
unfolding load
load-Outside m addr bs n len pos short out =
    rw
      (
        len,
        nonzero n pos,
        not_below 0xFFFF_FFFF n (omega (arith, short)),
        backing-Outside addr n pos short out,
      )
      refl

load_block-failed :
    (n : ℕ) (b : List ℕ) (m : Memory) (img : Uf2Image) (e : Uf2Error)
    → header_error n b ≡ some e
    → load_block n b m img ≡ Outcome.returned e
unfolding load_block
load_block-failed n b m img e p = rw (p, load_block) refl

load_blocks-failed :
    (n left : ℕ) (bs : List ℕ) (m : Memory) (img : Uf2Image) (e : Uf2Error)
    → load_block n bs m img ≡ Outcome.returned e
    → load_blocks n (suc left) bs m img ≡ (m, fail e)
unfolding load_blocks
load_blocks-failed n left bs m img e p = rw (p, load_blocks) refl

module _ (h : Raw) (rest : List ℕ) (size : length h.bytes ≡ 476) where
  raw_fields :
      let b = raw_block h rest in
      (rd32 b 0 ≡ h.magic0)
      × (rd32 b 4 ≡ h.magic1)
      × (rd32 b 8 ≡ h.flags)
      × (rd32 b 12 ≡ h.addr)
      × (rd32 b 16 ≡ h.size)
      × (rd32 b 24 ≡ h.count)
      × (rd32 b 28 ≡ h.family)
  unfolding rd32
  raw_fields = (
    rd32-le32 h.magic0 [],
    rd32-le32 h.magic1 [],
    rd32-le32 h.flags [],
    rd32-le32 h.addr [],
    rd32-le32 h.size [],
    rd32-le32 h.count [],
    rd32-le32 h.family [],
  )

  raw_end : rd32 (raw_block h rest) 508 ≡ h.magic_end
  raw_end =
      rd32_same (raw_block h rest) (le32 h.magic_end rest) 508 0
        (get_or-append h.bytes (le32 h.magic_end rest) 476 0 (omega (arith, size)))
        (get_or-append h.bytes (le32 h.magic_end rest) 477 1 (omega (arith, size)))
        (get_or-append h.bytes (le32 h.magic_end rest) 478 2 (omega (arith, size)))
        (get_or-append h.bytes (le32 h.magic_end rest) 479 3 (omega (arith, size)))
      ∙ rd32-le32 h.magic_end rest

  -- The checks of the header.
  header_error-IsFor : (n : ℕ) → IsFor n h → header_error n (raw_block h rest) ≡ none
  unfolding header_error
  header_error-IsFor n p =
      let (m0, m1, flags, addr, len, count, family) = raw_fields in
      rw (m0, m1, raw_end, flags, count, family)
        (ground (arith, p.marked, p.counted, p.no_container, p.for_rp2040))

  -- The rest of a block for a payload of some bytes, up to the stores of the memory.
  payload-length : h.size ≤ 476 → length (take h.size (drop 32 (raw_block h rest))) ≡ h.size
  payload-length p =
      length-take h.size (h.bytes ++ le32 h.magic_end rest)
        (omega (arith, length-append h.bytes (le32 h.magic_end rest), size, p))

  place_block-too_long :
      (n : ℕ) (m : Memory) (img : Uf2Image)
      → IsFor n h
      → 476 < h.size
      → place_block (raw_block h rest) m img ≡ Outcome.returned Uf2Error.payload_too_long
  unfolding place_block
  place_block-too_long n m img p q =
      let (m0, m1, flags, addr, len, count, family) = raw_fields in
      rw
        (
          flags,
          len,
          bit_clear h.flags p.main_flash,
          nonzero h.size (omega (arith, q)),
          above 476 h.size q,
        )
        refl

  place_block-beyond_space :
      (n : ℕ) (m : Memory) (img : Uf2Image)
      → IsFor n h
      → 0 < h.size
      → h.size ≤ 476
      → 2 ^ 32 < h.addr + h.size
      → place_block (raw_block h rest) m img ≡ Outcome.returned Uf2Error.wraps_around
  unfolding place_block
  place_block-beyond_space n m img p q r t =
      let (m0, m1, flags, addr, len, count, family) = raw_fields in
      rw
        (
          flags,
          addr,
          len,
          bit_clear h.flags p.main_flash,
          nonzero h.size q,
          not_below 476 h.size r,
          above 0x1_0000_0000 (h.addr + h.size) t,
        )
        refl

  place_block-Outside :
      (n : ℕ) (m : Memory) (img : Uf2Image)
      → IsFor n h
      → 0 < h.size
      → h.size ≤ 476
      → h.addr + h.size ≤ 2 ^ 32
      → Outside h.addr h.size
      → place_block (raw_block h rest) m img ≡ Outcome.returned Uf2Error.not_backed
  unfolding place_block loaded
  place_block-Outside n m img p q r t u =
      let (m0, m1, flags, addr, len, count, family) = raw_fields in
      rw
        (
          flags,
          addr,
          len,
          bit_clear h.flags p.main_flash,
          nonzero h.size q,
          not_below 476 h.size r,
          not_below 0x1_0000_0000 (h.addr + h.size) t,
          load-Outside m h.addr (take h.size (drop 32 (raw_block h rest))) h.size (payload-length r)
              q r u,
        )
        refl

  load_block-Faulty :
      (n : ℕ) (e : Uf2Error) (m : Memory) (img : Uf2Image)
      → Faulty n h e
      → load_block n (raw_block h rest) m img ≡ Outcome.returned e
  unfolding header_error
  load_block-Faulty n Uf2Error.bad_start_magic m img (Faulty.first_magic p) =
      let (m0, m1, flags, addr, len, count, family) = raw_fields in
      load_block-failed n (raw_block h rest) m img Uf2Error.bad_start_magic
        (rw (m0, m1, raw_end, flags, count, family) (ground (arith, p)))
  load_block-Faulty n Uf2Error.bad_start_magic m img (Faulty.second_magic p) =
      let (m0, m1, flags, addr, len, count, family) = raw_fields in
      load_block-failed n (raw_block h rest) m img Uf2Error.bad_start_magic
        (rw (m0, m1, raw_end, flags, count, family) (ground (arith, p)))
  load_block-Faulty n Uf2Error.bad_end_magic m img (Faulty.last_magic p q r) =
      let (m0, m1, flags, addr, len, count, family) = raw_fields in
      load_block-failed n (raw_block h rest) m img Uf2Error.bad_end_magic
        (rw (m0, m1, raw_end, flags, count, family) (ground (arith, p, q, r)))
  load_block-Faulty n Uf2Error.bad_num_blocks m img (Faulty.other_count p q) =
      let (m0, m1, flags, addr, len, count, family) = raw_fields in
      load_block-failed n (raw_block h rest) m img Uf2Error.bad_num_blocks
        (rw (m0, m1, raw_end, flags, count, family) (ground (arith, p, q)))
  load_block-Faulty n Uf2Error.file_container m img (Faulty.container p q r) =
      let (m0, m1, flags, addr, len, count, family) = raw_fields in
      load_block-failed n (raw_block h rest) m img Uf2Error.file_container
        (rw (m0, m1, raw_end, flags, count, family) (ground (arith, p, q, r)))
  load_block-Faulty n Uf2Error.bad_family m img (Faulty.other_family p q r t u) =
      let (m0, m1, flags, addr, len, count, family) = raw_fields in
      load_block-failed n (raw_block h rest) m img Uf2Error.bad_family
        (rw (m0, m1, raw_end, flags, count, family) (ground (arith, p, q, r, t, u)))
  load_block-Faulty n e m img (Faulty.too_long p q) =
      load_block_passed n (raw_block h rest) m img (header_error-IsFor n p)
      ∙ place_block-too_long n m (with_family (raw_block h rest) img) p q
  load_block-Faulty n e m img (Faulty.beyond_space p q r t) =
      load_block_passed n (raw_block h rest) m img (header_error-IsFor n p)
      ∙ place_block-beyond_space n m (with_family (raw_block h rest) img) p q r t
  load_block-Faulty n e m img (Faulty.outside p q r t u) =
      load_block_passed n (raw_block h rest) m img (header_error-IsFor n p)
      ∙ place_block-Outside n m (with_family (raw_block h rest) img) p q r t u

-- A file of good chunks and then a faulty block, with any whole number of blocks behind it, is
-- refused with the error of that fault, and the report is otherwise that of a loader that has done
-- nothing; but the payloads of the chunks before it are in the memory. A block is faulty for a wrong
-- magic number, a number of blocks that is not the one of the file, a file container, a family that
-- is not RP2040, a payload of more than 476 bytes, one that runs past 2^32, and one that lies in no
-- region of the memory; a block with several faults has the first of these.
pub load_uf2-Faulty :
    (m : Memory) (cs : List Chunk) (h : Raw) (rest : List ℕ) (left : ℕ) (e : Uf2Error)
    → AllLoadable cs
    → length h.bytes ≡ 476
    → length rest ≡ left * k_block_size
    → Faulty (length cs + suc left) h e
    → load_uf2 m (encode_from (length cs + suc left) 0 cs (raw_block h rest)) ≡ (
      placed m cs,
      record {
        ok = false;
        error = some e;
        blocks_loaded = 0;
        blocks_skipped = 0;
        family_id = 0;
        lowest_addr = 0;
        highest_addr = 0;
      },
    )
unfolding fail
load_uf2-Faulty m cs h rest left e good size others faulty =
    let n = length cs + suc left in
    let bs = raw_block h rest in
    let img = record fresh_image { lowest_addr = 0xFFFF_FFFF } in
    load_uf2_passed m (encode_from n 0 cs bs) n (omega arith) whole_blocks
    ∙ load_blocks-encode_from n 0 cs bs (suc left) m img good
    ∙ load_blocks-failed n left bs (placed m cs) (noted_all img cs) e
        (load_block-Faulty h rest size n e (placed m cs) (noted_all img cs) faulty)
  where
    whole_blocks :
        length (encode_from (length cs + suc left) 0 cs (raw_block h rest))
        ≡ (length cs + suc left) * k_block_size
    whole_blocks = omega (
      arith,
      length-encode_from (length cs + suc left) 0 cs (raw_block h rest) good,
      length-append h.bytes (le32 h.magic_end rest),
      size,
      others,
    )
