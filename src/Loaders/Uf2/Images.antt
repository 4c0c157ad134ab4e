-- ===== src/Loaders/Uf2/Images.antt =====
-- Loading the images of an encoder.
use rp2040_simlator.Base.{
  ℕ, suc, ◌+◌, ◌-◌, ◌*◌, ◌/◌, ◌%◌, ◌^◌, ◌≤◌, ◌<◌, ◌≡◌, refl, ◌∙◌, ap, true, false, List, [], ◌∷◌,
  ◌++◌, none, ltb, ◌==◌, if◌then◌else◌, length, length-append, length-replicate, drop, u32, min,
  max, arith,
}
use rp2040_simlator.Core.Memory.{Memory}
use rp2040_simlator.Loaders.Uf2.{
  Uf2Image, Outcome, k_uf2_family_rp2040, k_max_payload, k_block_size, k_magic_end_val, fresh_image,
  header_error, place_block, with_family, load_block, load_blocks, load_uf2,
}
use rp2040_simlator.Loaders.Uf2.Encode.{
  Chunk, le32, padding, encode_block, encode_from, encode, IsLoadable, behind_body,
  header_error-encode, put, placed, noted, noted_all, place_block-encode,
}

pub load_block_passed :
    (n : ℕ) (b : List ℕ) (m : Memory) (img : Uf2Image)
    → header_error n b ≡ none
    → load_block n b m img ≡ place_block b m (with_family b img)
unfolding load_block
load_block_passed n b m img e = rw (e, load_block) refl

load_blocks_lem :
    (n left : ℕ) (bs : List ℕ) (m m' : Memory) (img img' : Uf2Image)
    → load_block n bs m img ≡ Outcome.next m' img'
    → load_blocks n (suc left) bs m img ≡ load_blocks n left (drop k_block_size bs) m' img'
unfolding load_blocks
load_blocks_lem n left bs m m' img img' e = rw (e, load_blocks) refl

load_block-encode :
    (count number : ℕ) (c : Chunk) (rest : List ℕ) (m : Memory) (img : Uf2Image)
    → IsLoadable c
    → load_block count (encode_block count number c rest) m img
      ≡ Outcome.next (put m c) (noted img c)
load_block-encode count number c rest m img h =
    load_block_passed count (encode_block count number c rest) m img
      (header_error-encode count number c rest h.fits)
    ∙ place_block-encode count number c rest m img h

pub data AllLoadable : List Chunk → Type 0 where
  nil : AllLoadable []
  cons : {c : Chunk} {cs : List Chunk} → IsLoadable c → AllLoadable cs → AllLoadable (c ∷ cs)

-- The loop over the blocks of chunks, with `left` blocks after them.
pub load_blocks-encode_from :
    (count number : ℕ) (cs : List Chunk) (rest : List ℕ) (left : ℕ) (m : Memory) (img : Uf2Image)
    → AllLoadable cs
    → load_blocks count (length cs + left) (encode_from count number cs rest) m img
      ≡ load_blocks count left rest (placed m cs) (noted_all img cs)
load_blocks-encode_from count number [] rest left m img h =
    ap (λ n. load_blocks count n rest m img) (none_before left)
  where
    none_before : (k : ℕ) → 0 + k ≡ k
    none_before k = omega arith
load_blocks-encode_from count number (c ∷ cs) rest left m img (AllLoadable.cons h hs) =
    let others = encode_from count (suc number) cs rest in
    ap (λ n. load_blocks count n (encode_block count number c others) m img)
      (one_first (length cs) left)
    ∙ load_blocks_lem count (length cs + left) (encode_block count number c others) m (put m c) img
        (noted img c) (load_block-encode count number c others m img h)
    ∙ ap (λ bs. load_blocks count (length cs + left) bs (put m c) (noted img c))
        (behind_body c h.fits others)
    ∙ load_blocks-encode_from count (suc number) cs rest left (put m c) (noted img c) hs
  where
    one_first : (k l : ℕ) → suc k + l ≡ suc (k + l)
    one_first k l = omega arith

load_blocks-encode :
    (cs : List Chunk) (m : Memory) (img : Uf2Image)
    → AllLoadable cs
    → 0 < (noted_all img cs).blocks_loaded
    → load_blocks (length cs) (length cs) (encode cs) m img
      ≡ (placed m cs, record (noted_all img cs) { ok = true })
unfolding load_blocks
load_blocks-encode cs m img h pos =
    ap (λ n. load_blocks (length cs) n (encode cs) m img) (none_after (length cs))
    ∙ load_blocks-encode_from (length cs) 0 cs [] 0 m img h
    ∙ rw (nonempty (noted_all img cs).blocks_loaded pos) refl
  where
    none_after : (k : ℕ) → k ≡ k + 0
    none_after k = omega arith

    nonempty : (k : ℕ) → 0 < k → (k == 0) ≡ false
    nonempty k p = ground (arith, p)

-- The least address and the end of the last byte, of a list of chunks.
abbrev pub lowest : List Chunk → ℕ
lowest [] = 0xFFFF_FFFF
lowest (c ∷ cs) = min c.addr (lowest cs)

abbrev pub highest : List Chunk → ℕ
highest [] = 0
highest (c ∷ cs) = max (c.addr + length c.payload) (highest cs)

noted_all_lem :
    (cs : List Chunk) (img : Uf2Image)
    → AllLoadable cs
    → img.blocks_loaded + length cs < 2 ^ 32
    → img.lowest_addr ≤ 0xFFFF_FFFF
    → let img' = noted_all img cs in
      (img'.blocks_loaded ≡ img.blocks_loaded + length cs)
      × (img'.lowest_addr ≡ min img.lowest_addr (lowest cs))
      × (img'.highest_addr ≡ max img.highest_addr (highest cs))
      × (img'.error ≡ img.error)
      × (img'.blocks_skipped ≡ img.blocks_skipped)
noted_all_lem [] img h small low = (omega arith, omega (arith, low), omega arith, refl, refl)
noted_all_lem (c ∷ cs) img (AllLoadable.cons h hs) small low =
    let (n, lo, hi, e, sk) =
      noted_all_lem cs (noted img c) hs (omega (arith, small)) (ground (arith, low)) in
    (
      n ∙ omega (arith, small),
      lo ∙ least c.addr img.lowest_addr (lowest cs),
      hi ∙ most (c.addr + length c.payload) img.highest_addr (highest cs) h.in_space,
      e,
      sk,
    )
  where
    least : (a l x : ℕ) → min (if ltb a l then a else l) x ≡ min l (min a x)
    least a l x = ground arith

    most : (a l x : ℕ) → a < 2 ^ 32 → max (if ltb l (u32 a) then u32 a else l) x ≡ max l (max a x)
    most a l x p = ground (arith, p)

family_kept :
    (cs : List Chunk) (img : Uf2Image)
    → img.family_id ≡ k_uf2_family_rp2040
    → (noted_all img cs).family_id ≡ k_uf2_family_rp2040
family_kept [] img e = e
family_kept (c ∷ cs) img e = family_kept cs (noted img c) refl

pub length-encode_from :
    (count number : ℕ) (cs : List Chunk) (rest : List ℕ)
    → AllLoadable cs
    → length (encode_from count number cs rest) ≡ length cs * k_block_size + length rest
length-encode_from count number [] rest h = omega arith
length-encode_from count number (c ∷ cs) rest (AllLoadable.cons h hs) = omega (
  arith,
  length-append c.payload (padding c ++ le32 k_magic_end_val others),
  length-append (padding c) (le32 k_magic_end_val others),
  length-replicate {A = ℕ} (k_max_payload - length c.payload) 0,
  length-encode_from count (suc number) cs rest hs,
  h.fits,
)
  where
    others : List ℕ
    others = encode_from count (suc number) cs rest

pub load_uf2_passed :
    (m : Memory) (bs : List ℕ) (n : ℕ)
    → 0 < n
    → length bs ≡ n * k_block_size
    → load_uf2 m bs ≡ load_blocks n n bs m (record fresh_image { lowest_addr = 0xFFFF_FFFF })
unfolding load_uf2
load_uf2_passed m bs n pos e =
    rw (nonempty (length bs) (omega (arith, e, pos)), whole (length bs) e, count (length bs) e) refl
  where
    nonempty : (k : ℕ) → 0 < k → (k == 0) ≡ false
    nonempty k p = ground (arith, p)

    whole : (k : ℕ) → k ≡ n * k_block_size → (k % k_block_size == 0) ≡ true
    whole k q = ground (arith, q)

    count : (k : ℕ) → k ≡ n * k_block_size → k / k_block_size ≡ n
    count k q = omega (arith, q)

-- The image that an encoder writes for one chunk or more, fewer than 2^32, each of at most 476 bytes
-- and inside a region of the memory, is accepted: the loader counts every block, skips none, reports
-- the family RP2040, the least address and the end of the highest chunk, and leaves in the memory
-- the payloads, each at its address and in the order of the blocks.
pub load_uf2-encode :
    (m : Memory) (c : Chunk) (cs : List Chunk)
    → AllLoadable (c ∷ cs)
    → length (c ∷ cs) < 2 ^ 32
    → load_uf2 m (encode (c ∷ cs)) ≡ (
      placed m (c ∷ cs),
      record {
        ok = true;
        error = none;
        blocks_loaded = length (c ∷ cs);
        blocks_skipped = 0;
        family_id = k_uf2_family_rp2040;
        lowest_addr = lowest (c ∷ cs);
        highest_addr = highest (c ∷ cs);
      },
    )
load_uf2-encode m c cs h small =
    let img = record fresh_image { lowest_addr = 0xFFFF_FFFF } in
    let (n, lo, hi, e, sk) = noted_all_lem (c ∷ cs) img h (omega (arith, small)) (omega arith) in
    load_uf2_passed m (encode (c ∷ cs)) (length (c ∷ cs)) (omega arith) whole_blocks
    ∙ load_blocks-encode (c ∷ cs) m img h (omega (arith, n))
    ∙ rw
        (
          n ∙ none_before (length (c ∷ cs)),
          e,
          sk,
          lo ∙ below (lowest cs) c.addr (low cs),
          hi ∙ from_zero (highest (c ∷ cs)),
          family_kept cs (noted img c) refl,
        )
        refl
  where
    whole_blocks : length (encode (c ∷ cs)) ≡ length (c ∷ cs) * k_block_size
    whole_blocks = omega (arith, length-encode_from (length (c ∷ cs)) 0 (c ∷ cs) [] h)

    low : (xs : List Chunk) → lowest xs ≤ 0xFFFF_FFFF
    low [] = omega arith
    low (x ∷ xs) = omega (arith, low xs)

    below : (l a : ℕ) → l ≤ 0xFFFF_FFFF → min 0xFFFF_FFFF (min a l) ≡ min a l
    below l a p = omega (arith, p)

    none_before : (k : ℕ) → 0 + k ≡ k
    none_before k = omega arith

    from_zero : (k : ℕ) → max 0 k ≡ k
    from_zero k = omega arith
