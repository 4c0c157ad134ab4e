-- ===== src/Loaders/Uf2/Encode.antt =====
-- Images that an encoder writes, and what loading them leaves.
use rp2040_simlator.Base.{
  ℕ, zero, suc, ◌+◌, ◌-◌, ◌*◌, ◌/◌, ◌%◌, ◌^◌, ◌≤◌, ◌<◌, ◌≡◌, refl, sym, ◌∙◌, ap, true, false, List,
  [], ◌∷◌, ◌++◌, none, some, ltb, ◌==◌, if◌then◌else◌, length, length-replicate, get_or, drop, take,
  replicate, u32, bit_or, ◌<<<◌, arith,
}
use rp2040_simlator.Base.Bits.{bit_or_above}
use rp2040_simlator.Core.Memory.{Memory, Store, backing, store}
use rp2040_simlator.Core.Memory.Backdoor.{load, copy_in, put_store}
use rp2040_simlator.Loaders.Uf2.{
  rd32, Uf2Image, Outcome, k_magic0, k_magic1, k_magic_end_val, k_uf2_family_rp2040, k_max_payload,
  header_error, place_block, with_family, loaded,
}

-- The four bytes of a number, before other bytes.
abbrev pub le32 : ℕ → List ℕ → List ℕ
le32 x rest = x % 256 ∷ x / 2 ^ 8 % 256 ∷ x / 2 ^ 16 % 256 ∷ x / 2 ^ 24 ∷ rest

-- A payload and the address that it is for.
pub record Chunk : Type 0 where
  pub addr : ℕ
  pub payload : List ℕ

-- What fills up the 476 bytes.
abbrev pub padding : Chunk → List ℕ
padding c = replicate (k_max_payload - length c.payload) 0

abbrev pub body : Chunk → List ℕ → List ℕ
body c rest = c.payload ++ (padding c ++ le32 k_magic_end_val rest)

-- The block of a chunk, with its number and the number of blocks, before the blocks that follow.
abbrev pub encode_block : ℕ → ℕ → Chunk → List ℕ → List ℕ
encode_block count number c rest = le32 k_magic0 (
    le32 k_magic1 (
      le32 0x2000 (
        le32 c.addr (
          le32 (length c.payload)
            (le32 number (le32 count (le32 k_uf2_family_rp2040 (body c rest))))))))

-- The blocks of a list of chunks, before other bytes.
abbrev pub encode_from : ℕ → ℕ → List Chunk → List ℕ → List ℕ
encode_from count number [] rest = rest
encode_from count number (c ∷ cs) rest =
    encode_block count number c (encode_from count (suc number) cs rest)

abbrev pub encode : List Chunk → List ℕ
encode cs = encode_from (length cs) 0 cs []

-- A chunk that fits a block and a region of the memory.
pub record IsLoadable (c : Chunk) : Type 0 where
  pub some_bytes : 0 < length c.payload
  pub fits : length c.payload ≤ k_max_payload
  pub in_space : c.addr + length c.payload < 2 ^ 32
  pub st : Store
  pub off : ℕ
  pub backed : backing c.addr (length c.payload) ≡ some (st, off)

four_bytes :
    (a b c d : ℕ)
    → a < 256
    → b < 256
    → c < 256
    → bit_or (bit_or (bit_or a (b <<< 8)) (c <<< 16)) (d <<< 24)
      ≡ a + b * 2 ^ 8 + c * 2 ^ 16 + d * 2 ^ 24
four_bytes a b c d ha hb hc =
    rw
      (
        bit_or_above 8 a b ha,
        bit_or_above 16 (a + b * 2 ^ 8) c (omega arith),
        bit_or_above 24 (a + b * 2 ^ 8 + c * 2 ^ 16) d (omega arith),
      )
      refl

pub rd32-le32 : (x : ℕ) (rest : List ℕ) → rd32 (le32 x rest) 0 ≡ x
unfolding rd32
rd32-le32 x rest =
    four_bytes (x % 256) (x / 2 ^ 8 % 256) (x / 2 ^ 16 % 256) (x / 2 ^ 24) (omega arith)
      (omega arith) (omega arith)
    ∙ sum x
  where
    sum :
        (y : ℕ)
        → y % 256 + y / 2 ^ 8 % 256 * 2 ^ 8 + y / 2 ^ 16 % 256 * 2 ^ 16 + y / 2 ^ 24 * 2 ^ 24 ≡ y
    sum y = omega arith

-- Behind a prefix.
pub get_or-append :
    (xs ys : List ℕ) (j i : ℕ) → j ≡ length xs + i → get_or (xs ++ ys) j 0 ≡ get_or ys i 0
get_or-append [] ys j i e = ap (λ k. get_or ys k 0) (omega (arith, e))
get_or-append (x ∷ xs) ys zero i e = absurd (omega (arith, e))
get_or-append (x ∷ xs) ys (suc j) i e = get_or-append xs ys j i (omega (arith, e))

drop-append : (xs ys : List ℕ) (j i : ℕ) → j ≡ length xs + i → drop j (xs ++ ys) ≡ drop i ys
drop-append [] ys j i e = ap (λ k. drop k ys) (omega (arith, e))
drop-append (x ∷ xs) ys zero i e = absurd (omega (arith, e))
drop-append (x ∷ xs) ys (suc j) i e = drop-append xs ys j i (omega (arith, e))

take-append : (xs ys : List ℕ) → take (length xs) (xs ++ ys) ≡ xs
take-append [] ys = refl
take-append (x ∷ xs) ys = ap (λ zs. x ∷ zs) (take-append xs ys)

-- The padding and the end of a block lie behind its payload.
module _ (c : Chunk) (h : length c.payload ≤ k_max_payload) (rest : List ℕ) where
  padded : (i : ℕ) → length c.payload + (k_max_payload - length c.payload + i) ≡ k_max_payload + i
  padded i = omega (arith, h)

  zeros : (i : ℕ) → k_max_payload - length c.payload + i ≡ length (padding c) + i
  zeros i = ap (λ n. n + i) (sym (length-replicate (k_max_payload - length c.payload) 0))

  body_end :
      (i : ℕ) → get_or (body c rest) (k_max_payload + i) 0 ≡ get_or (le32 k_magic_end_val rest) i 0
  body_end i =
      get_or-append c.payload _ (k_max_payload + i) (k_max_payload - length c.payload + i)
        (sym (padded i))
      ∙ get_or-append (padding c) (le32 k_magic_end_val rest) (k_max_payload - length c.payload + i)
          i (zeros i)

  pub behind_body : drop (k_max_payload + 4) (body c rest) ≡ rest
  behind_body =
      drop-append c.payload _ (k_max_payload + 4) (k_max_payload - length c.payload + 4)
        (sym (padded 4))
      ∙ drop-append (padding c) (le32 k_magic_end_val rest) (k_max_payload - length c.payload + 4) 4
          (zeros 4)

pub rd32_same :
    (xs ys : List ℕ) (p q : ℕ)
    → get_or xs p 0 ≡ get_or ys q 0
    → get_or xs (p + 1) 0 ≡ get_or ys (q + 1) 0
    → get_or xs (p + 2) 0 ≡ get_or ys (q + 2) 0
    → get_or xs (p + 3) 0 ≡ get_or ys (q + 3) 0
    → rd32 xs p ≡ rd32 ys q
unfolding rd32
rd32_same xs ys p q h0 h1 h2 h3 = rw (h0, h1, h2, h3) refl

end_magic :
    (count number : ℕ) (c : Chunk) (rest : List ℕ)
    → length c.payload ≤ k_max_payload
    → rd32 (encode_block count number c rest) 508 ≡ k_magic_end_val
end_magic count number c rest h =
    rd32_same (encode_block count number c rest) (le32 k_magic_end_val rest) 508 0
      (body_end c h rest 0) (body_end c h rest 1) (body_end c h rest 2) (body_end c h rest 3)
    ∙ rd32-le32 k_magic_end_val rest

-- The header of a block, whatever its numbers: where each field is read.
header_fields :
    (count number : ℕ) (c : Chunk) (rest : List ℕ)
    → let b = encode_block count number c rest in
      (rd32 b 0 ≡ k_magic0)
      × (rd32 b 4 ≡ k_magic1)
      × (rd32 b 8 ≡ 0x2000)
      × (rd32 b 12 ≡ c.addr)
      × (rd32 b 16 ≡ length c.payload)
      × (rd32 b 24 ≡ count)
      × (rd32 b 28 ≡ k_uf2_family_rp2040)
unfolding rd32
header_fields count number c rest = (
  rd32-le32 k_magic0 [],
  rd32-le32 k_magic1 [],
  rd32-le32 0x2000 [],
  rd32-le32 c.addr [],
  rd32-le32 (length c.payload) [],
  rd32-le32 count [],
  rd32-le32 k_uf2_family_rp2040 [],
)

pub header_error-encode :
    (count number : ℕ) (c : Chunk) (rest : List ℕ)
    → length c.payload ≤ k_max_payload
    → header_error count (encode_block count number c rest) ≡ none
unfolding header_error
header_error-encode count number c rest h =
    let (m0, m1, flags, addr, size, n, family) = header_fields count number c rest in
    rw (m0, m1, flags, n, family, end_magic count number c rest h, same count) refl
  where
    same : (k : ℕ) → (k == k) ≡ true
    same k = ground arith

-- The memory after a chunk, and after all.
abbrev pub put : Memory → Chunk → Memory
put m c = (load m c.addr c.payload).1

abbrev pub placed : Memory → List Chunk → Memory
placed m [] = m
placed m (c ∷ cs) = placed (put m c) cs

load_lem :
    (m : Memory) (c : Chunk) (h : IsLoadable c)
    → load m c.addr c.payload ≡ (true, put_store m h.st (copy_in (store m h.st) h.off c.payload))
unfolding load
load_lem m c h =
    rw (nonempty (length c.payload) h.some_bytes, short (length c.payload) h.fits, h.backed) refl
  where
    nonempty : (n : ℕ) → 0 < n → (n == 0) ≡ false
    nonempty n p = ground (arith, p)

    short : (n : ℕ) → n ≤ k_max_payload → ltb 0xFFFF_FFFF n ≡ false
    short n p = ground (arith, p)

load-put : (m : Memory) (c : Chunk) → IsLoadable c → load m c.addr c.payload ≡ (true, put m c)
load-put m c h = load_lem m c h ∙ ap (λ r. (true, r.1)) (sym (load_lem m c h))

-- The image after a chunk, and after all.
abbrev pub noted : Uf2Image → Chunk → Uf2Image
noted img c =
    let end = u32 (c.addr + length c.payload) in
    record img {
      blocks_loaded = u32 (img.blocks_loaded + 1);
      family_id = k_uf2_family_rp2040;
      lowest_addr = if ltb c.addr img.lowest_addr then c.addr else img.lowest_addr;
      highest_addr = if ltb img.highest_addr end then end else img.highest_addr;
    }

abbrev pub noted_all : Uf2Image → List Chunk → Uf2Image
noted_all img [] = img
noted_all img (c ∷ cs) = noted_all (noted img c) cs

pub place_block-encode :
    (count number : ℕ) (c : Chunk) (rest : List ℕ) (m : Memory) (img : Uf2Image)
    → IsLoadable c
    → place_block
        (encode_block count number c rest)
        m
        (with_family (encode_block count number c rest) img)
      ≡ Outcome.next (put m c) (noted img c)
unfolding place_block loaded
place_block-encode count number c rest m img h =
    let (m0, m1, flags, addr, size, n, family) = header_fields count number c rest in
    rw
      (
        flags,
        addr,
        size,
        family,
        nonempty (length c.payload) h.some_bytes,
        short (length c.payload) h.fits,
        inside c.addr (length c.payload) h.in_space,
        take-append c.payload (padding c ++ le32 k_magic_end_val rest),
        load-put m c h,
      )
      refl
  where
    nonempty : (k : ℕ) → 0 < k → (k == 0) ≡ false
    nonempty k p = ground (arith, p)

    short : (k : ℕ) → k ≤ k_max_payload → ltb k_max_payload k ≡ false
    short k p = ground (arith, p)

    inside : (a k : ℕ) → a + k < 2 ^ 32 → ltb 0x1_0000_0000 (a + k) ≡ false
    inside a k p = ground (arith, p)
