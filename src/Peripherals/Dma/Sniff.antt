-- ===== src/Peripherals/Dma/Sniff.antt =====
-- The checksum of the transferred data: `sniff_feed` and `sniff_data_out` of peripherals/dma.cpp.
use rp2040_simlator.Base.{
  ℕ, zero, suc, ◌+◌, ◌*◌, ◌/◌, ◌%◌, ◌^◌, not, ◌||◌, ◌==◌, if◌then◌else◌, bit_and, bit_or, bit_xor,
  test_bit, u8, u32, add32, not32, ◌<<<◌, ◌>>>◌,
}
use rp2040_simlator.Peripherals.Dma.{Dma, chan_of}

-- One line of `bit_reverse32`: the groups of k bits that the masks select change places.
abbrev pub swap_groups : ℕ → ℕ → ℕ → ℕ → ℕ
swap_groups high low k v = bit_or (bit_and v high >>> k) (bit_and v low <<< k)

unfoldable pub bit_reverse32 : ℕ → ℕ
bit_reverse32 v =
    let v1 = swap_groups 0xFFFF_0000 0x0000_FFFF 16 v in
    let v2 = swap_groups 0xFF00_FF00 0x00FF_00FF 8 v1 in
    let v3 = swap_groups 0xF0F0_F0F0 0x0F0F_0F0F 4 v2 in
    let v4 = swap_groups 0xCCCC_CCCC 0x3333_3333 2 v3 in swap_groups 0xAAAA_AAAA 0x5555_5555 1 v4

-- `v << 24` loses the high bits on uint32_t.
unfoldable pub byteswap : ℕ → ℕ → ℕ
byteswap v size =
    if size == 2
    then bit_or ((v % 2 ^ 8) <<< 8) (v / 2 ^ 8 % 2 ^ 8)
    else if size == 4
    then bit_or
        (bit_or (bit_or (u32 (v <<< 24)) (bit_and v 0xFF00 <<< 8)) (bit_and (v >>> 8) 0xFF00))
        (v >>> 24)
    else v

-- One bit of each of the four CRC loops, on a uint32_t.
unfoldable pub crc32_bit : ℕ → ℕ
crc32_bit c = if test_bit c 31 then bit_xor (u32 (c <<< 1)) 0x04C1_1DB7 else u32 (c <<< 1)

unfoldable pub crc32_bit_reversed : ℕ → ℕ
crc32_bit_reversed c = if test_bit c 0 then bit_xor (c >>> 1) 0xEDB8_8320 else c >>> 1

unfoldable pub crc16_bit : ℕ → ℕ
crc16_bit c = if test_bit c 15 then bit_xor (u32 (c <<< 1)) 0x1021 else u32 (c <<< 1)

unfoldable pub crc16_bit_reversed : ℕ → ℕ
crc16_bit_reversed c = if test_bit c 0 then bit_xor (c >>> 1) 0x8408 else c >>> 1

-- The loop over the bits of a byte.
abbrev pub rounds : (ℕ → ℕ) → ℕ → ℕ → ℕ
rounds f zero c = c
rounds f (suc n) c = rounds f n (f c)

-- A byte folded into the checksum, by CALC.
unfoldable pub crc_byte : ℕ → ℕ → ℕ → ℕ
crc_byte calc b acc =
    if calc == 0
    then rounds crc32_bit 8 (bit_xor acc (b <<< 24))
    else if calc == 1
    then rounds crc32_bit_reversed 8 (bit_xor acc b)
    else if calc == 2
    then rounds crc16_bit 8 (bit_xor (acc % 2 ^ 16) (b <<< 8)) % 2 ^ 16
    else if calc == 3
    then rounds crc16_bit_reversed 8 (bit_xor (acc % 2 ^ 16) b) % 2 ^ 16
    else acc

-- The loop over the bytes of an element, from byte i on.
unfoldable pub crc_bytes : ℕ → ℕ → ℕ → ℕ → ℕ → ℕ
crc_bytes calc value zero i acc = acc
crc_bytes calc value (suc left) i acc =
    crc_bytes calc value left (i + 1) (crc_byte calc (u8 (value >>> (8 * i))) acc)

-- `size` is 1, 2 or 4 where this is called.
unfoldable pub sniffed : ℕ → ℕ → ℕ → ℕ → ℕ
sniffed sniff_ctrl value size acc =
    let calc = sniff_ctrl / 2 ^ 5 % 2 ^ 4 in
    let v = if test_bit sniff_ctrl 9 then byteswap value size else value in
    if calc == 0xF
    then add32 acc v
    else if calc == 0xE
    then bit_xor acc v
    else crc_bytes calc v size 0 acc

module _ {S : Type 0} where
  unfoldable pub sniff_feed : Dma S → ℕ → ℕ → ℕ → Dma S
  sniff_feed d ch value size = record d {
    sniff_data =
        if not (test_bit d.sniff_ctrl 0)
          || not (d.sniff_ctrl / 2 % 2 ^ 4 == ch)
          || not (test_bit (chan_of d ch).ctrl 23)
        then d.sniff_data
        else sniffed d.sniff_ctrl value size d.sniff_data;
  }

  unfoldable pub sniff_data_out : Dma S → ℕ
  sniff_data_out d =
      let v = if test_bit d.sniff_ctrl 10 then bit_reverse32 d.sniff_data else d.sniff_data in
      if test_bit d.sniff_ctrl 11 then not32 v else v
