-- ===== src/Pio/Decode/Encode.antt =====
-- The encodings of the PIO instructions, as the datasheet lays them out, and the decoder on them.
use rp2040_simlator.Base.{ℕ, ◌+◌, ◌*◌, ◌/◌, ◌%◌, ◌^◌, ◌<◌, ◌≤◌, ◌≡◌, Bool, arith, of_bool}
use rp2040_simlator.Pio.Decode.{PioOp, PioInstr, default_instr, pio_decode, decode_fields}

-- An instruction by its operands.
pub data Operands : Type 0 where
  jmp : (condition address : ℕ) → Operands
  wait : (polarity : Bool) (source index : ℕ) → Operands
  in_bits : (source bit_count : ℕ) → Operands
  out_bits : (destination bit_count : ℕ) → Operands
  push : (if_full block : Bool) → Operands
  pull : (if_empty block : Bool) → Operands
  mov : (destination mov_op source : ℕ) → Operands
  irq : (clear wait : Bool) (index : ℕ) → Operands
  set : (destination data' : ℕ) → Operands

-- Each operand fits its field; counts run from 1 to 32.
abbrev pub Fits : Operands → Type 0
Fits (Operands.jmp c a) = (c < 8) × (a < 32)
Fits (Operands.wait p s i) = (s < 4) × (i < 32)
Fits (Operands.in_bits s n) = (s < 8) × (1 ≤ n) × (n ≤ 32)
Fits (Operands.out_bits d n) = (d < 8) × (1 ≤ n) × (n ≤ 32)
Fits (Operands.push f b) = Unit
Fits (Operands.pull e b) = Unit
Fits (Operands.mov d o s) = (d < 8) × (o < 4) × (s < 8)
Fits (Operands.irq c w i) = i < 32
Fits (Operands.set d x) = (d < 8) × (x < 32)

-- Opcode and bits [7:0].
abbrev pub opcode_of : Operands → ℕ
opcode_of (Operands.jmp c a) = 0
opcode_of (Operands.wait p s i) = 1
opcode_of (Operands.in_bits s n) = 2
opcode_of (Operands.out_bits d n) = 3
opcode_of (Operands.push f b) = 4
opcode_of (Operands.pull e b) = 4
opcode_of (Operands.mov d o s) = 5
opcode_of (Operands.irq c w i) = 6
opcode_of (Operands.set d x) = 7

abbrev pub low_byte : Operands → ℕ
low_byte (Operands.jmp c a) = c * 32 + a
low_byte (Operands.wait p s i) = of_bool p * 128 + s * 32 + i
low_byte (Operands.in_bits s n) = s * 32 + n % 32
low_byte (Operands.out_bits d n) = d * 32 + n % 32
low_byte (Operands.push f b) = of_bool f * 64 + of_bool b * 32
low_byte (Operands.pull e b) = 128 + of_bool e * 64 + of_bool b * 32
low_byte (Operands.mov d o s) = d * 32 + o * 8 + s
low_byte (Operands.irq c w i) = of_bool c * 64 + of_bool w * 32 + i
low_byte (Operands.set d x) = d * 32 + x

unfoldable pub encode : Operands → ℕ → ℕ
encode o delay_sideset = opcode_of o * 2 ^ 13 + delay_sideset * 2 ^ 8 + low_byte o

-- The instruction that the decoder should give.
abbrev pub instr_of : Operands → PioInstr → PioInstr
instr_of (Operands.jmp c a) d = record d { op = PioOp.jmp; condition = c; address = a }
instr_of (Operands.wait p s i) d = record d {
  op = PioOp.wait_op;
  polarity = p;
  source = s;
  index = i;
}
instr_of (Operands.in_bits s n) d = record d { op = PioOp.in_op; source = s; bit_count = n }
instr_of (Operands.out_bits s n) d = record d { op = PioOp.out_op; destination = s; bit_count = n }
instr_of (Operands.push f b) d = record d { op = PioOp.push; if_full = f; block = b }
instr_of (Operands.pull e b) d = record d { op = PioOp.pull; if_empty = e; block = b }
instr_of (Operands.mov t o s) d = record d {
  op = PioOp.mov;
  destination = t;
  mov_op = o;
  source = s;
}
instr_of (Operands.irq c w i) d = record d { op = PioOp.irq; clear = c; wait = w; index = i }
instr_of (Operands.set t x) d = record d { op = PioOp.set_op; destination = t; data' = x }

low_byte-lt : (o : Operands) → Fits o → low_byte o < 256
low_byte-lt (Operands.jmp c a) f = omega (arith, f)
low_byte-lt (Operands.wait p s i) f = ground (arith, f)
low_byte-lt (Operands.in_bits s n) f = omega (arith, f)
low_byte-lt (Operands.out_bits s n) f = omega (arith, f)
low_byte-lt (Operands.push i b) f = ground arith
low_byte-lt (Operands.pull e b) f = ground arith
low_byte-lt (Operands.mov t o s) f = omega (arith, f)
low_byte-lt (Operands.irq c w i) f = ground (arith, f)
low_byte-lt (Operands.set t x) f = omega (arith, f)

fields_lem :
    (o : Operands) (d : PioInstr)
    → Fits o
    → decode_fields (opcode_of o) (low_byte o) d ≡ instr_of o d
unfolding decode_fields
fields_lem (Operands.jmp c a) d f = ground (arith, f)
fields_lem (Operands.wait p s i) d f = ground (arith, f)
fields_lem (Operands.in_bits s n) d f = ground (arith, f)
fields_lem (Operands.out_bits s n) d f = ground (arith, f)
fields_lem (Operands.push i b) d f = ground arith
fields_lem (Operands.pull e b) d f = ground arith
fields_lem (Operands.mov t o s) d f = ground (arith, f)
fields_lem (Operands.irq c w i) d f = ground (arith, f)
fields_lem (Operands.set t x) d f = ground (arith, f)

-- The three parts of an encoded word.
parts_lem :
    (op d low : ℕ)
    → d < 32
    → low < 256
    → let w = op * 2 ^ 13 + d * 2 ^ 8 + low in
      (w / 2 ^ 13 ≡ op) × (w % 2 ^ 8 ≡ low) × (w / 2 ^ 8 % 2 ^ 5 ≡ d)
parts_lem op d low h l = (omega arith, omega arith, omega arith)

-- Decoding an encoded instruction, with any delay and side-set field, gives its operands, the
-- field and the word, and the defaults everywhere else.
pub pio_decode-encode :
    (o : Operands) (delay_sideset : ℕ)
    → Fits o
    → delay_sideset < 32
    → pio_decode (encode o delay_sideset)
      ≡ instr_of o
          (record default_instr { raw = encode o delay_sideset; delay_sideset = delay_sideset })
unfolding pio_decode encode
pio_decode-encode o d f h =
    let (op, low, delay) = parts_lem (opcode_of o) d (low_byte o) h (low_byte-lt o f) in
    rw (op, low, delay) (fields_lem o _ f)
