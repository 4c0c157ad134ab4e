-- ===== src/Pio/Decode.antt =====
-- The PIO instruction set: include/pio_isa.h and pio/pio_decode.cpp.
pub mod Encode
use rp2040_simlator.Base.{
  ℕ, ◌+◌, ◌*◌, ◌/◌, ◌%◌, ◌^◌, Bool, true, false, ◌==◌, if◌then◌else◌, ◌>>>◌, bit,
}

pub data PioOp : Type 0 where
  jmp wait_op in_op out_op push pull mov irq set_op : PioOp

pub record PioInstr : Type 0 where
  pub op : PioOp
  pub delay_sideset : ℕ
  pub condition : ℕ
  pub address : ℕ
  pub polarity : Bool
  pub source : ℕ
  pub destination : ℕ
  pub index : ℕ
  pub bit_count : ℕ
  pub data' : ℕ
  pub mov_op : ℕ
  pub if_full : Bool
  pub if_empty : Bool
  pub block : Bool
  pub clear : Bool
  pub wait : Bool
  pub raw : ℕ

-- The member initialisers.
abbrev pub default_instr : PioInstr
default_instr = record {
  op = PioOp.jmp;
  delay_sideset = 0;
  condition = 0;
  address = 0;
  polarity = false;
  source = 0;
  destination = 0;
  index = 0;
  bit_count = 32;
  data' = 0;
  mov_op = 0;
  if_full = false;
  if_empty = false;
  block = true;
  clear = false;
  wait = false;
  raw = 0;
}

-- The count of IN and OUT, where 0 stands for 32.
abbrev pub count_of : ℕ → ℕ
count_of n = if n == 0 then 32 else n

-- The switch on the opcode.
unfoldable pub decode_fields : ℕ → ℕ → PioInstr → PioInstr
decode_fields opcode lo8 d =
    let high3 = (lo8 >>> 5) % 2 ^ 3 in
    let low5 = lo8 % 2 ^ 5 in
    if opcode == 0
    then record d { op = PioOp.jmp; condition = high3; address = low5 }
    else if opcode == 1
    then record d {
      op = PioOp.wait_op;
      polarity = bit lo8 7 == 1;
      source = (lo8 >>> 5) % 2 ^ 2;
      index = low5;
    }
    else if opcode == 2
    then record d { op = PioOp.in_op; source = high3; bit_count = count_of low5 }
    else if opcode == 3
    then record d { op = PioOp.out_op; destination = high3; bit_count = count_of low5 }
    else if opcode == 4
    then (if bit lo8 7 == 0
        then record d { op = PioOp.push; if_full = bit lo8 6 == 1; block = bit lo8 5 == 1 }
        else record d { op = PioOp.pull; if_empty = bit lo8 6 == 1; block = bit lo8 5 == 1 })
    else if opcode == 5
    then record d {
      op = PioOp.mov;
      destination = high3;
      mov_op = (lo8 >>> 3) % 2 ^ 2;
      source = lo8 % 2 ^ 3;
    }
    else if opcode == 6
    then record d { op = PioOp.irq; clear = bit lo8 6 == 1; wait = bit lo8 5 == 1; index = low5 }
    else record d { op = PioOp.set_op; destination = high3; data' = low5 }

unfoldable pub pio_decode : ℕ → PioInstr
unfolding decode_fields
pio_decode instr =
    decode_fields (instr >>> 13) (instr % 2 ^ 8)
      (record default_instr { raw = instr; delay_sideset = (instr >>> 8) % 2 ^ 5 })
