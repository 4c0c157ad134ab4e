-- ===== src/Peripherals/Gpio.antt =====
-- The pads of GPIO bank 0 and who drives them: peripherals/gpio.h and gpio.cpp.
pub mod Levels
use rp2040_simlator.Base.{
  ℕ, zero, suc, ◌+◌, ◌*◌, ◌/◌, ◌%◌, ◌^◌, Bool, true, false, not, ◌&&◌, List, Option, none, some,
  ltb, leb, ◌==◌, if◌then◌else◌, get_or, set, replicate, test_bit, bit_or, and_not, ◌<<<◌,
}
use rp2040_simlator.Base.Bits.{set_bit, clear_bit}

abbrev pub k_num_pins : ℕ
k_num_pins = 30

-- The drivers, by their index in `out_` and `oe_`.
pub data Driver : Type 0 where
  sio pio0 pio1 pwm spi0 spi1 : Driver

abbrev pub driver_number : Driver → ℕ
driver_number Driver.sio = 0
driver_number Driver.pio0 = 1
driver_number Driver.pio1 = 2
driver_number Driver.pwm = 3
driver_number Driver.spi0 = 4
driver_number Driver.spi1 = 5

pub record Pin : Type 0 where
  pub funcsel : ℕ
  pub pull_up : Bool
  pub pull_down : Bool
  pub ext_driven : Bool
  pub ext_level : Bool
  pub out_over : ℕ
  pub oe_over : ℕ
  pub in_over : ℕ
  pub irq_over : ℕ

-- The member initialisers; 0x1F is the null function.
abbrev pub fresh_pin : Pin
fresh_pin = record {
  funcsel = 0x1F;
  pull_up = false;
  pull_down = false;
  ext_driven = false;
  ext_level = false;
  out_over = 0;
  oe_over = 0;
  in_over = 0;
  irq_over = 0;
}

pub record Gpio : Type 0 where
  pub pins : List Pin
  pub out : List ℕ
  pub oe : List ℕ

unfoldable pub fresh : Gpio
fresh = record { pins = replicate k_num_pins fresh_pin; out = replicate 6 0; oe = replicate 6 0 }

abbrev pub pin_of : Gpio → ℕ → Pin
pin_of g pin = get_or g.pins pin fresh_pin

unfoldable pub set_funcsel : Gpio → ℕ → ℕ → Gpio
set_funcsel g pin f =
    if ltb pin k_num_pins
    then record g { pins = set g.pins pin (record (pin_of g pin) { funcsel = f }) }
    else g

-- `none` is the index -1.
unfoldable pub driver_index : Gpio → ℕ → Option Driver
driver_index g pin =
    let f = (pin_of g pin).funcsel in
    if leb k_num_pins pin
    then none
    else if f == 5
    then some Driver.sio
    else if f == 6
    then some Driver.pio0
    else if f == 7
    then some Driver.pio1
    else if f == 4
    then some Driver.pwm
    else if f == 1
    then some (if pin / 8 % 2 == 0 then Driver.spi0 else Driver.spi1)
    else none

abbrev pub assign_bit : ℕ → ℕ → Bool → ℕ
assign_bit w pin b = if b then set_bit w pin else clear_bit w pin

unfoldable pub driver_set_pin : Gpio → Driver → ℕ → Bool → Gpio
driver_set_pin g d pin level = if leb k_num_pins pin then g else record g {
  out = set g.out (driver_number d) (assign_bit (get_or g.out (driver_number d) 0) pin level);
}

unfoldable pub driver_set_pindir : Gpio → Driver → ℕ → Bool → Gpio
driver_set_pindir g d pin output = if leb k_num_pins pin then g else record g {
  oe = set g.oe (driver_number d) (assign_bit (get_or g.oe (driver_number d) 0) pin output);
}

-- Writes to all the pins of a driver, in the width of the pads.
unfoldable pub driver_set_out : Gpio → Driver → ℕ → Gpio
driver_set_out g d value = record g { out = set g.out (driver_number d) (value % 2 ^ k_num_pins) }

unfoldable pub driver_set_oe : Gpio → Driver → ℕ → Gpio
driver_set_oe g d value = record g { oe = set g.oe (driver_number d) (value % 2 ^ k_num_pins) }

unfoldable pub driver_out : Gpio → Driver → ℕ
driver_out g d = get_or g.out (driver_number d) 0

unfoldable pub driver_oe : Gpio → Driver → ℕ
driver_oe g d = get_or g.oe (driver_number d) 0

unfoldable pub set_pulls : Gpio → ℕ → Bool → Bool → Gpio
set_pulls g pin up down = if leb k_num_pins pin then g else record g {
  pins = set g.pins pin (record (pin_of g pin) { pull_up = up; pull_down = down });
}

unfoldable pub set_overrides : Gpio → ℕ → ℕ → ℕ → ℕ → ℕ → Gpio
set_overrides g pin out_over oe_over in_over irq_over = if leb k_num_pins pin then g else record g {
  pins = set g.pins pin (record (pin_of g pin) {
    out_over = out_over % 2 ^ 2;
    oe_over = oe_over % 2 ^ 2;
    in_over = in_over % 2 ^ 2;
    irq_over = irq_over % 2 ^ 2;
  });
}

unfoldable pub apply_override : ℕ → Bool → Bool
apply_override sel value =
    let s = sel % 2 ^ 2 in
    if s == 1 then not value else if s == 2 then false else if s == 3 then true else value

unfoldable pub set_external : Gpio → ℕ → Bool → Gpio
set_external g pin level = if leb k_num_pins pin then g else record g {
  pins = set g.pins pin (record (pin_of g pin) { ext_driven = true; ext_level = level });
}

unfoldable pub clear_external : Gpio → ℕ → Gpio
clear_external g pin =
    if ltb pin k_num_pins
    then record g { pins = set g.pins pin (record (pin_of g pin) { ext_driven = false }) }
    else g

-- The bit that the selected function presents in one of the two vectors.
abbrev pub presented : List ℕ → Option Driver → ℕ → Bool
presented v none pin = false
presented v (some d) pin = test_bit (get_or v (driver_number d) 0) pin

unfoldable pub pad_driving : Gpio → ℕ → Bool
unfolding driver_index apply_override
pad_driving g pin =
    if leb k_num_pins pin
    then false
    else apply_override (pin_of g pin).oe_over (presented g.oe (driver_index g pin) pin)

unfoldable pub pad_level : Gpio → ℕ → Bool
unfolding driver_index apply_override
pad_level g pin =
    if leb k_num_pins pin
    then false
    else apply_override (pin_of g pin).out_over (presented g.out (driver_index g pin) pin)

unfoldable pub level : Gpio → ℕ → Bool
unfolding pad_driving pad_level
level g pin =
    let p = pin_of g pin in
    if leb k_num_pins pin
    then false
    else if pad_driving g pin
    then pad_level g pin
    else if p.ext_driven
    then p.ext_level
    else if p.pull_up
    then true
    else false

unfoldable pub func_level : Gpio → ℕ → Bool
unfolding level apply_override
func_level g pin =
    if leb k_num_pins pin then false else apply_override (pin_of g pin).in_over (level g pin)

unfoldable pub irq_level : Gpio → ℕ → Bool
unfolding level apply_override
irq_level g pin =
    if leb k_num_pins pin then false else apply_override (pin_of g pin).irq_over (level g pin)

-- The loop of `func_input_bits` from a pin on.
unfoldable pub input_bits_from : Gpio → ℕ → ℕ → ℕ → ℕ
input_bits_from g zero pin v = v
input_bits_from g (suc left) pin v =
    input_bits_from g left (pin + 1) (if func_level g pin then set_bit v pin else v)

unfoldable pub func_input_bits : Gpio → ℕ
func_input_bits g = input_bits_from g k_num_pins 0 0
