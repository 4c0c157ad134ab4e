-- ===== src/Peripherals/Gpio/Levels.antt =====
-- What a pin reads after its selected function drives it.
use rp2040_simlator.Base.{
  List, ℕ, ◌<◌, ◌≡◌, ◌∙◌, Bool, true, false, arith, some, length, get_or, set, if◌then◌else◌, ◌==◌,
  test_bit, get_or-set_self,
}
use rp2040_simlator.Base.Bits.{test_bit-set_bit, test_bit-clear_bit}
use rp2040_simlator.Peripherals.Gpio.{
  Gpio, Driver, driver_number, pin_of, driver_index, driver_set_pin, driver_set_pindir, presented,
  level, pad_driving, pad_level, apply_override, k_num_pins, assign_bit,
}

test_bit-assign_bit :
    (w pin i : ℕ) (b : Bool)
    → test_bit (assign_bit w pin b) i ≡ (if i == pin then b else test_bit w i)
test_bit-assign_bit w pin i true = ground (arith, test_bit-set_bit w pin i)
test_bit-assign_bit w pin i false = ground (arith, test_bit-clear_bit w pin i)

driver_number-lt : (d : Driver) → driver_number d < 6
driver_number-lt d = grind arith

-- The bit that a driver has just assigned.
presented-assign :
    (v : List ℕ) (d : Driver) (pin : ℕ) (b : Bool)
    → length v ≡ 6
    → presented
        (set v (driver_number d) (assign_bit (get_or v (driver_number d) 0) pin b))
        (some d)
        pin
      ≡ b
presented-assign v d pin b l =
    rw
      (get_or-set_self v (driver_number d) (assign_bit (get_or v (driver_number d) 0) pin b) 0
        (omega (arith, driver_number-lt d)))
      (test_bit-assign_bit (get_or v (driver_number d) 0) pin pin b ∙ ground arith)

-- A pin below 30 that its selected function drives, with the overrides at normal, reads the level
-- that the function presents, whatever the pulls and the outside do.
pub level-driven :
    (g : Gpio) (d : Driver) (pin : ℕ) (b : Bool)
    → pin < k_num_pins
    → length g.out ≡ 6
    → length g.oe ≡ 6
    → driver_index g pin ≡ some d
    → (pin_of g pin).oe_over ≡ 0
    → (pin_of g pin).out_over ≡ 0
    → level (driver_set_pindir (driver_set_pin g d pin b) d pin true) pin ≡ b
unfolding level pad_driving pad_level driver_set_pin driver_set_pindir apply_override driver_index
level-driven g d pin b h lo le sel oe ou =
    ground (arith, presented-assign g.oe d pin true le, presented-assign g.out d pin b lo)
