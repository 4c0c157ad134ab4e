-- ===== src/Pio/Registers/Config.antt =====
-- The configuration registers of one state machine: CLKDIV, EXECCTRL, SHIFTCTRL and PINCTRL.
use rp2040_simlator.Base.{ℕ, ◌/◌, ◌%◌, ◌^◌, Bool, ◌==◌, if◌then◌else◌, test_bit}
use rp2040_simlator.Pio.Fifo.{k_joined_depth, k_default_depth, set_depth}
use rp2040_simlator.Pio.StateMachine.{SmConfig}
use rp2040_simlator.Pio.Block.{Lane, set_clkdiv}

-- What was last written to the registers.
pub record ConfigWords : Type 0 where
  pub clkdiv : ℕ
  pub execctrl : ℕ
  pub shiftctrl : ℕ
  pub pinctrl : ℕ

abbrev pub fresh_words : ConfigWords
fresh_words = record { clkdiv = 0; execctrl = 0; shiftctrl = 0; pinctrl = 0 }

unfoldable pub field : ℕ → ℕ → ℕ → ℕ
field v lo width = v / 2 ^ lo % 2 ^ width

unfoldable pub write_sm_clkdiv : Lane → ℕ → Lane
write_sm_clkdiv l value = set_clkdiv l (field value 16 16) (field value 8 8)

unfoldable pub execctrl_config : SmConfig → ℕ → SmConfig
execctrl_config c value = record c {
  wrap_bottom = field value 7 5;
  wrap_top = field value 12 5;
  jmp_pin = field value 24 5;
  sideset_pindir = test_bit value 29;
  sideset_opt = test_bit value 30;
  status_sel_rx = test_bit value 4;
  status_n = field value 0 4;
}

-- A threshold field of 0 means 32.
abbrev pub threshold : ℕ → ℕ
threshold t = if t == 0 then 32 else t

unfoldable pub shiftctrl_config : SmConfig → ℕ → SmConfig
shiftctrl_config c value = record c {
  autopush = test_bit value 16;
  autopull = test_bit value 17;
  in_shiftdir_right = test_bit value 18;
  out_shiftdir_right = test_bit value 19;
  push_threshold = threshold (field value 20 5);
  pull_threshold = threshold (field value 25 5);
}

-- The depth of a FIFO that is joined, whose sibling is joined, or neither.
abbrev pub joined : Bool → Bool → ℕ
joined own other = if own then k_joined_depth else if other then 0 else k_default_depth

unfoldable pub pinctrl_config : SmConfig → ℕ → SmConfig
pinctrl_config c value = record c {
  out_base = field value 0 5;
  set_base = field value 5 5;
  sideset_base = field value 10 5;
  in_base = field value 15 5;
  out_count = field value 20 6;
  set_count = field value 26 3;
  sideset_count = field value 29 3;
}

abbrev pub with_config : (SmConfig → ℕ → SmConfig) → Lane → ℕ → Lane
with_config f l value = record l { sm = record (l.sm) { cfg = f l.sm.cfg value } }

unfoldable pub write_sm_shiftctrl : Lane → ℕ → Lane
write_sm_shiftctrl l value =
    let c = with_config shiftctrl_config l value in
    record c {
      sm = record (c.sm) {
        tx = set_depth c.sm.tx (joined (test_bit value 30) (test_bit value 31));
        rx = set_depth c.sm.rx (joined (test_bit value 31) (test_bit value 30));
      };
    }

-- The lane after a write at a place of the machine's block, and the words.
unfoldable pub configure : Lane → ℕ → ℕ → Lane
configure l place value =
    if place == 0x00
    then write_sm_clkdiv l value
    else if place == 0x04
    then with_config execctrl_config l value
    else if place == 0x08
    then write_sm_shiftctrl l value
    else if place == 0x14
    then with_config pinctrl_config l value
    else l

unfoldable pub write_config : ConfigWords → ℕ → ℕ → ConfigWords
write_config w place value =
    if place == 0x00
    then record w { clkdiv = value }
    else if place == 0x04
    then record w { execctrl = value }
    else if place == 0x08
    then record w { shiftctrl = value }
    else if place == 0x14
    then record w { pinctrl = value }
    else w

unfoldable pub read_config : ConfigWords → ℕ → ℕ
read_config w place =
    if place == 0x00
    then w.clkdiv
    else if place == 0x04
    then w.execctrl
    else if place == 0x08
    then w.shiftctrl
    else if place == 0x14
    then w.pinctrl
    else 0
