-- ===== src/Peripherals/Usb.antt =====
-- The USB device controller and its virtual host: peripherals/usb.h and usb.cpp.
pub mod Echo
use rp2040_simlator.Base.{
  ℕ, zero, suc, ◌+◌, ◌-◌, ◌*◌, ◌%◌, ◌^◌, Bool, true, false, not, ◌&&◌, List, [], ◌∷◌, ltb, ◌==◌,
  if◌then◌else◌, length, take, min, u8, u32, bit_and, bit_or, and_not, test_bit, of_bool, ◌<<<◌,
  ◌>>>◌,
}
use rp2040_simlator.Base.Bits.{set_bit, clear_bit}
use rp2040_simlator.Core.Bus.{BusWidth, BusStatus, BusResult, good, bytes}
use rp2040_simlator.Core.Interrupts.{Cores, pend_all, clear_all}
use rp2040_simlator.Core.Memory.{update}

abbrev pub k_reg_base : ℕ
k_reg_base = 0x1_0000

abbrev pub k_dpram_size : ℕ
k_dpram_size = 0x1000

abbrev pub k_irq : ℕ
k_irq = 16 + 5

abbrev pub k_ep0_buf : ℕ
k_ep0_buf = 0x100

abbrev pub k_ep0_in_bc : ℕ
k_ep0_in_bc = 0x80

abbrev pub k_ep0_out_bc : ℕ
k_ep0_out_bc = 0x84

-- Bits of SIE_STATUS.
abbrev pub k_connected : ℕ
k_connected = 16

abbrev pub k_setup_rec : ℕ
k_setup_rec = 17

abbrev pub k_trans_complete : ℕ
k_trans_complete = 18

abbrev pub k_bus_reset : ℕ
k_bus_reset = 19

-- Bits of a buffer control word.
abbrev pub k_available : ℕ
k_available = 10

abbrev pub k_full : ℕ
k_full = 15

-- The DPRAM is a function from the offset, read and written below its size only.
pub record UsbCtrl : Type 0 where
  pub dpram : ℕ → ℕ
  pub addr_endp : ℕ
  pub main_ctrl : ℕ
  pub sie_ctrl : ℕ
  pub sie_status : ℕ
  pub buff_status : ℕ
  pub ep_stall_arm : ℕ
  pub ep_status_stall_nak : ℕ
  pub usb_pwr : ℕ
  pub muxing : ℕ
  pub inte : ℕ
  pub intf : ℕ
  pub sof : ℕ
  pub nvic : List ℕ
  pub cpus : Cores

-- The loop of `dpram_rd`, with `left` rounds to go.
unfoldable pub dpram_rd_from : (ℕ → ℕ) → ℕ → ℕ → ℕ → ℕ → ℕ
dpram_rd_from p off zero i v = v
dpram_rd_from p off (suc left) i v =
    let rest = dpram_rd_from p off left (i + 1) (bit_or v (p (off + i) <<< (8 * i))) in
    if ltb (off + i) k_dpram_size then rest else v

unfoldable pub dpram_rd : (ℕ → ℕ) → ℕ → ℕ
dpram_rd p off = dpram_rd_from p off 4 0 0

-- The loop of `dpram_wr`.
unfoldable pub dpram_wr_from : (ℕ → ℕ) → ℕ → ℕ → ℕ → ℕ → ℕ → ℕ
dpram_wr_from p off zero i value = p
dpram_wr_from p off (suc left) i value =
    let rest = dpram_wr_from (update p (off + i) (u8 (value >>> (8 * i)))) off left (i + 1) value in
    if ltb (off + i) k_dpram_size then rest else p

unfoldable pub dpram_wr : (ℕ → ℕ) → ℕ → ℕ → ℕ → ℕ → ℕ
dpram_wr p off value nbytes = dpram_wr_from p off nbytes 0 value

unfoldable pub compute_intr : UsbCtrl → ℕ
compute_intr u =
    of_bool (test_bit u.sie_status k_trans_complete) * 2 ^ 3
    + of_bool (not (u.buff_status == 0)) * 2 ^ 4
    + of_bool (test_bit u.sie_status k_bus_reset) * 2 ^ 12
    + of_bool (test_bit u.sie_status 4) * 2 ^ 14
    + of_bool (test_bit u.sie_status k_setup_rec) * 2 ^ 16
    + of_bool (not (u.ep_status_stall_nak == 0)) * 2 ^ 19

unfoldable pub ints : UsbCtrl → ℕ
ints u = bit_and (bit_or (compute_intr u) u.intf) u.inte

unfoldable pub refresh_irq : UsbCtrl → UsbCtrl
refresh_irq u = record u {
  cpus = if ints u == 0 then clear_all u.nvic k_irq u.cpus else pend_all u.nvic k_irq u.cpus;
}

unfoldable pub host_reset : UsbCtrl → UsbCtrl
host_reset u = refresh_irq (record u {
  addr_endp = 0;
  sie_status = set_bit (set_bit u.sie_status k_bus_reset) k_connected;
})

-- The bytes of a list into the DPRAM, from an offset on.
abbrev pub copy_in : (ℕ → ℕ) → ℕ → List ℕ → ℕ → ℕ
copy_in p off [] = p
copy_in p off (b ∷ bs) = copy_in (update p off b) (off + 1) bs

-- `setup` has eight bytes.
unfoldable pub host_setup : UsbCtrl → List ℕ → UsbCtrl
host_setup u setup =
    refresh_irq
      (record u { dpram = copy_in u.dpram 0 setup; sie_status = set_bit u.sie_status k_setup_rec })

-- The loop of `host_in_ep0` over the bytes of the buffer that lie inside the DPRAM.
unfoldable pub copy_out : (ℕ → ℕ) → ℕ → ℕ → List ℕ
copy_out p off zero = []
copy_out p off (suc left) =
    let rest = copy_out p (off + 1) left in if ltb off k_dpram_size then p off ∷ rest else []

unfoldable pub host_in_ep0 : UsbCtrl → List ℕ × UsbCtrl
host_in_ep0 u =
    let bc = dpram_rd u.dpram k_ep0_in_bc in
    if test_bit bc k_available && test_bit bc k_full
    then (
      copy_out u.dpram k_ep0_buf (bc % 2 ^ 10),
      refresh_irq (record u {
        dpram = dpram_wr u.dpram k_ep0_in_bc (clear_bit bc k_available) 4;
        buff_status = set_bit u.buff_status 0;
        sie_status = set_bit u.sie_status k_trans_complete;
      }),
    )
    else ([], u)

unfoldable pub host_out_ep0 : UsbCtrl → List ℕ → UsbCtrl
host_out_ep0 u bs =
    let n = min (length bs) 64 in
    let filled = copy_in u.dpram k_ep0_buf (take n bs) in
    let bc = bit_or (set_bit (and_not (dpram_rd filled k_ep0_out_bc) 0x7FF) k_full) n in
    refresh_irq (record u {
      dpram = dpram_wr filled k_ep0_out_bc bc 4;
      buff_status = set_bit u.buff_status 1;
      sie_status = set_bit u.sie_status k_trans_complete;
    })

unfoldable pub reset : UsbCtrl → UsbCtrl
reset u = refresh_irq (record u {
  dpram = λ i. 0;
  addr_endp = 0;
  main_ctrl = 0;
  sie_ctrl = 0;
  sie_status = 0;
  buff_status = 0;
  ep_stall_arm = 0;
  ep_status_stall_nak = 0;
  usb_pwr = 0;
  muxing = 0;
  inte = 0;
  intf = 0;
  sof = 0;
})

-- A register, by its offset in the block.
unfoldable pub read_register : UsbCtrl → ℕ → ℕ
read_register u reg =
    if reg == 0x00
    then u.addr_endp
    else if reg == 0x40
    then u.main_ctrl
    else if reg == 0x48
    then u.sof % 2 ^ 11
    else if reg == 0x4C
    then u.sie_ctrl
    else if reg == 0x50
    then u.sie_status
    else if reg == 0x58
    then u.buff_status
    else if reg == 0x68
    then u.ep_stall_arm
    else if reg == 0x70
    then u.ep_status_stall_nak
    else if reg == 0x74
    then u.muxing
    else if reg == 0x78
    then u.usb_pwr
    else if reg == 0x8C
    then compute_intr u
    else if reg == 0x90
    then u.inte
    else if reg == 0x94
    then u.intf
    else if reg == 0x98
    then ints u
    else 0

unfoldable pub bus_read : UsbCtrl → ℕ → BusResult
bus_read u offset = good (
    if ltb offset k_dpram_size
    then dpram_rd u.dpram offset
    else if ltb offset k_reg_base
    then 0
    else read_register u (offset - k_reg_base))

unfoldable pub write_register : UsbCtrl → ℕ → ℕ → UsbCtrl
write_register u reg value =
    if reg == 0x00
    then record u { addr_endp = bit_and value 0x000F_007F }
    else if reg == 0x40
    then record u { main_ctrl = value % 2 ^ 3 }
    else if reg == 0x44
    then record u { sof = value % 2 ^ 11 }
    else if reg == 0x4C
    then record u { sie_ctrl = value }
    else if reg == 0x50
    then refresh_irq (record u { sie_status = and_not u.sie_status (bit_and value 0xFF0E_0C00) })
    else if reg == 0x58
    then refresh_irq (record u { buff_status = and_not u.buff_status value })
    else if reg == 0x68
    then record u { ep_stall_arm = value % 2 ^ 2 }
    else if reg == 0x70
    then refresh_irq (record u { ep_status_stall_nak = and_not u.ep_status_stall_nak value })
    else if reg == 0x74
    then record u { muxing = value }
    else if reg == 0x78
    then record u { usb_pwr = value }
    else if reg == 0x90
    then refresh_irq (record u { inte = value })
    else if reg == 0x94
    then refresh_irq (record u { intf = value })
    else u

unfoldable pub bus_write : UsbCtrl → ℕ → ℕ → BusWidth → BusStatus × UsbCtrl
bus_write u offset value w = (
  BusStatus.ok,
  if ltb offset k_dpram_size
      then record u { dpram = dpram_wr u.dpram offset value (bytes w) }
      else if ltb offset k_reg_base
      then u
      else write_register u (offset - k_reg_base) value,
)
