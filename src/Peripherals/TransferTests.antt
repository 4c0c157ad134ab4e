-- ===== src/Peripherals/TransferTests.antt =====
-- Concrete DMA, SPI, I2C and USB controllers and clock trees, and the theorems about them at those.
use rp2040_simlator.Base.{
  ℕ, zero, suc, ◌+◌, ◌*◌, ◌%◌, ◌^◌, ◌<◌, ◌≡◌, ◌++◌, refl, true, false, arith, [], ◌∷◌, none, some,
  replicate, get_or, test_bit, inl,
}
use rp2040_simlator.Core.Bus.{BusWidth, Devices, BusStatus, good}
use rp2040_simlator.Core.Memory.{fresh, k_sram}
use rp2040_simlator.Core.Interrupts.{Cores}
use rp2040_simlator.Peripherals.Tests.{cores}
use rp2040_simlator.Peripherals.Pacing.{ticks}
use rp2040_simlator.Peripherals.Dma.{Channel, Dma, fresh_channel, trigger}
use rp2040_simlator.Peripherals.Dma.Transfer.{on_cycles}
use rp2040_simlator.Peripherals.Dma.Steps.{Alone, Copied}
use rp2040_simlator.Peripherals.Dma.Program.{Programmed, on_cycles-copies}
use rp2040_simlator.Peripherals.Usb.{UsbCtrl, host_in_ep0, host_out_ep0}
use rp2040_simlator.Peripherals.Usb.Echo.{host_in_ep0-host_out_ep0}
use rp2040_simlator.Peripherals.Spi.{Spi, tick_bit}
use rp2040_simlator.Peripherals.Spi.Loopback.{Ready, ticks-echoed}
use rp2040_simlator.Peripherals.I2c.{I2c, Answer, ic_clock}
use rp2040_simlator.Peripherals.I2c.Delivery.{writes, Slave, ticks-delivers}
use rp2040_simlator.Peripherals.Pll.{fresh_pll}
use rp2040_simlator.Peripherals.Clocks.{fresh_gen}
use rp2040_simlator.Peripherals.ClockTree.{
  ClockTree, clk_ref_hz, clk_sys_hz, clk_peri_hz, clk_adc_hz, clk_rtc_hz,
}
use rp2040_simlator.Peripherals.ClockTree.Rates.{Proper, k_max_source, k_max_rate, Proper-rates}

-- Channel 0 copies three bytes from offset 16 to offset 32, with no device behind the bus.
abbrev nothing_there : Devices (Cores × ℕ)
nothing_there = record {
  bus_read = λ id off w s. (good 0, s);
  bus_write = λ id off v w s. (BusStatus.ok, s);
}

abbrev copier : Channel
copier = record fresh_channel {
  read_addr = k_sram.base + 16;
  write_addr = k_sram.base + 32;
  trans_count = 3;
  ctrl = 0x1F_8031;
}

abbrev dma : Dma ℕ
dma = record {
  chan = copier ∷ replicate 11 fresh_channel;
  intr = 0;
  inte0 = 1;
  inte1 = 0;
  intf0 = 0;
  intf1 = 0;
  pacing_timer = replicate 4 0;
  sniff_ctrl = 0;
  sniff_data = 0;
  dreq_divisor = 1;
  dreq_ready = λ k. none;
  nvic = 0 ∷ [];
  mem = record fresh { sram = λ i. i % 256 };
  cpus = cores;
  dev = 0;
}

idle_channel :
    (n k : ℕ) → test_bit (get_or (replicate n fresh_channel) k fresh_channel).ctrl 24 ≡ false
idle_channel zero k = refl
idle_channel (suc n) zero = refl
idle_channel (suc n) (suc k) = idle_channel n k

dma-Alone : Alone 0 dma
dma-Alone zero ne = absurd (ne refl)
dma-Alone (suc k) ne = idle_channel 11 k

dma-Programmed : Programmed dma 0 3 16 32
dma-Programmed = record {
  channels = refl;
  here = omega arith;
  is_copy = record {
    enabled = refl;
    size = refl;
    incr_read = refl;
    incr_write = refl;
    ring_size = refl;
    chain_to = refl;
    treq_sel = refl;
    bswap = refl;
  };
  count = refl;
  from = refl;
  to = refl;
  src_fits = omega arith;
  dst_fits = omega arith;
}

dma_bytes : (i : ℕ) → dma.mem.sram i < 256
dma_bytes i = omega arith

on_cycles-copies_example : Copied dma (on_cycles nothing_there (trigger 0 dma) 3) 0 3 16 32 33
on_cycles-copies_example =
    on_cycles-copies nothing_there dma 0 2 16 32 33 dma-Programmed dma-Alone dma_bytes
      (inl (omega arith))

-- Two frames of eight bits, with a third to follow.
abbrev spi : Spi ℕ
spi = record {
  base = 0;
  irq = 18;
  gpio = none;
  rx = 7 ∷ [];
  miso = [];
  tx_fifo = 0x12 ∷ 0x1FF ∷ 0x34 ∷ [];
  mosi_log = [];
  xfer_cb = none;
  ext = 0;
  cr0 = 7;
  cr1 = 3;
  cpsdvsr = 2;
  imsc = 0;
  dmacr = 0;
  spi_hz = 125;
  sys_hz = 125;
  clk_accum = 0;
  bit_cycle_accum = 0;
  bits_left = 0;
  tx_shift = 0;
  nvic = 0 ∷ [];
  cpus = cores;
}

spi-Ready : Ready spi
spi-Ready = record { enabled = refl; loopback = refl; at_rest = refl }

ticks-echoed_example :
    let s' = ticks tick_bit 18 spi in
    (s'.rx ≡ 7 ∷ 0x12 ∷ 0xFF ∷ [])
    × (s'.mosi_log ≡ 0x12 ∷ 0xFF ∷ [])
    × (s'.tx_fifo ≡ 0x34 ∷ [])
    × Ready s'
unfolding rp2040_simlator.Peripherals.Spi.frame_bits
ticks-echoed_example = ticks-echoed (0x12 ∷ 0x1FF ∷ []) (0x34 ∷ []) spi spi-Ready refl (omega arith)

-- A slave that keeps a checksum, at address 0x42.
abbrev checksum : Slave ℕ
checksum is_read b x = (record { ack = true; data_byte = 0 }, x * 3 + b)

abbrev i2c : I2c ℕ
i2c = record {
  irq = 23;
  con = 0x63;
  tar = 0x42;
  sar = 0x55;
  enabled = true;
  dma_cr = 0;
  tx_cmds = writes (5 ∷ 6 ∷ 7 ∷ []);
  slave_tx = [];
  rd_req_pending = false;
  rx = [];
  raw_intr = 0;
  intr_mask = 0;
  tx_abrt_source = 0;
  ss_hcnt = 4;
  ss_lcnt = 6;
  fs_hcnt = 4;
  fs_lcnt = 6;
  ic_hz = 125;
  sys_hz = 125;
  clk_accum = 0;
  byte_cycles_left = 0;
  stretch_cycles = 0;
  slave_addr = 0x42;
  slave = some checksum;
  on_stop = none;
  ext = 1;
  nvic = 0 ∷ [];
  cpus = cores;
}

i2c-Ready : rp2040_simlator.Peripherals.I2c.Delivery.Ready checksum 89 i2c
unfolding rp2040_simlator.Peripherals.I2c.scl_period_cycles
i2c-Ready = record { connected = refl; nine_periods = refl; no_stretch = refl; at_rest = refl }

ticks-delivers_example :
    let s' = ticks ic_clock 182 i2c in
    (s'.ext ≡ 30)
    × (s'.tx_cmds ≡ writes (7 ∷ []))
    × (s'.raw_intr ≡ 0)
    × rp2040_simlator.Peripherals.I2c.Delivery.Ready checksum 89 s'
ticks-delivers_example =
    ticks-delivers checksum (5 ∷ 6 ∷ []) 89 (writes (7 ∷ [])) i2c (omega arith) i2c-Ready refl
      (λ b x. refl)

-- The system clock at 125 MHz from PLL_SYS, all else as after a reset.
abbrev tree : ClockTree
tree = record {
  xosc = record { ctrl = 0xFA_BAA0; startup = 0 };
  rosc = record {
    ctrl = 0;
    freqa = 0;
    freqb = 0;
    dormant = 0;
    div = 0;
    phase = 0;
    badwrite = false;
    randbit = false;
  };
  pll_sys = record { cs = 1; pwr = 0; fbdiv = 125; prim = 0x6_2000 };
  pll_usb = fresh_pll;
  clocks = record {
    gen =
        replicate 4 fresh_gen
        ++ (record { ctrl = 2; div = 0x100 }
            ∷ record { ctrl = 1; div = 0x100 }
            ∷ replicate 4 fresh_gen);
    configured = 0x30;
  };
  tick = 12;
}

Proper-rates_example :
    Proper k_max_source (clk_ref_hz tree)
    × Proper k_max_source (clk_adc_hz tree)
    × Proper k_max_rate (clk_sys_hz tree)
    × Proper k_max_rate (clk_peri_hz tree)
    × Proper k_max_rate (clk_rtc_hz tree)
    × (k_max_rate * 256 < 2 ^ 64)
Proper-rates_example = Proper-rates tree

-- A USB device with an interrupt for filled buffers.
abbrev usb : UsbCtrl
usb = record {
  dpram = λ i. i % 256;
  addr_endp = 1;
  main_ctrl = 1;
  sie_ctrl = 0;
  sie_status = 0x1_0000;
  buff_status = 0;
  ep_stall_arm = 0;
  ep_status_stall_nak = 0;
  usb_pwr = 0;
  muxing = 0;
  inte = 0x10;
  intf = 0;
  sof = 0;
  nvic = 0 ∷ [];
  cpus = cores;
}

usb_bytes : (i : ℕ) → usb.dpram i < 256
usb_bytes i = omega arith

message_bytes : (i : ℕ) → get_or (7 ∷ 8 ∷ 9 ∷ []) i 0 < 256
message_bytes zero = omega arith
message_bytes (suc zero) = omega arith
message_bytes (suc (suc zero)) = omega arith
message_bytes (suc (suc (suc i))) = omega arith

host_in_ep0-host_out_ep0_example :
    let sent = host_out_ep0 usb (7 ∷ 8 ∷ 9 ∷ []) in
    let (back, after) =
      host_in_ep0 (rp2040_simlator.Peripherals.Usb.bus_write sent 0x80 0x8403 BusWidth.word).1 in
    (back ≡ 7 ∷ 8 ∷ 9 ∷ []) × (after.buff_status ≡ 3) × (after.sie_status ≡ 0x5_0000)
host_in_ep0-host_out_ep0_example =
    host_in_ep0-host_out_ep0 usb (7 ∷ 8 ∷ 9 ∷ []) usb_bytes message_bytes (omega arith)
