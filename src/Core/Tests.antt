-- ===== src/Core/Tests.antt =====
-- Concrete machines, and the theorems about the core on them.
use rp2040_simlator.Base.{
  u64, ℕ, ◌+◌, ◌*◌, ◌^◌, ◌≤◌, ◌<◌, ◌≡◌, ◌↔◌, ◌⊎◌, refl, true, false, arith, [], ◌∷◌, some, inl, inr,
  replicate, get_or, of_bool, clear_low, bit_or,
}
use rp2040_simlator.Base.Int.{pos, ◌+ℤ◌, signed32, ◌≤ℤ◌, ◌<ℤ◌}
use rp2040_simlator.Core.Bus.{BusWidth, BusStatus, Devices, fail, good}
use rp2040_simlator.Core.Memory.{Memory, Store, PeripheralMapping, backing, store, find_mapping}
use rp2040_simlator.Core.Memory.Scalar.{read_scalar, write_scalar, assemble}
use rp2040_simlator.Core.Memory.Access.{IsBytes}
use rp2040_simlator.Core.Memory.Sram.{InSram, write_scalar_lem}
use rp2040_simlator.Core.Memory.Protection.{refusals}
use rp2040_simlator.Core.Memory.Attach.{attach_peripheral}
use rp2040_simlator.Core.Memory.Routing.{AllApart, attach_peripheral-routes}
use rp2040_simlator.Core.Registers.{RegisterFile, get, set_reg, sp, condition_holds}
use rp2040_simlator.Core.Registers.Invariant.{IsValid, set_reg_lem}
use rp2040_simlator.Core.Alu.{add_with_carry}
use rp2040_simlator.Core.Alu.Addition.{add_with_carry_lem}
use rp2040_simlator.Core.Alu.Compare.{compare_flags, compare_flags_lem}
use rp2040_simlator.Core.Thumb.{Mnemonic, default_instr, is_32bit_thumb}
use rp2040_simlator.Core.Thumb.Decode16.{decode_thumb16}
use rp2040_simlator.Core.Thumb.Decode32.{decode_thumb32}
use rp2040_simlator.Core.Thumb.Fields.{InRange, decode_thumb16-InRange}
use rp2040_simlator.Core.Thumb.Encode.{
  encode_b_cond, encode_b, encode_bl_1, encode_bl_2, widened, decode-encode_branches,
}
use rp2040_simlator.Core.Cpu.{CoreState, ExecStatus, highest_pending_exception}
use rp2040_simlator.Core.Cpu.Step.{step}
use rp2040_simlator.Core.Cpu.Sleep.{step-masked_wfi}
use rp2040_simlator.Core.Cpu.Priority.{IsBest, highest_pending_exception-IsBest}
use rp2040_simlator.Core.Cpu.Machine.{Machine, Wiring, done}
use rp2040_simlator.Core.Cpu.Exceptions.{take_exception, exception_return, entry_exc_return}
use rp2040_simlator.Core.Cpu.Exceptions.Return.{Framed, resumed, exception_return-resumed}
use rp2040_simlator.Core.Cpu.Exceptions.Entry.{Enters, entered, take_exception-Framed}
use rp2040_simlator.Core.Cpu.Exceptions.RoundTrip.{exception_return-take_exception}

-- A system whose only device answers every read with 0 and takes every write.
abbrev zero_devices : {S : Type 0} → Devices S
zero_devices = record {
  bus_read = λ p off w s. (good 0, s);
  bus_write = λ p off v w s. (BusStatus.ok, s);
}

abbrev quiet : Wiring (Unit {0})
quiet = record { devices = zero_devices; on_cycles = λ n s. s; send_event = λ d. d }

abbrev memory : Memory
memory = record {
  rom = λ _. 0;
  flash = λ _. 0;
  sram = λ _. 0;
  peripherals = [];
  watchpoints = [];
  suppress_wp = false;
  wp_hit = false;
  wp_hit_addr = 0;
  wp_hit_was_write = false;
}

-- Thread mode on the main stack at 0x20001004, which is not a multiple of 8.
abbrev registers : RegisterFile
registers = record {
  r = 1 ∷ 2 ∷ 3 ∷ 4 ∷ 5 ∷ 6 ∷ 7 ∷ 8 ∷ 9 ∷ 10 ∷ 11 ∷ 12 ∷ 13 ∷ [];
  pc = 0x2000_0200;
  lr = 0x2000_0101;
  msp = 0x2000_1004;
  psp = 0;
  n = true;
  z = false;
  c = true;
  v = false;
  t = true;
  exception = 0;
  npriv = false;
  spsel = false;
  primask = false;
}

-- PendSV and the external interrupt 3 are pending, the second one enabled.
abbrev core : CoreState
core = record {
  cycles = 0;
  vtor = 0;
  pending = 2 ^ 14 + 2 ^ 19;
  irq_enabled = 2 ^ 3;
  priority = replicate 42 0;
  svc_imm = 0;
  bkpt_imm = 0;
  asleep = false;
  sleep_is_wfe = false;
  event = false;
  sleep_on_exit = false;
}

abbrev machine : Machine (Unit {0})
machine = record { regs = registers; mem = memory; core = core; dev = tt }

registers_words : (i : ℕ) → get_or registers.r i 0 < 2 ^ 32
registers_words i = ground arith

registers-IsValid : IsValid registers
registers-IsValid = record {
  thirteen = refl;
  words = registers_words;
  pc_word = omega arith;
  pc_even = refl;
  lr_word = omega arith;
  msp_word = omega arith;
  msp_aligned = refl;
  psp_word = omega arith;
  psp_aligned = refl;
  exception_fits = omega arith;
}

zero_bytes : IsBytes (λ _. 0)
zero_bytes i = omega arith

machine-Enters : Enters quiet 19 0x2000_0200 76 Store.in_rom machine
unfolding sp backing
machine-Enters = record {
  valid = registers-IsValid;
  sram_bytes = zero_bytes;
  fits = record { aligned = refl; low = omega arith; high = omega arith };
  address = omega arith;
  vector = record { aligned = refl; there = refl };
  no_lockup = refl;
}

take_exception-Framed_example :
    let (e, s') = take_exception quiet 19 0x2000_0200 machine in
    (e ≡ ExecStatus.exception_taken)
    × (s'.regs ≡ entered registers 19 (assemble (store s'.mem Store.in_rom) 76 4 0 0))
    × Framed quiet registers 0x2000_0200 s'
take_exception-Framed_example =
    take_exception-Framed quiet 19 0x2000_0200 76 Store.in_rom machine machine-Enters

exception_return-take_exception_example :
    let s1 = (take_exception quiet 19 0x2000_0200 machine).1 in
    let (o, s2) = exception_return quiet s1.regs.lr s1 in
    (o ≡ done ExecStatus.ok)
    × (s2.regs ≡ record registers { pc = clear_low 0x2000_0200 1 })
    × (s2.mem.sram ≡ s1.mem.sram)
exception_return-take_exception_example =
    exception_return-take_exception quiet 19 0x2000_0200 76 Store.in_rom machine machine-Enters

exception_return-resumed_example :
    let s1 = (take_exception quiet 19 0x2000_0200 machine).1 in
    let (o, s2) = exception_return quiet (entry_exc_return registers) s1 in
    (o ≡ done ExecStatus.ok)
    × (s2.regs ≡ resumed registers 0x2000_0200 s1.regs)
    × (s2.mem.sram ≡ s1.mem.sram)
exception_return-resumed_example =
    exception_return-resumed quiet registers 0x2000_0200
      (take_exception quiet 19 0x2000_0200 machine).1 registers-IsValid
      (take_exception-Framed quiet 19 0x2000_0200 76 Store.in_rom machine machine-Enters).2

highest_pending_exception-IsBest_example :
    IsBest core registers 42 (highest_pending_exception core registers)
highest_pending_exception-IsBest_example = highest_pending_exception-IsBest core registers

abbrev device_state : ℕ
device_state = 7

word-InSram : InSram 0x2000_0010 BusWidth.word
word-InSram = record { aligned = refl; low = omega arith; high = omega arith }

write_scalar_lem_example :
    let (st, m', s') =
      write_scalar zero_devices memory device_state 0x2000_0010 0xDEAD_BEEF BusWidth.word in
    ((st ≡ BusStatus.ok)
      × (s' ≡ device_state)
      × ((read_scalar zero_devices m' s' 0x2000_0010 BusWidth.word).0 ≡ good 0xDEAD_BEEF))
    × ((m'.rom ≡ memory.rom)
        × (m'.flash ≡ memory.flash)
        × (m'.peripherals ≡ memory.peripherals)
        × ((j : ℕ)
            → (0x2000_0000 + j < 0x2000_0010) ⊎ (0x2000_0010 + 4 ≤ 0x2000_0000 + j)
            → m'.sram j ≡ memory.sram j))
write_scalar_lem_example =
    write_scalar_lem zero_devices memory device_state 0x2000_0010 0xDEAD_BEEF BusWidth.word
      word-InSram zero_bytes (omega arith)

refusals_example :
    (read_scalar zero_devices memory device_state 0x2000_0002 BusWidth.word
      ≡ (fail BusStatus.misaligned_access, memory, device_state))
    × (write_scalar zero_devices memory device_state 0x2000_0002 1 BusWidth.word
        ≡ (BusStatus.misaligned_access, memory, device_state))
    × (write_scalar zero_devices memory device_state 0x1000_0004 1 BusWidth.word
        ≡ (BusStatus.write_to_read_only, memory, device_state))
refusals_example =
    refusals zero_devices memory device_state 0x2000_0002 0x1000_0004 1 BusWidth.word (omega arith)
      (inr (omega arith, omega arith))

-- The UART and the watchdog.
abbrev uart : PeripheralMapping
uart = record { region = record { base = 0x4003_4000; size = 0x1000 }; peripheral = 0 }

abbrev watchdog : PeripheralMapping
watchdog = record { region = record { base = 0x4005_8000; size = 0x1000 }; peripheral = 1 }

two_mapped : AllApart (uart ∷ watchdog ∷ [])
two_mapped = ((omega arith, inl refl), (inl (omega arith), tt), ((omega arith, inl refl), tt, tt))

attach_peripheral-routes_example :
    let ms =
      (attach_peripheral
        (record memory { peripherals = uart ∷ watchdog ∷ [] })
        0x4005_4000
        0x1000
        (some 2)).1.peripherals in
    AllApart ms × (find_mapping ms 0x4005_8008 4 ≡ some watchdog)
unfolding attach_peripheral rp2040_simlator.Core.Memory.Attach.overlaps_any
attach_peripheral-routes_example =
    attach_peripheral-routes (record memory { peripherals = uart ∷ watchdog ∷ [] }) 0x4005_4000
      0x1000 (some 2) watchdog 0x4005_8008 4 two_mapped (inr (inl refl)) (omega arith) refl

set_reg_lem_example :
    (get (set_reg registers 13 0x2000_2003) 13 ≡ 0x2000_2000)
    × IsValid (set_reg registers 13 0x2000_2003)
set_reg_lem_example =
    set_reg_lem registers 13 13 0x2000_2003 (omega arith) (omega arith) (omega arith)
      registers-IsValid

add_with_carry_lem_example :
    let r = add_with_carry 0x7FFF_FFFF 1 false in
    (r.value + 2 ^ 32 * of_bool r.carry ≡ 0x7FFF_FFFF + 1 + 0)
    × (r.value < 2 ^ 32)
    × ((r.overflow ≡ false) ↔ (signed32 r.value ≡ signed32 0x7FFF_FFFF +ℤ signed32 1 +ℤ pos 0))
add_with_carry_lem_example = add_with_carry_lem 0x7FFF_FFFF 1 false (omega arith) (omega arith)

abbrev five : ℕ
five = 5

compare_flags_lem_example :
    let r = compare_flags registers five 0xFFFF_FFFF in
    (condition_holds r 0 ≡ true ↔ five ≡ 0xFFFF_FFFF)
    × (condition_holds r 2 ≡ true ↔ 0xFFFF_FFFF ≤ five)
    × (condition_holds r 8 ≡ true ↔ 0xFFFF_FFFF < five)
    × (condition_holds r 10 ≡ true ↔ signed32 0xFFFF_FFFF ≤ℤ signed32 five)
    × (condition_holds r 12 ≡ true ↔ signed32 0xFFFF_FFFF <ℤ signed32 five)
compare_flags_lem_example = compare_flags_lem registers five 0xFFFF_FFFF (omega arith) (omega arith)

decode_thumb16-InRange_example : InRange (decode_thumb16 0xB570)
decode_thumb16-InRange_example = decode_thumb16-InRange 0xB570

decode-encode_branches_example :
    (decode_thumb16 (encode_b_cond 1 0x1FC) ≡ record default_instr {
      raw = encode_b_cond 1 0x1FC;
      op = Mnemonic.b_cond;
      cond = 1;
      branch_offset = widened 9 0x1FC;
    })
    × (decode_thumb16 (encode_b 0x7FE) ≡ record default_instr {
      raw = encode_b 0x7FE;
      op = Mnemonic.b;
      branch_offset = widened 12 0x7FE;
    })
    × (is_32bit_thumb (encode_bl_1 0x1FF_FFFC) ≡ true)
    × (decode_thumb32 (encode_bl_1 0x1FF_FFFC) (encode_bl_2 0x1FF_FFFC) ≡ record default_instr {
      raw = bit_or (encode_bl_1 0x1FF_FFFC * 2 ^ 16) (encode_bl_2 0x1FF_FFFC);
      length = 4;
      op = Mnemonic.bl;
      branch_offset = widened 25 0x1FF_FFFC;
    })
decode-encode_branches_example =
    decode-encode_branches 1 0x1FC 0x7FE 0x1FF_FFFC (omega arith) (omega arith, refl)
      (omega arith, refl) (omega arith, refl)

-- Asleep in WFI with PRIMASK set and two interrupts pending.
abbrev sleeper : Machine (Unit {0})
sleeper = record machine {
  regs = record registers { primask = true };
  core = record core { asleep = true };
}

step-masked_wfi_example :
    let (st, s') = step quiet sleeper in
    (st ≡ ExecStatus.waiting_for_interrupt)
    × (s'.core.asleep ≡ true)
    × (s'.core.sleep_is_wfe ≡ false)
    × (s'.regs ≡ sleeper.regs)
    × (s'.mem ≡ sleeper.mem)
    × ((s'.core, s'.dev)
        ≡ quiet.on_cycles 1
            (record (sleeper.core) { cycles = u64 (sleeper.core.cycles + 1) }, sleeper.dev))
step-masked_wfi_example =
    step-masked_wfi quiet sleeper (λ n c d. (refl, refl)) refl refl refl refl refl
