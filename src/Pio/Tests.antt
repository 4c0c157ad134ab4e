-- ===== src/Pio/Tests.antt =====
-- Concrete FIFOs, instructions and state machines, and the theorems about PIO on them.
use rp2040_simlator.Base.{
  ℕ, zero, suc, ◌+◌, ◌*◌, ◌/◌, ◌≡◌, refl, true, false, arith, List, [], ◌∷◌, none, some, inl,
  replicate, get_or, ◌++◌,
}
use rp2040_simlator.Pio.Fifo.{PioFifo, push, pop, peek}
use rp2040_simlator.Pio.Fifo.Queue.{IsValid, contents, push_queue, pop_queue, push-queue, pop-queue}
use rp2040_simlator.Pio.Decode.{default_instr, pio_decode}
use rp2040_simlator.Pio.Decode.Encode.{Operands, encode, instr_of, pio_decode-encode}
use rp2040_simlator.Pio.StateMachine.{StateMachine, SmConfig, Stall}
use rp2040_simlator.Pio.StateMachine.Exec.{Step, exec, is_exec_inject}
use rp2040_simlator.Pio.StateMachine.Tick.{TickOutcome, no_outcome, tick}
use rp2040_simlator.Pio.StateMachine.Invariant.{InRange}
use rp2040_simlator.Pio.StateMachine.Inject.{exec_lem, mov_exec_x}
use rp2040_simlator.Pio.StateMachine.Safety.{tick-InRange}
use rp2040_simlator.Pio.Block.{Lane, set_clkdiv}
use rp2040_simlator.Core.Interrupts.{Cores}
use rp2040_simlator.Pio.Registers.{PioRegisters, reg_write}
use rp2040_simlator.Pio.Registers.Config.{fresh_words}
use rp2040_simlator.Pio.Registers.Windows.{Sent, reg_write-Sent}
use rp2040_simlator.Pio.Block.Divider.{Lent, tick_all, divided_run, divided, set_clkdiv-tick_lane}
use rp2040_simlator.Peripherals.Gpio.{Gpio, Driver, fresh_pin}

-- Two words, 5 and 6, that lie around the end of the ring.
abbrev fifo : PioFifo
fifo = record { buf = 6 ∷ 0 ∷ 0 ∷ 5 ∷ 0 ∷ 0 ∷ 0 ∷ 0 ∷ []; head = 3; count = 2; depth = 4 }

fifo-IsValid : IsValid fifo
fifo-IsValid = record {
  slots = refl;
  depths = inl refl;
  head_inside = omega arith;
  bounded = omega arith;
}

push-queue_example :
    let (ok, f') = push fifo 7 in ((ok, contents f') ≡ push_queue 4 (contents fifo) 7) × IsValid f'
push-queue_example = push-queue fifo 7 fifo-IsValid

pop-queue_example :
    let (out, f') = pop fifo in
    ((out, contents f') ≡ pop_queue (contents fifo))
    × IsValid f'
    × (peek fifo ≡ (elim out [ some x ↦ x | none ↦ 0 ]))
pop-queue_example = pop-queue fifo fifo-IsValid

pio_decode-encode_example :
    pio_decode (encode (Operands.out_bits 7 32) 3)
    ≡ instr_of
        (Operands.out_bits 7 32)
        (record default_instr { raw = encode (Operands.out_bits 7 32) 3; delay_sideset = 3 })
pio_decode-encode_example =
    pio_decode-encode (Operands.out_bits 7 32) 3 (omega arith, omega arith, omega arith)
      (omega arith)

-- GPIO25 is on PIO0.
abbrev gpio : Gpio
gpio = record {
  pins = replicate 25 fresh_pin ++ (record fresh_pin { funcsel = 6; pull_up = true } ∷ []);
  out = replicate 6 0;
  oe = replicate 6 0;
}

-- A machine with autopush whose X holds `mov exec, x`.
abbrev machine : StateMachine
machine = record {
  cfg = config;
  tx = fifo;
  rx = fifo;
  x = mov_exec_x;
  y = 0;
  osr = 0;
  isr = 5;
  pc = 0;
  osr_shift_count = 32;
  isr_shift_count = 24;
  gpio = gpio;
  driver = Driver.pio0;
  block_irq = 0;
  sm_id = 0;
  enabled = true;
  delay_left = 0;
  stall = Stall.not_stalled;
  irq_wait_raised = false;
  cur = default_instr;
}
  where
    config : SmConfig
    config = record {
      out_shiftdir_right = true;
      in_shiftdir_right = true;
      autopull = false;
      autopush = true;
      pull_threshold = 32;
      push_threshold = 32;
      wrap_top = 31;
      wrap_bottom = 0;
      sideset_count = 0;
      sideset_opt = false;
      sideset_pindir = false;
      jmp_pin = 0;
      status_sel_rx = false;
      status_n = 0;
      in_base = 0;
      out_base = 0;
      out_count = 0;
      set_base = 0;
      set_count = 0;
      sideset_base = 0;
    }

machine-InRange : InRange machine
machine-InRange = record {
  pc_fits = omega arith;
  bottom_fits = omega arith;
  osr_count = omega arith;
  isr_count = omega arith;
  cur_fits = omega arith;
  tx_valid = fifo-IsValid;
  rx_valid = fifo-IsValid;
}

-- `in x, 8`, then `jmp 0`.
abbrev program : List ℕ
program = 0x4028 ∷ 0x0000 ∷ []

program_plain : (pc : ℕ) → is_exec_inject (pio_decode (get_or program pc 0)) ≡ false
unfolding pio_decode
program_plain zero = refl
program_plain (suc zero) = refl
program_plain (suc (suc pc)) = refl

tick-InRange_example :
    (out : TickOutcome × StateMachine) × (tick 1 program machine ≡ some out) × InRange out.1
tick-InRange_example =
    tick-InRange 0 program machine (record { program_plain = program_plain; cur_plain = refl })
      machine-InRange

exec_lem_example :
    ((step : Step) × (exec 3 default_instr machine ≡ some step)
      × (exec 1 default_instr machine ≡ some step))
    × (exec 2 (pio_decode mov_exec_x) machine ≡ none)
exec_lem_example = exec_lem 2 default_instr machine machine refl refl

abbrev lane : Lane
lane = record {
  sm = machine;
  clkdiv = 256;
  clkacc = 128;
  last_outcome = no_outcome;
  instr_retired = 0;
}

-- Clocks of an empty program, for a machine that is enabled.
abbrev lent : Lent
lent = record { fuel = 1; program = replicate 32 0; gpio = gpio; irq = 0 }

abbrev running : Lane
running = record lane { sm = record (lane.sm) { enabled = true } }

set_clkdiv-tick_lane_example :
    let l' = set_clkdiv running 2 128 in
    (l'.clkdiv ≡ 640)
    × (tick_all (replicate 5 lent) l' ≡ divided_run 640 0 (replicate 5 lent) l')
    × ((n : ℕ) → divided 640 n ≡ 256 * n / 640)
set_clkdiv-tick_lane_example =
    set_clkdiv-tick_lane running 2 128 (replicate 5 lent) (omega arith) (omega arith)

abbrev registers : PioRegisters
registers = record {
  block = record { gpio = gpio; program = replicate 32 0; irq = 0; lanes = replicate 4 lane };
  nvic = 0 ∷ [];
  nvic_irq0 = 23;
  cpus = quiet;
  ctrl = 1;
  words = replicate 4 fresh_words;
  irq0_inte = 0;
  irq0_intf = 0;
  irq1_inte = 0;
  irq1_intf = 0;
  fdebug = 0;
}
  where
    quiet : Cores
    quiet k = record {
      cycles = 0;
      vtor = 0;
      pending = 0;
      irq_enabled = 0;
      priority = [];
      svc_imm = 0;
      bkpt_imm = 0;
      asleep = false;
      sleep_is_wfe = false;
      event = false;
      sleep_on_exit = false;
    }

reg_write-Sent_example :
    (s' : PioRegisters) × (reg_write 0 registers (0x10 + 2 * 4) 99 ≡ some s')
    × Sent registers 2 99 s'
reg_write-Sent_example = reg_write-Sent 0 registers 2 99 refl (omega arith) fifo-IsValid
