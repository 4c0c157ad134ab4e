-- ===== src/Pio/StateMachine/Tick.antt =====
-- One divided clock of a PIO state machine: `StateMachine::tick` of pio/state_machine.cpp.
use rp2040_simlator.Base.{
  ℕ, ◌-◌, ◌%◌, ◌^◌, Bool, true, false, not, ◌&&◌, ◌||◌, Option, none, some, List, ltb, leb,
  if◌then◌else◌, get_or,
}
use rp2040_simlator.Pio.Fifo.{push, pop}
use rp2040_simlator.Pio.Decode.{PioOp, PioInstr, pio_decode}
use rp2040_simlator.Pio.StateMachine.{StateMachine, Stall, pull_thresh, advance_pc, delay_of}
use rp2040_simlator.Pio.StateMachine.Exec.{Step, exec}

pub record TickOutcome : Type 0 where
  pub executed : Bool
  pub stalled : Bool
  pub delayed : Bool
  pub rx_stall : Bool
  pub tx_stall : Bool

abbrev pub no_outcome : TickOutcome
no_outcome = record {
  executed = false;
  stalled = false;
  delayed = false;
  rx_stall = false;
  tx_stall = false;
}

abbrev pub is_instr : Stall → Bool
is_instr Stall.instr = true
is_instr _ = false

abbrev pub is_auto_push : Stall → Bool
is_auto_push Stall.auto_push = true
is_auto_push _ = false

abbrev pub is_auto_pull : Stall → Bool
is_auto_pull Stall.auto_pull = true
is_auto_pull _ = false

abbrev pub is_push : PioOp → Bool
is_push PioOp.push = true
is_push _ = false

abbrev pub is_pull : PioOp → Bool
is_pull PioOp.pull = true
is_pull _ = false

abbrev pub settled : StateMachine → StateMachine
settled s = elim s.stall [ Stall.not_stalled ↦ record s { stall = Stall.instr } | _ ↦ s ]

-- A stall of the instruction that has just run, with `stall_` brought up to date.
unfoldable pub stall_outcome : StateMachine → TickOutcome × StateMachine
stall_outcome s0 =
    let s = settled s0 in
    (
      record no_outcome {
        stalled = true;
        rx_stall = is_auto_push s.stall || is_instr s.stall && is_push s.cur.op;
        tx_stall = is_auto_pull s.stall || is_instr s.stall && is_pull s.cur.op;
      },
      s,
    )

-- What follows `exec` in `tick`.
unfoldable pub after_exec : Step → TickOutcome × StateMachine
unfolding stall_outcome
after_exec (false, s) = stall_outcome s
after_exec (true, s) =
    if is_auto_push s.stall || is_auto_pull s.stall
    then (
      record no_outcome {
        stalled = true;
        rx_stall = is_auto_push s.stall;
        tx_stall = is_auto_pull s.stall;
      },
      s,
    )
    else (
      record no_outcome { executed = true },
      record s { stall = Stall.not_stalled; delay_left = delay_of s.cfg s.cur },
    )

-- The OSR is refilled between instructions.
unfoldable pub refill : StateMachine → StateMachine
refill s =
    let (out, f) = pop s.tx in
    if not (is_instr s.stall) && s.cfg.autopull && leb (pull_thresh s) s.osr_shift_count
    then elim out [ some v ↦ record s { tx = f; osr = v; osr_shift_count = 0 } | none ↦ s ]
    else s

-- What `tick` returns after `exec`, where that returns.
unfoldable pub finish : Option Step → Option (TickOutcome × StateMachine)
unfolding after_exec
finish none = none
finish (some step) = some (after_exec step)

-- The instruction of this tick: the stalled one again, or the next of the program.
unfoldable pub fetched : List ℕ → StateMachine → PioInstr
fetched program s = if is_instr s.stall then s.cur else pio_decode (get_or program (s.pc % 2 ^ 5) 0)

unfoldable pub run : ℕ → List ℕ → StateMachine → Option (TickOutcome × StateMachine)
unfolding refill fetched finish
run fuel program s0 =
    let s = refill s0 in let i = fetched program s in finish (exec fuel i (record s { cur = i }))

-- A pending autopush is tried again.
unfoldable pub retry_autopush : StateMachine → TickOutcome × StateMachine
retry_autopush s =
    let (ok, f) = push s.rx s.isr in
    let s1 =
      advance_pc (record s { rx = f; isr = 0; isr_shift_count = 0; stall = Stall.not_stalled }) in
    if ok
    then (record no_outcome { executed = true }, record s1 { delay_left = delay_of s.cfg s.cur })
    else (record no_outcome { stalled = true; rx_stall = true }, s)

-- A pending autopull is tried again, and the stalled OUT after it.
unfoldable pub retry_autopull : ℕ → List ℕ → StateMachine → Option (TickOutcome × StateMachine)
unfolding run
retry_autopull fuel program s =
    let (out, f) = pop s.tx in
    elim out [
      | none ↦ some (record no_outcome { stalled = true; tx_stall = true }, s)
      | some v ↦
          run fuel program (record s { tx = f; osr = v; osr_shift_count = 0; stall = Stall.instr })
    ]

unfoldable pub tick_stalled :
    Stall → ℕ → List ℕ → StateMachine → Option (TickOutcome × StateMachine)
unfolding run retry_autopush retry_autopull
tick_stalled Stall.auto_push fuel program s = some (retry_autopush s)
tick_stalled Stall.auto_pull fuel program s = retry_autopull fuel program s
tick_stalled Stall.instr fuel program s = run fuel program s
tick_stalled Stall.not_stalled fuel program s = run fuel program s

unfoldable pub tick : ℕ → List ℕ → StateMachine → Option (TickOutcome × StateMachine)
unfolding tick_stalled
tick fuel program s =
    if not s.enabled
    then some (no_outcome, s)
    else if ltb 0 s.delay_left
    then some (record no_outcome { delayed = true }, record s { delay_left = s.delay_left - 1 })
    else tick_stalled s.stall fuel program s

-- SMx_INSTR writes: only JMP moves the PC, and no stall is left behind.
unfoldable pub exec_immediate : ℕ → ℕ → StateMachine → Option StateMachine
exec_immediate fuel word s =
    let i = pio_decode word in
    elim (exec fuel i s) [
      | some (ok, s') ↦
          let is_jmp = elim i.op as (λ _. Bool) [ PioOp.jmp ↦ true | _ ↦ false ] in
          let s1 = if not is_jmp || not ok then record s' { pc = s.pc } else s' in
          some (if ok then s1 else record s1 { stall = Stall.not_stalled })
      | none ↦ none
    ]
