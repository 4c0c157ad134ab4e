-- ===== src/Pio/StateMachine/Exec.antt =====
-- One PIO instruction: `StateMachine::exec` of pio/state_machine.cpp. The result `false` is a stall.
use rp2040_simlator.Base.{
  ℕ, zero, suc, ◌+◌, ◌-◌, ◌%◌, ◌^◌, Bool, true, false, not, ◌&&◌, Option, none, some, ltb, leb,
  ◌==◌, if◌then◌else◌, bit_or, ◌<<<◌, ◌>>>◌, test_bit, sub32, not32, min,
}
use rp2040_simlator.Base.Bits.{set_bit, clear_bit}
use rp2040_simlator.Core.Registers.{◌==b◌}
use rp2040_simlator.Peripherals.Gpio.{func_level}
use rp2040_simlator.Pio.Fifo.{push, pop, level}
use rp2040_simlator.Pio.Decode.{PioOp, PioInstr, pio_decode}
use rp2040_simlator.Pio.StateMachine.{
  StateMachine, Stall, pull_thresh, push_thresh, wrap_pin, mask_n, bit_reverse, do_autopull,
  maybe_autopush, advance_pc, read_pins, with_pins, resolve_irq, apply_sideset,
}

-- Whether the instruction ran, and the state after it.
abbrev pub Step : Type 0
Step = Bool × StateMachine

abbrev pub go_on : StateMachine → Step
go_on s = (true, advance_pc s)

-- Whether the jump is taken, and the state after a decrement.
unfoldable pub jump_test : ℕ → StateMachine → Bool × StateMachine
jump_test c s =
    if c == 0
    then (true, s)
    else if c == 1
    then (s.x == 0, s)
    else if c == 2
    then (not (s.x == 0), record s { x = sub32 s.x 1 })
    else if c == 3
    then (s.y == 0, s)
    else if c == 4
    then (not (s.y == 0), record s { y = sub32 s.y 1 })
    else if c == 5
    then (not (s.x == s.y), s)
    else if c == 6
    then (func_level s.gpio s.cfg.jmp_pin, s)
    else (ltb s.osr_shift_count (pull_thresh s), s)

unfoldable pub exec_jmp : PioInstr → StateMachine → Step
unfolding jump_test
exec_jmp i s =
    let (take, s') = jump_test i.condition s in
    if take then (true, record s' { pc = i.address % 2 ^ 5 }) else go_on s'

unfoldable pub exec_set : PioInstr → StateMachine → Step
exec_set i s =
    let d = i.data' % 2 ^ 5 in
    go_on (
      if i.destination == 1
      then record s { x = d }
      else if i.destination == 2
      then record s { y = d }
      else if i.destination == 0
      then with_pins s s.cfg.set_base s.cfg.set_count d false
      else if i.destination == 4
      then with_pins s s.cfg.set_base s.cfg.set_count d true
      else s)

-- The source of MOV, after its operation.
unfoldable pub mov_source : PioInstr → StateMachine → ℕ
mov_source i s =
    let src =
      if i.source == 1
      then s.x
      else if i.source == 2
      then s.y
      else if i.source == 6
      then s.isr
      else if i.source == 7
      then s.osr
      else if i.source == 0
      then read_pins s.gpio s.cfg.in_base 32 0 0
      else if i.source == 5
      then (if ltb (if s.cfg.status_sel_rx then level s.rx else level s.tx) s.cfg.status_n
          then 0xFFFF_FFFF
          else 0)
      else 0 in
    if i.mov_op == 1 then not32 src else if i.mov_op == 2 then bit_reverse src else src

-- Every destination of MOV but EXEC (4).
unfoldable pub mov_to : PioInstr → ℕ → StateMachine → Step
mov_to i src s =
    if i.destination == 5
    then (true, record s { pc = src % 2 ^ 5 })
    else go_on (
        if i.destination == 1
        then record s { x = src }
        else if i.destination == 2
        then record s { y = src }
        else if i.destination == 6
        then record s { isr = src; isr_shift_count = 0 }
        else if i.destination == 7
        then record s { osr = src; osr_shift_count = 0 }
        else if i.destination == 0
        then with_pins s s.cfg.out_base s.cfg.out_count src false
        else s)

-- The shift of IN.
unfoldable pub shift_in : PioInstr → StateMachine → StateMachine
shift_in i s =
    let n = i.bit_count in
    let src =
      mask_n
        (if i.source == 1
          then s.x
          else if i.source == 2
          then s.y
          else if i.source == 6
          then s.isr
          else if i.source == 7
          then s.osr
          else if i.source == 0
          then read_pins s.gpio s.cfg.in_base n 0 0
          else 0)
        n in
    let shifted =
      if leb 32 n
      then src
      else if s.cfg.in_shiftdir_right
      then bit_or (s.isr >>> n) ((src <<< (32 - n)) % 2 ^ 32)
      else bit_or ((s.isr <<< n) % 2 ^ 32) src in
    record s { isr = shifted; isr_shift_count = min (s.isr_shift_count + n) 32 }

unfoldable pub exec_in : PioInstr → StateMachine → Step
unfolding maybe_autopush shift_in
exec_in i s =
    let s' = maybe_autopush (shift_in i s) in
    elim s'.stall [ Stall.auto_push ↦ (false, s') | _ ↦ go_on s' ]

-- What OUT shifts out, and the OSR after it.
unfoldable pub shift_out : ℕ → StateMachine → ℕ × StateMachine
shift_out n s =
    let count = min (s.osr_shift_count + n) 32 in
    if s.cfg.out_shiftdir_right
    then (
      mask_n s.osr n,
      record s { osr = if leb 32 n then 0 else s.osr >>> n; osr_shift_count = count },
    )
    else (
      if leb 32 n then s.osr else s.osr >>> (32 - n),
      record s { osr = if leb 32 n then 0 else (s.osr <<< n) % 2 ^ 32; osr_shift_count = count },
    )

-- Every destination of OUT but EXEC (7).
unfoldable pub out_to : PioInstr → ℕ → StateMachine → Step
out_to i v s =
    if i.destination == 5
    then (true, record s { pc = v % 2 ^ 5 })
    else go_on (
        if i.destination == 1
        then record s { x = v }
        else if i.destination == 2
        then record s { y = v }
        else if i.destination == 6
        then record s { isr = v; isr_shift_count = i.bit_count }
        else if i.destination == 0
        then with_pins s s.cfg.out_base s.cfg.out_count v false
        else if i.destination == 4
        then with_pins s s.cfg.out_base s.cfg.out_count v true
        else s)

unfoldable pub exec_push : PioInstr → StateMachine → Step
exec_push i s =
    let (ok, f) = push s.rx s.isr in
    if i.if_full && ltb s.isr_shift_count (push_thresh s)
    then go_on s
    else if ok
    then go_on (record s { rx = f; isr = 0; isr_shift_count = 0 })
    else if i.block
    then (false, s)
    else go_on (record s { isr = 0; isr_shift_count = 0 })

unfoldable pub exec_pull : PioInstr → StateMachine → Step
exec_pull i s =
    let (out, f) = pop s.tx in
    if i.if_empty && ltb s.osr_shift_count (pull_thresh s) then go_on s else elim out [
      | some v ↦ go_on (record s { tx = f; osr = v; osr_shift_count = 0 })
      | none ↦ if i.block then (false, s) else go_on (record s { osr = s.x; osr_shift_count = 0 })
    ]

unfoldable pub exec_wait : PioInstr → StateMachine → Step
unfolding resolve_irq
exec_wait i s =
    let flag = resolve_irq s.sm_id i.index in
    let satisfied =
      if i.source == 0
      then func_level s.gpio (wrap_pin i.index) ==b i.polarity
      else if i.source == 1
      then func_level s.gpio (wrap_pin (s.cfg.in_base + i.index)) ==b i.polarity
      else if i.source == 2
      then test_bit s.block_irq flag ==b i.polarity
      else true in
    if satisfied
    then go_on (
        if i.source == 2 && i.polarity
        then record s { block_irq = clear_bit s.block_irq flag }
        else s)
    else (false, s)

unfoldable pub exec_irq : PioInstr → StateMachine → Step
unfolding resolve_irq
exec_irq i s =
    let n = resolve_irq s.sm_id i.index in
    let s' =
      if s.irq_wait_raised
      then s
      else record s { block_irq = set_bit s.block_irq n; irq_wait_raised = i.wait } in
    if i.clear
    then go_on (record s { block_irq = clear_bit s.block_irq n })
    else if i.wait && test_bit s'.block_irq n
    then (false, s')
    else go_on (record s' { irq_wait_raised = false })

abbrev pub is_exec_inject : PioInstr → Bool
is_exec_inject i = elim i.op [
  | PioOp.out_op ↦ i.destination == 7
  | PioOp.mov ↦ i.destination == 4
  | _ ↦ false
]

-- The switch, on everything that does not inject an instruction.
unfoldable pub exec_op : PioOp → PioInstr → StateMachine → Step
unfolding exec_jmp exec_set mov_source mov_to exec_in shift_out out_to exec_push exec_pull exec_wait
    exec_irq
exec_op PioOp.jmp i s = exec_jmp i s
exec_op PioOp.set_op i s = exec_set i s
exec_op PioOp.mov i s = mov_to i (mov_source i s) s
exec_op PioOp.in_op i s = exec_in i s
exec_op PioOp.out_op i s = let (v, s') = shift_out i.bit_count s in out_to i v s'
exec_op PioOp.push i s = exec_push i s
exec_op PioOp.pull i s = exec_pull i s
exec_op PioOp.wait_op i s = exec_wait i s
exec_op PioOp.irq i s = exec_irq i s

-- What MOV moves or OUT shifts out.
unfoldable pub moved : PioInstr → StateMachine → ℕ × StateMachine
unfolding mov_source shift_out
moved i s = elim i.op [ PioOp.mov ↦ (mov_source i s, s) | _ ↦ shift_out i.bit_count s ]

-- The instruction that MOV EXEC or OUT EXEC injects, and the state it runs in.
unfoldable pub injected : PioInstr → StateMachine → PioInstr × StateMachine
unfolding moved
injected i s =
    let (v, s') = moved i s in let d = pio_decode (v % 2 ^ 16) in (d, record s' { cur = d })

-- The autopull that OUT waits for.
abbrev pub needs_autopull : PioInstr → StateMachine → Bool
needs_autopull i s = elim i.op [ PioOp.out_op ↦ s.cfg.autopull | _ ↦ false ]

-- Side-set and autopull before the switch: whether the OSR can be used, and the state.
unfoldable pub prepare : PioInstr → StateMachine → Bool × StateMachine
prepare i s0 =
    let s = if is_exec_inject i then s0 else apply_sideset s0 i in
    if needs_autopull i s then do_autopull s else (true, s)

-- `none` where the fuel runs out: injected instructions may inject further ones.
unfoldable pub exec : ℕ → PioInstr → StateMachine → Option Step
unfolding exec_op injected prepare
exec zero i s = none
exec (suc fuel) i s0 =
    let (usable, s1) = prepare i s0 in
    let (d, s2) = injected i s1 in
    let rest = exec fuel d s2 in
    if not usable
    then some (false, record s1 { stall = Stall.auto_pull })
    else if is_exec_inject i
    then rest
    else some (exec_op i.op i s1)
