-- ===== src/Pio/StateMachine/Inject.antt =====
-- Injected instructions: when `exec` returns, and when it does not.
use rp2040_simlator.Base.{
  ℕ, zero, suc, ◌%◌, ◌^◌, ◌≡◌, refl, true, false, none, some, Bool-cases, inl, inr,
}
use rp2040_simlator.Pio.Decode.{PioInstr, pio_decode}
use rp2040_simlator.Pio.StateMachine.{StateMachine, Stall}
use rp2040_simlator.Pio.StateMachine.Exec.{
  Step, exec, is_exec_inject, prepare, moved, mov_source, exec_op,
}

-- An instruction that injects nothing takes one call: `exec` returns for any fuel but 0, and more
-- fuel changes nothing.
pub exec-returns :
    (fuel : ℕ) (i : PioInstr) (s : StateMachine)
    → is_exec_inject i ≡ false
    → (step : Step) × (exec (suc fuel) i s ≡ some step) × (exec 1 i s ≡ some step)
unfolding exec
exec-returns fuel i s h = elim (Bool-cases (prepare i s).0) [
  | inl e ↦ (exec_op i.op i (prepare i s).1, rw (e, h) refl, rw (e, h) refl)
  | inr e ↦
      ((false, record ((prepare i s).1) { stall = Stall.auto_pull }), rw (e) refl, rw (e) refl)
]

-- `mov exec, x`.
abbrev pub mov_exec_x : ℕ
mov_exec_x = 0xA081

prepare-mov_exec_x : (s : StateMachine) → prepare (pio_decode mov_exec_x) s ≡ (true, s)
unfolding prepare pio_decode
prepare-mov_exec_x s = refl

injects-mov_exec_x : is_exec_inject (pio_decode mov_exec_x) ≡ true
unfolding pio_decode
injects-mov_exec_x = refl

moved-mov_exec_x : (s : StateMachine) → moved (pio_decode mov_exec_x) s ≡ (s.x, s)
unfolding moved mov_source pio_decode
moved-mov_exec_x s = refl

-- With its own encoding in X, `mov exec, x` injects itself again and again: there is no fuel with
-- which `exec` returns.
exec-mov_exec_x :
    (fuel : ℕ) (s : StateMachine)
    → s.x % 2 ^ 16 ≡ mov_exec_x
    → exec fuel (pio_decode mov_exec_x) s ≡ none
unfolding exec
exec-mov_exec_x zero s h = refl
exec-mov_exec_x (suc fuel) s h =
    rw (prepare-mov_exec_x s, injects-mov_exec_x, moved-mov_exec_x s, h)
      (exec-mov_exec_x fuel (record s { cur = pio_decode mov_exec_x }) h)

-- An instruction i that injects nothing takes one call of `exec`, and more fuel changes nothing. On a
-- machine t that holds the encoding of `mov exec, x` in X, `exec` of that instruction returns with
-- no fuel.
pub exec_lem :
    (fuel : ℕ) (i : PioInstr) (s t : StateMachine)
    → is_exec_inject i ≡ false
    → t.x % 2 ^ 16 ≡ mov_exec_x
    → ((step : Step) × (exec (suc fuel) i s ≡ some step) × (exec 1 i s ≡ some step))
      × (exec fuel (pio_decode mov_exec_x) t ≡ none)
exec_lem fuel i s t h k = (exec-returns fuel i s h, exec-mov_exec_x fuel t k)
