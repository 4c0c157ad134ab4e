-- ===== src/Core/Interrupts.antt =====
-- The interrupt lines from a peripheral to the cores: core/interrupt_controller.h.
pub mod Lines
use rp2040_simlator.Base.{
  ℕ, ◌+◌, ◌<◌, Bool, true, false, List, [], ◌∷◌, ◌++◌, ltb, ◌==◌, if◌then◌else◌, length,
}
use rp2040_simlator.Core.Cpu.{CoreState, pend_exception, clear_pending}

-- The cores by their numbers, in the order in which they were connected.
pub record InterruptController : Type 0 where
  pub cores : List ℕ

abbrev pub mem_core : ℕ → List ℕ → Bool
mem_core c [] = false
mem_core c (k ∷ ks) = if c == k then true else mem_core c ks

-- Connecting a core again changes nothing, and so does a third one.
unfoldable pub connect : InterruptController → ℕ → InterruptController
connect ic core =
    if mem_core core ic.cores
    then ic
    else if ltb (length ic.cores) 2
    then record { cores = ic.cores ++ (core ∷ []) }
    else ic

-- The exception state of every core, by its number.
abbrev pub Cores : Type 0
Cores = ℕ → CoreState

abbrev pub at_core : (CoreState → CoreState) → ℕ → Cores → Cores
at_core f c cs k = if k == c then f (cs k) else cs k

unfoldable pub pend_all : List ℕ → ℕ → Cores → Cores
pend_all [] exc cs = cs
pend_all (c ∷ ks) exc cs = pend_all ks exc (at_core (λ s. pend_exception s exc) c cs)

unfoldable pub clear_all : List ℕ → ℕ → Cores → Cores
clear_all [] exc cs = cs
clear_all (c ∷ ks) exc cs = clear_all ks exc (at_core (λ s. clear_pending s exc) c cs)
