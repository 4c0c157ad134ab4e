-- ===== src/Core/Interrupts/Lines.antt =====
-- What the cores see of a line that a peripheral raises or lowers.
use rp2040_simlator.Base.{ℕ, ◌≡◌, not, ◌&&◌, ◌||◌, arith, List, [], ◌∷◌, ◌==◌}
use rp2040_simlator.Base.Bits.{test_bit-set_bit, test_bit-clear_bit}
use rp2040_simlator.Core.Cpu.{CoreState, pend_exception, clear_pending, is_pending}
use rp2040_simlator.Core.Interrupts.{mem_core, Cores, at_core, pend_all, clear_all}

pub is_pending-pend_exception :
    (c : CoreState) (exc e : ℕ) → is_pending (pend_exception c exc) e ≡ (e == exc || is_pending c e)
unfolding is_pending pend_exception
is_pending-pend_exception c exc e = test_bit-set_bit c.pending exc e

pub is_pending-clear_pending :
    (c : CoreState) (exc e : ℕ)
    → is_pending (clear_pending c exc) e ≡ (not (e == exc) && is_pending c e)
unfolding is_pending clear_pending
is_pending-clear_pending c exc e = test_bit-clear_bit c.pending exc e

-- After a line is raised, the exception is pending on exactly the cores that are connected, besides
-- those where it was pending before; every other exception is as it was.
pub is_pending-pend_all :
    (ks : List ℕ) (exc e k : ℕ) (cs : Cores)
    → is_pending (pend_all ks exc cs k) e ≡ (e == exc && mem_core k ks || is_pending (cs k) e)
unfolding pend_all
is_pending-pend_all [] exc e k cs = ground arith
is_pending-pend_all (c ∷ ks) exc e k cs = ground (
  arith,
  is_pending-pend_all ks exc e k (at_core (λ s. pend_exception s exc) c cs),
  is_pending-pend_exception (cs k) exc e,
)

pub is_pending-clear_all :
    (ks : List ℕ) (exc e k : ℕ) (cs : Cores)
    → is_pending (clear_all ks exc cs k) e
      ≡ (not (e == exc && mem_core k ks) && is_pending (cs k) e)
unfolding clear_all
is_pending-clear_all [] exc e k cs = ground arith
is_pending-clear_all (c ∷ ks) exc e k cs = ground (
  arith,
  is_pending-clear_all ks exc e k (at_core (λ s. clear_pending s exc) c cs),
  is_pending-clear_pending (cs k) exc e,
)
