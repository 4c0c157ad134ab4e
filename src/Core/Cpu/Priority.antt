-- ===== src/Core/Cpu/Priority.antt =====
-- Which pending exception is taken: `highest_pending_exception` of core/cpu.cpp.
use rp2040_simlator.Base.{
  ℕ, zero, suc, ◌+◌, ◌≤◌, ◌<◌, ◌≡◌, ◌⊎◌, refl, true, ◌&&◌, arith, if◌then◌else◌, ◌==◌, inl, inr,
  Bool-cases, subst,
}
use rp2040_simlator.Base.Int.{ℤ, ◌≤ℤ◌, ◌<ℤ◌, ltb_ℤ}
use rp2040_simlator.Core.Registers.{RegisterFile}
use rp2040_simlator.Core.Cpu.{
  CoreState, priority_of, current_execution_priority, eligible, search_pending,
  highest_pending_exception,
}

module _ (c : CoreState) (r : RegisterFile) where
  -- `best_prio` of the loop: the bound it starts with, or the priority of the best so far.
  abbrev pub reached : ℕ → ℤ
  reached best = if best == 0 then current_execution_priority c r else priority_of c best

  -- Among the exceptions 2 to n - 1, `best` is the eligible one of least priority number below the
  -- current priority, the first of them in a tie, or 0 if there is none.
  pub record IsBest (n best : ℕ) : Type 0 where
    pub origin :
        (best ≡ 0)
        ⊎ ((2 ≤ best)
            × (best < n)
            × (eligible c r best ≡ true)
            × (priority_of c best <ℤ current_execution_priority c r))
    pub least : (i : ℕ) → 2 ≤ i → i < n → eligible c r i ≡ true → reached best ≤ℤ priority_of c i
    pub first : (i : ℕ) → 2 ≤ i → i < best → eligible c r i ≡ true → reached best <ℤ priority_of c i

  take_it :
      (e best : ℕ)
      → 2 ≤ e
      → IsBest e best
      → eligible c r e ≡ true
      → priority_of c e <ℤ reached best
      → IsBest (e + 1) e
  take_it e best l b h k = record {
    origin = inr (l, omega arith, h, ground (arith, b.origin));
    least = λ i li hi ei. ground (arith, b.least i li, ei);
    first = λ i li hi ei. ground (arith, b.least i li hi ei);
  }

  leave_it :
      (e best : ℕ)
      → 2 ≤ e
      → IsBest e best
      → (eligible c r e ≡ true → reached best ≤ℤ priority_of c e)
      → IsBest (e + 1) best
  leave_it e best l b h = record {
    origin = ground (arith, b.origin);
    least = λ i li hi ei. ground (arith, b.least i li, ei, h);
    first = b.first;
  }

  search_pending-IsBest :
      (left e best n : ℕ) (best_prio : ℤ)
      → 2 ≤ e
      → e + left ≡ n
      → best_prio ≡ reached best
      → IsBest e best
      → IsBest n (search_pending c r left e best best_prio)
  unfolding search_pending
  search_pending-IsBest zero e best n best_prio l m q b = subst (λ k. IsBest k best) (omega arith) b
  search_pending-IsBest (suc left) e best n best_prio l m q b =
      elim (Bool-cases (eligible c r e && ltb_ℤ (priority_of c e) best_prio)) [
        | inl h ↦ rw (h) (
            search_pending-IsBest left (e + 1) e n (priority_of c e) (omega arith) (omega arith)
              (ground arith) (take_it e best l b (ground (arith, h)) (ground (arith, h, q))))
        | inr h ↦ rw (h) (
            search_pending-IsBest left (e + 1) best n best_prio (omega arith) (omega arith) q
              (leave_it e best l b (λ k. ground (arith, h, k, q))))
      ]

  -- The exception that is taken next is eligible (pending, enabled if it is an external
  -- interrupt, and not masked by PRIMASK), below the current execution priority, of least priority
  -- number among the eligible ones from 2 to 41, and the lowest-numbered of those; it is 0 exactly
  -- when no eligible exception is below the current priority.
  pub highest_pending_exception-IsBest : IsBest 42 (highest_pending_exception c r)
  unfolding highest_pending_exception
  highest_pending_exception-IsBest =
      search_pending-IsBest 40 2 0 42 _ (omega arith) refl refl record {
        origin = inl refl;
        least = λ i li hi ei. absurd (omega arith);
        first = λ i li hi ei. absurd (omega arith);
      }
