-- ===== src/Pio/Fifo/Queue.antt =====
-- The FIFO against its abstract specification: a bounded queue.
use rp2040_simlator.Base.{
  ℕ, zero, suc, ◌+◌, ◌-◌, ◌%◌, ◌≤◌, ◌<◌, ◌≡◌, ◌≢◌, ◌⊎◌, refl, sym, ◌∙◌, ap, Bool, true, false,
  arith, List, [], ◌∷◌, ◌++◌, ◌==◌, if◌then◌else◌, get_or, set, length, length-set, get_or-set_self,
  get_or-set_ne, inl, inr, Option, none, some, Bool-cases,
}
use rp2040_simlator.Pio.Fifo.{
  PioFifo, fresh, full, empty, push, pop, peek, k_default_depth, k_joined_depth,
}

-- The specification: a list with a capacity, the front first.
pub push_queue : ℕ → List ℕ → ℕ → Bool × List ℕ
push_queue capacity q v = if length q == capacity then (false, q) else (true, q ++ (v ∷ []))

pub pop_queue : List ℕ → Option ℕ × List ℕ
pop_queue [] = (none, [])
pop_queue (x ∷ q) = (some x, q)

-- `n` words of a ring of depth `d` from slot `h` on.
pub window : List ℕ → ℕ → ℕ → ℕ → List ℕ
window buf d h zero = []
window buf d h (suc n) = get_or buf h 0 ∷ window buf d ((h + 1) % d) n

-- The words that a FIFO holds, the front first.
pub contents : PioFifo → List ℕ
unfolding window
contents f = window f.buf f.depth f.head f.count

-- The depth is one of the two of a FIFO that is not disabled by the joining of the other.
pub record IsValid (f : PioFifo) : Type 0 where
  pub slots : length f.buf ≡ k_joined_depth
  pub depths : (f.depth ≡ k_default_depth) ⊎ (f.depth ≡ k_joined_depth)
  pub head_inside : f.head < f.depth
  pub bounded : f.count ≤ f.depth

length-window : (buf : List ℕ) (d h n : ℕ) → length (window buf d h n) ≡ n
unfolding window
length-window buf d h zero = refl
length-window buf d h (suc n) = ap suc (length-window buf d ((h + 1) % d) n)

-- One slot on, the distance is one less.
ring_next :
    (d h n : ℕ)
    → (d ≡ k_default_depth) ⊎ (d ≡ k_joined_depth)
    → ((h + 1) % d + n) % d ≡ (h + suc n) % d
ring_next d h n (inl e) = rw (e) (omega arith)
ring_next d h n (inr e) = rw (e) (omega arith)

ring_apart :
    (d h n : ℕ)
    → (d ≡ k_default_depth) ⊎ (d ≡ k_joined_depth)
    → h < d
    → suc n < d
    → (h + suc n) % d ≢ h
ring_apart d h n (inl e) l k q = omega (arith, ap (λ x. (h + suc n) % x) e)
ring_apart d h n (inr e) l k q = omega (arith, ap (λ x. (h + suc n) % x) e)

ring_inside : (d h : ℕ) → (d ≡ k_default_depth) ⊎ (d ≡ k_joined_depth) → (h % d < d) × (h % d < 8)
ring_inside d h (inl e) = rw (e) (omega arith, omega arith)
ring_inside d h (inr e) = rw (e) (omega arith, omega arith)

-- Writing the slot behind the window appends the word to it.
window-append :
    (buf : List ℕ) (d h n v : ℕ)
    → (d ≡ k_default_depth) ⊎ (d ≡ k_joined_depth)
    → length buf ≡ k_joined_depth
    → h < d
    → n < d
    → window (set buf ((h + n) % d) v) d h (suc n) ≡ window buf d h n ++ (v ∷ [])
unfolding window
window-append buf d h zero v a l b c =
    ap (λ x. x ∷ [])
      (ap (λ k. get_or (set buf k v) h 0) (same a) ∙ get_or-set_self buf h v 0 (small a))
  where
    same : (d ≡ 4) ⊎ (d ≡ 8) → (h + 0) % d ≡ h
    same (inl e) = omega (arith, ap (λ x. (h + 0) % x) e)
    same (inr e) = omega (arith, ap (λ x. (h + 0) % x) e)

    small : (d ≡ 4) ⊎ (d ≡ 8) → h < length buf
    small (inl e) = omega arith
    small (inr e) = omega arith
window-append buf d h (suc n) v a l b c =
    rw (get_or-set_ne buf ((h + suc n) % d) h v 0 (ring_apart d h n a b c)) (
      ap (λ xs. get_or buf h 0 ∷ xs)
        (ap (λ k. window (set buf k v) d ((h + 1) % d) (suc n)) (sym (ring_next d h n a))
          ∙ window-append buf d ((h + 1) % d) n v a l (ring_inside d (h + 1) a).0 (omega arith)))

-- The FIFO of a new state machine is valid and empty.
pub fresh-IsValid : IsValid fresh × (contents fresh ≡ [])
unfolding fresh contents
fresh-IsValid = (
  record { slots = refl; depths = inl refl; head_inside = omega arith; bounded = omega arith },
  refl,
)

-- A push into a valid FIFO gives the result and the contents that the bounded queue gives, and
-- leaves the FIFO valid.
pub push-queue :
    (f : PioFifo) (v : ℕ)
    → IsValid f
    → let (ok, f') = push f v in
      ((ok, contents f') ≡ push_queue f.depth (contents f) v) × IsValid f'
unfolding push contents push_queue full
push-queue f v h =
    rw (length-window f.buf f.depth f.head f.count) (elim (Bool-cases (f.count == f.depth)) [
      | inl e ↦ rw (e) (refl, h)
      | inr e ↦ rw (e) (
        ap (λ q. (true, q))
            (ap (window (set f.buf ((f.head + f.count) % f.depth) v) f.depth f.head) (next_count e)
              ∙ window-append f.buf f.depth f.head f.count v h.depths h.slots h.head_inside
                  (room e)),
        record {
          slots = length-set f.buf ((f.head + f.count) % f.depth) v ∙ h.slots;
          depths = h.depths;
          head_inside = h.head_inside;
          bounded = room_le e;
        },
      )
    ])
  where
    next_count : (f.count == f.depth) ≡ false → f.count + 1 ≡ suc f.count
    next_count e = omega arith

    room : (f.count == f.depth) ≡ false → f.count < f.depth
    room e = ground (arith, h.bounded)

    room_le : (f.count == f.depth) ≡ false → f.count + 1 ≤ f.depth
    room_le e = ground (arith, h.bounded)

abbrev fields : List ℕ → ℕ → ℕ → ℕ → PioFifo
fields b h n d = record { buf = b; head = h; count = n; depth = d }

pop-fields :
    (buf : List ℕ) (head count depth : ℕ)
    → let f = fields buf head count depth in
      IsValid f
      → let (out, f') = pop f in
        ((out, contents f') ≡ pop_queue (contents f))
        × IsValid f'
        × (peek f ≡ (elim out [ some x ↦ x | none ↦ 0 ]))
unfolding pop contents pop_queue empty peek window
pop-fields buf head zero depth h = (refl, h, refl)
pop-fields buf head (suc n) depth h = rw (held n) (
  ap (λ k. (some (get_or buf head 0), window buf depth ((head + 1) % depth) k)) (one_less n),
  record {
    slots = h.slots;
    depths = h.depths;
    head_inside = (ring_inside depth (head + 1) h.depths).0;
    bounded = omega (arith, h.bounded);
  },
  refl,
)
  where
    held : (n : ℕ) → (suc n == 0) ≡ false
    held n = ground arith

    one_less : (n : ℕ) → suc n - 1 ≡ n
    one_less n = omega arith

-- A queue that takes no word keeps what it holds.
pub push_queue_refused :
    (d : ℕ) (q : List ℕ) (v : ℕ) → (push_queue d q v).0 ≡ false → (push_queue d q v).1 ≡ q
unfolding push_queue
push_queue_refused d q v e = elim (Bool-cases (length q == d)) [
  | inl full ↦ rw (full) refl
  | inr room ↦ absurd (ground (arith, e, room))
]

-- A pop from a valid FIFO gives the word and the contents that the queue gives, and leaves the FIFO
-- valid; `peek` is the same word, or 0.
pub pop-queue :
    (f : PioFifo)
    → IsValid f
    → let (out, f') = pop f in
      ((out, contents f') ≡ pop_queue (contents f))
      × IsValid f'
      × (peek f ≡ (elim out [ some x ↦ x | none ↦ 0 ]))
pop-queue f h = pop-fields f.buf f.head f.count f.depth h
