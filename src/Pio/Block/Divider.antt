-- ===== src/Pio/Block/Divider.antt =====
-- The fractional clock divider of a PIO block: at which clocks a state machine is stepped.
use native.Mathlib.Nat.{mod-lt, zero-div, zero-mod}
use rp2040_simlator.Base.{
  ℕ, zero, suc, ◌+◌, ◌*◌, ◌/◌, ◌%◌, ◌^◌, ◌≤◌, ◌<◌, ◌≡◌, refl, sym, ◌∙◌, ap, ap₂, arith, of_bool,
  Bool, true, false, not, List, [], ◌∷◌, Option, none, some, ◌==◌, leb, if◌then◌else◌, u64,
  Bool-cases, inl, inr,
}
use rp2040_simlator.Base.Rates.{rest_of, rest_of-last}
use rp2040_simlator.Peripherals.Gpio.{Gpio}
use rp2040_simlator.Pio.Block.{Lane, set_clkdiv, divide, tick_lane, ◌>>=◌}
use rp2040_simlator.Pio.StateMachine.{StateMachine}
use rp2040_simlator.Pio.StateMachine.Tick.{TickOutcome, no_outcome, tick}

-- What a lane is lent at a clock.
pub record Lent : Type 0 where
  pub fuel : ℕ
  pub program : List ℕ
  pub gpio : Gpio
  pub irq : ℕ

-- A lane at one clock after the other.
abbrev pub tick_all : List Lent → Lane → Option Lane
tick_all [] l = some l
tick_all (e ∷ es) l = tick_lane e.fuel e.program e.gpio e.irq l >>= tick_all es

-- Whether clock j of a divider of d / 256 is one of the divided clock.
abbrev pub is_divided : ℕ → ℕ → Bool
is_divided d j = not ((256 * j + 256) / d == 256 * j / d)

-- How many of the clocks before j are.
abbrev pub divided : ℕ → ℕ → ℕ
divided d zero = 0
divided d (suc j) = divided d j + of_bool (is_divided d j)

abbrev pub lend : Lent → Lane → Lane
lend e l = record l {
  sm = record (l.sm) { gpio = e.gpio; block_irq = e.irq };
  last_outcome = no_outcome;
}

-- A step of the machine of a lane.
abbrev pub stepped : Lane → Option (TickOutcome × StateMachine) → Option Lane
stepped l none = none
stepped l (some (o, s)) = some (record l {
  sm = s;
  last_outcome = o;
  instr_retired = if o.executed then u64 (l.instr_retired + 1) else l.instr_retired;
})

-- Clock j of the divider, at which the machine is stepped if it is a divided one.
abbrev pub clock_of : ℕ → ℕ → Lent → Lane → Option Lane
clock_of d j e l =
    let l' = record (lend e l) { clkacc = (256 * j + 256) % d } in
    if is_divided d j then stepped l' (tick e.fuel e.program l'.sm) else some l'

-- The clocks from number j on; only those at which the machine is enabled are counted.
abbrev pub divided_run : ℕ → ℕ → List Lent → Lane → Option Lane
divided_run d j [] l = some l
divided_run d j (e ∷ es) l =
    if l.sm.enabled
    then clock_of d j e l >>= divided_run d (suc j) es
    else divided_run d j es (lend e l)

-- A divider that `set_clkdiv` can write.
abbrev IsDivider : ℕ → Type 0
IsDivider d = (256 ≤ d) × (d ≤ 2 ^ 24 + 255)

-- A lane whose divider stands before clock j.
abbrev At : ℕ → ℕ → Lane → Type 0
At d j l = (l.clkdiv ≡ d) × (l.clkacc ≡ 256 * j % d)

divide-rest_of :
    (d a q : ℕ)
    → a < d
    → IsDivider d
    → divide d a ≡ (not (q + of_bool (leb d (a + 256)) == q), rest_of d 256 a)
unfolding divide
divide-rest_of d a q lt (lo, hi) = ground (arith, lt, lo, hi)

divide_lem :
    (d j : ℕ) → IsDivider d → divide d (256 * j % d) ≡ (is_divided d j, (256 * j + 256) % d)
divide_lem d j h =
    let (q, r) = rest_of-last d 256 (256 * j) pos h.0 in
    divide-rest_of d (256 * j % d) (256 * j / d) (mod-lt (256 * j) pos) h ∙ rw (q, r) refl
  where
    pos : 0 < d
    pos = omega (arith, h.0)

if_true : {A : Type 0} (x y : A) (b : Bool) → b ≡ true → (if b then x else y) ≡ x
if_true x y b p = rw p refl

if_false : {A : Type 0} (x y : A) (b : Bool) → b ≡ false → (if b then x else y) ≡ y
if_false x y b p = rw p refl

-- A machine that is not enabled.
tick_lane_idle :
    (e : Lent) (l : Lane)
    → l.sm.enabled ≡ false
    → tick_lane e.fuel e.program e.gpio e.irq l ≡ some (lend e l)
unfolding tick_lane
tick_lane_idle e l off = rw off refl

-- A machine that is enabled, with what `divide` says of the clock.
abbrev clocked : Bool → ℕ → Lent → Lane → Option Lane
clocked due acc e l =
    let l' = record (lend e l) { clkacc = acc } in
    if due then stepped l' (tick e.fuel e.program l'.sm) else some l'

tick_lane-clocked :
    (e : Lent) (l : Lane)
    → l.sm.enabled ≡ true
    → tick_lane e.fuel e.program e.gpio e.irq l
      ≡ (let (due, acc) = divide l.clkdiv l.clkacc in clocked due acc e l)
unfolding tick_lane
tick_lane-clocked e l on =
    if_true _ (some (lend e l)) l.sm.enabled on
    ∙ ap
        (λ x.
          if (divide l.clkdiv l.clkacc).0
          then x
          else some (record (lend e l) { clkacc = (divide l.clkdiv l.clkacc).1 }))
        (same_steps (divide l.clkdiv l.clkacc).1 (tick e.fuel e.program (lend e l).sm))
  where
    same_steps :
        (acc : ℕ) (r : Option (TickOutcome × StateMachine))
        → (elim r [
          | some (o, s) ↦ some (record (lend e l) {
            sm = s;
            clkacc = acc;
            last_outcome = o;
            instr_retired = if o.executed then u64 (l.instr_retired + 1) else l.instr_retired;
          })
          | none ↦ none
        ])
          ≡ stepped (record (lend e l) { clkacc = acc }) r
    same_steps acc none = refl
    same_steps acc (some (o, s)) = refl

tick_lane-clock_of :
    (d j : ℕ) (e : Lent) (l : Lane)
    → IsDivider d
    → At d j l
    → l.sm.enabled ≡ true
    → tick_lane e.fuel e.program e.gpio e.irq l ≡ clock_of d j e l
tick_lane-clock_of d j e l h (div, acc) on =
    tick_lane-clocked e l on ∙ ap (λ x. clocked x.0 x.1 e l) (ap₂ divide div acc ∙ divide_lem d j h)

-- What every lane that a run may leave satisfies.
abbrev All : (Lane → Type 0) → Option Lane → Type 0
All p none = Unit
All p (some l) = p l

bind-All :
    (p : Lane → Type 0) (o : Option Lane) (f g : Lane → Option Lane)
    → All p o
    → ((l : Lane) → p l → f l ≡ g l)
    → o >>= f ≡ o >>= g
bind-All p none f g h same = refl
bind-All p (some l) f g h same = same l h

stepped-All :
    (d a : ℕ) (l : Lane) (r : Option (TickOutcome × StateMachine))
    → l.clkdiv ≡ d
    → l.clkacc ≡ a
    → All (λ x. (x.clkdiv ≡ d) × (x.clkacc ≡ a)) (stepped l r)
stepped-All d a l none p q = tt
stepped-All d a l (some (o, s)) p q = (p, q)

clock_of-At : (d j : ℕ) (e : Lent) (l : Lane) → At d j l → All (At d (suc j)) (clock_of d j e l)
clock_of-At d j e l (div, acc) = elim (Bool-cases (is_divided d j)) [
  | inl p ↦ rw p (
      stepped-All d (256 * suc j % d) (next (lend e l)) (tick e.fuel e.program (lend e l).sm) div
        (after j))
  | inr p ↦ rw p (div, after j)
]
  where
    next : Lane → Lane
    next l = record l { clkacc = (256 * j + 256) % d }

    after : (j : ℕ) → (256 * j + 256) % d ≡ 256 * suc j % d
    after j = ap (λ x. x % d) (omega arith)

tick_all-divided_run :
    (es : List Lent) (d j : ℕ) (l : Lane)
    → IsDivider d
    → At d j l
    → tick_all es l ≡ divided_run d j es l
tick_all-divided_run [] d j l h here = refl
tick_all-divided_run (e ∷ es) d j l h here = elim (Bool-cases l.sm.enabled) [
  | inl on ↦
      ap (λ o. o >>= tick_all es) (tick_lane-clock_of d j e l h here on)
      ∙ bind-All (At d (suc j)) (clock_of d j e l) (tick_all es) (divided_run d (suc j) es)
          (clock_of-At d j e l here) (λ l'. tick_all-divided_run es d (suc j) l' h)
      ∙ sym (
          if_true (clock_of d j e l >>= divided_run d (suc j) es) (divided_run d j es (lend e l))
            l.sm.enabled on)
  | inr off ↦
      ap (λ o. o >>= tick_all es) (tick_lane_idle e l off)
      ∙ tick_all-divided_run es d j (lend e l) h here
      ∙ sym (
          if_false (clock_of d j e l >>= divided_run d (suc j) es) (divided_run d j es (lend e l))
            l.sm.enabled off)
]

-- The divided clocks among the first n.
divided_lem : (d n : ℕ) → IsDivider d → divided d n ≡ 256 * n / d
divided_lem d zero h = sym (zero-div d)
divided_lem d (suc j) h =
    let (q, r) = rest_of-last d 256 (256 * j) (omega (arith, h.0)) h.0 in
    ap (λ x. x + of_bool (is_divided d j)) (divided_lem d j h)
    ∙ one_more (256 * j / d) (leb d (256 * j % d + 256)) ((256 * j + 256) / d) q
    ∙ ap (λ x. x / d) (all j)
  where
    one_more : (a : ℕ) (b : Bool) (c : ℕ) → c ≡ a + of_bool b → a + of_bool (not (c == a)) ≡ c
    one_more a true c p = ground (arith, p)
    one_more a false c p = ground (arith, p)

    all : (j : ℕ) → 256 * j + 256 ≡ 256 * suc j
    all j = omega arith

-- A 16-bit integer part and an 8-bit fraction give the divider that they say, with 65536 for the
-- integer part 0. From then on, for a machine that sees any programs, pins and flags, every run of
-- the lane over a list of clocks is the one in which clock j of those at which the machine is
-- enabled steps it if and only if the divider fits more often into 256 (j + 1) than into 256 j, and
-- the accumulator is then 256 (j + 1) modulo the divider. Of the first n such clocks, 256 n divided
-- by the divider, rounded down, are so.
pub set_clkdiv-tick_lane :
    (l : Lane) (int_part frac : ℕ) (es : List Lent)
    → int_part < 2 ^ 16
    → frac < 2 ^ 8
    → let d = 256 * (if int_part == 0 then 2 ^ 16 else int_part) + frac in
      let l' = set_clkdiv l int_part frac in
      (l'.clkdiv ≡ d)
      × (tick_all es l' ≡ divided_run d 0 es l')
      × ((n : ℕ) → divided d n ≡ 256 * n / d)
unfolding set_clkdiv
set_clkdiv-tick_lane l int_part frac es h k =
    let d = 256 * (if int_part == 0 then 2 ^ 16 else int_part) + frac in
    (
      same,
      tick_all-divided_run es d 0 (set_clkdiv l int_part frac) in_range (same, sym (zero-mod d)),
      λ n. divided_lem d n in_range,
    )
  where
    same :
        (if int_part == 0 then 65536 else int_part) * 256 + frac
        ≡ 256 * (if int_part == 0 then 2 ^ 16 else int_part) + frac
    same = ground arith

    in_range : IsDivider (256 * (if int_part == 0 then 2 ^ 16 else int_part) + frac)
    in_range = ground (arith, h, k)
