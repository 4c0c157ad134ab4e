-- ===== src/Core/Memory/Routing.antt =====
-- Peripheral routing: `attach_peripheral` keeps the mappings apart, so that at most one of them
-- answers an address, whatever the order in which they were attached.
use rp2040_simlator.Base.{
  ℕ, ◌+◌, ◌^◌, ◌≤◌, ◌<◌, ◌≡◌, ◌⊎◌, Bool, true, false, arith, not, ◌&&◌, none, some, ltb, ◌==◌,
  if_intro, inl, inr, Option, List, [], ◌∷◌, ◌++◌, All, u32,
}
use rp2040_simlator.Core.Memory.{
  Memory, Region, PeripheralMapping, contains_span, k_register_space, k_sio, k_ppb, find_mapping,
}
use rp2040_simlator.Core.Memory.Attach.{overlaps_any, attach_peripheral}

abbrev pub last : Region → ℕ
last r = r.base + r.size

-- The mapping lies in one of the three windows of the decoder.
abbrev pub InWindow : PeripheralMapping → Type 0
InWindow m =
    (0 < m.region.size)
    × ((contains_span k_register_space m.region.base m.region.size ≡ true)
        ⊎ (contains_span k_sio m.region.base m.region.size ≡ true)
        ⊎ (contains_span k_ppb m.region.base m.region.size ≡ true))

abbrev pub Apart : PeripheralMapping → PeripheralMapping → Type 0
Apart m k = (last m.region ≤ k.region.base) ⊎ (last k.region ≤ m.region.base)

-- Every mapping is in a window and apart from those after it.
abbrev pub AllApart : List PeripheralMapping → Type 0
AllApart [] = Unit
AllApart (m ∷ ms) = InWindow m × All (Apart m) ms × AllApart ms

InWindow-lt : (m : PeripheralMapping) → InWindow m → last m.region < 2 ^ 32
InWindow-lt m h = ground arith

All-snoc :
    (m k : PeripheralMapping) (ms : List PeripheralMapping)
    → All (Apart m) ms
    → Apart m k
    → All (Apart m) (ms ++ (k ∷ []))
All-snoc m k [] h a = (a, tt)
All-snoc m k (x ∷ ms) h a = (h.0, All-snoc m k ms h.1 a)

AllApart-snoc :
    (ms : List PeripheralMapping) (k : PeripheralMapping)
    → AllApart ms
    → InWindow k
    → overlaps_any ms k.region.base k.region.size ≡ false
    → AllApart (ms ++ (k ∷ []))
unfolding overlaps_any
AllApart-snoc [] k h w o = (w, tt, tt)
AllApart-snoc (m ∷ ms) k h w o =
    (h.0, All-snoc m k ms h.1 apart, AllApart-snoc ms k h.2 w (ground arith))
  where
    apart : Apart m k
    apart = ground (arith, InWindow-lt m h.0, InWindow-lt k w)

-- Attaching a peripheral keeps every mapping inside a window of the decoder and apart from all
-- others, whether the call is accepted or refused.
attach_peripheral-AllApart :
    (m : Memory) (base size : ℕ) (p : Option ℕ)
    → AllApart m.peripherals
    → AllApart (attach_peripheral m base size p).1.peripherals
unfolding attach_peripheral
attach_peripheral-AllApart m base size none h = h
attach_peripheral-AllApart m base size (some p) h =
    if_intro Good (size == 0) _ _ (λ _. h)
      λ nonempty.
        if_intro Good (ltb (u32 (base + size)) base) _ _ (λ _. h)
          λ no_wrap.
            if_intro Good outside _ _ (λ _. h)
              λ inside.
                if_intro Good (overlaps_any m.peripherals base size) _ _ (λ _. h)
                  λ free. AllApart-snoc m.peripherals added h (ground arith, ground arith) free
  where
    Good : Bool × Memory → Type 0
    Good r = AllApart r.1.peripherals

    outside : Bool
    outside =
        not (contains_span k_register_space base size)
        && (not (contains_span k_sio base size) && not (contains_span k_ppb base size))

    added : PeripheralMapping
    added = record { region = record { base = base; size = size }; peripheral = p }

abbrev pub Listed : PeripheralMapping → List PeripheralMapping → Type 0
Listed k [] = ⊥
Listed k (m ∷ ms) = (k ≡ m) ⊎ Listed k ms

Apart-Listed :
    (m k : PeripheralMapping) (ms : List PeripheralMapping)
    → All (Apart m) ms
    → Listed k ms
    → Apart m k
Apart-Listed m k [] h l = elim l [ ]
Apart-Listed m k (x ∷ ms) h (inl e) = rw e h.0
Apart-Listed m k (x ∷ ms) h (inr l) = Apart-Listed m k ms h.1 l

-- An access that some attached mapping contains is routed to that mapping, wherever it stands in
-- the list: no other mapping contains any part of it.
find_mapping_complete :
    (ms : List PeripheralMapping) (k : PeripheralMapping) (addr n : ℕ)
    → AllApart ms
    → Listed k ms
    → 0 < n
    → contains_span k.region addr n ≡ true
    → find_mapping ms addr n ≡ some k
unfolding find_mapping
find_mapping_complete [] k addr n h l pos c = elim l [ ]
find_mapping_complete (m ∷ ms) k addr n h (inl e) pos c = rw (← e, c)
find_mapping_complete (m ∷ ms) k addr n h (inr l) pos c =
    rw elsewhere (find_mapping_complete ms k addr n h.2 l pos c)
  where
    elsewhere : contains_span m.region addr n ≡ false
    elsewhere = ground (arith, Apart-Listed m k ms h.1 l)

-- When every mapping lies inside a window of the decoder and apart from all others, that is so after
-- a peripheral is attached too, whether the call is accepted or refused; and then an access that
-- some mapping contains is routed to that mapping, wherever it stands in the list.
pub attach_peripheral-routes :
    (m : Memory) (base size : ℕ) (p : Option ℕ) (k : PeripheralMapping) (addr n : ℕ)
    → AllApart m.peripherals
    → Listed k (attach_peripheral m base size p).1.peripherals
    → 0 < n
    → contains_span k.region addr n ≡ true
    → let ms = (attach_peripheral m base size p).1.peripherals in
      AllApart ms × (find_mapping ms addr n ≡ some k)
attach_peripheral-routes m base size p k addr n h l pos c =
    let apart = attach_peripheral-AllApart m base size p h in
    (
      apart,
      find_mapping_complete (attach_peripheral m base size p).1.peripherals k addr n apart l pos c,
    )
