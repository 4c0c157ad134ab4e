-- ===== src/Peripherals/IoBank/Edges.antt =====
-- The raw interrupt bits of a pin after a poll.
use rp2040_simlator.Base.{ℕ, ◌+◌, ◌*◌, Bool, not, ◌&&◌, ◌||◌, ◌==◌, if◌then◌else◌, test_bit}
use rp2040_simlator.Base.Bits.{set_bit}
use rp2040_simlator.Peripherals.Gpio.{Gpio}

-- What a poll raises at bit c of a pin.
abbrev raised : ℕ → ℕ → ℕ → ℕ → ℕ → Bool
raised levels rising falling pin c =
    if c == 0
    then not (test_bit levels pin)
    else if c == 1
    then test_bit levels pin
    else if c == 2
    then test_bit falling pin
    else test_bit rising pin

-- The three writes of `poll_pin`, for the bits that decide them.
abbrev marked : ℕ → ℕ → Bool → Bool → Bool → ℕ
marked i v high up down =
    let v1 = set_bit v (i * 4 + (if high then 1 else 0)) in
    let v2 = if up then set_bit v1 (i * 4 + 3) else v1 in
    if down then set_bit v2 (i * 4 + 2) else v2

-- What bit c of a pin shows after a poll: the level bits the level of now, and the edge bits
-- whether they were set, or the level differs from that of the last poll.
abbrev pub shown : ℕ → Bool → Bool → Bool → Bool → Bool
shown c old primed prev high =
    if c == 0
    then not high
    else if c == 1
    then high
    else if c == 2
    then old || (primed && prev && not high)
    else old || (primed && high && not prev)
