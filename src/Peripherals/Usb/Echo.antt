-- ===== src/Peripherals/Usb/Echo.antt =====
-- What the virtual host gets back from a device that returns what it was sent.
use rp2040_simlator.Base.{
  ℕ, zero, suc, ◌+◌, ◌*◌, ◌%◌, ◌^◌, ◌≤◌, ◌<◌, ◌≡◌, refl, sym, ◌∙◌, ap, true, List, [], ◌∷◌, length,
  take, get_or, min, test_bit, inr, arith, lt→ltb, subst, u8, ◌>>>◌,
}
use rp2040_simlator.Base.Bits.{set_bit}
use rp2040_simlator.Core.Bus.{BusWidth}
use rp2040_simlator.Core.Memory.{update}
use rp2040_simlator.Core.Memory.Scalar.{assemble, scatter}
use rp2040_simlator.Core.Memory.Access.{
  IsBytes, assemble_value, scatter_value, scatter-IsBytes, scatter_outside,
}
use rp2040_simlator.Peripherals.Usb.{
  UsbCtrl, k_dpram_size, k_ep0_buf, k_ep0_in_bc, k_ep0_out_bc, k_trans_complete, dpram_rd,
  dpram_rd_from, dpram_wr, dpram_wr_from, copy_in, copy_out, refresh_irq, host_in_ep0, host_out_ep0,
  bus_write,
}

-- Inside the DPRAM its loops are those of the memory.
dpram_rd_from-assemble :
    (p : ℕ → ℕ) (off left i v : ℕ)
    → off + i + left ≤ k_dpram_size
    → dpram_rd_from p off left i v ≡ assemble p off left i v
unfolding dpram_rd_from assemble
dpram_rd_from-assemble p off zero i v h = refl
dpram_rd_from-assemble p off (suc left) i v h =
    rw (lt→ltb (off + i) k_dpram_size (omega (arith, h)))
      (dpram_rd_from-assemble p off left (i + 1) _ (omega (arith, h)))

dpram_wr_from-scatter :
    (p : ℕ → ℕ) (off left i v : ℕ)
    → off + i + left ≤ k_dpram_size
    → dpram_wr_from p off left i v ≡ scatter p off left i v
unfolding dpram_wr_from scatter
dpram_wr_from-scatter p off zero i v h = refl
dpram_wr_from-scatter p off (suc left) i v h =
    rw (lt→ltb (off + i) k_dpram_size (omega (arith, h))) (
      dpram_wr_from-scatter (update p (off + i) (u8 (v >>> (8 * i)))) off left (i + 1) v
        (omega (arith, h)))

-- A word that is written reads back, and the bytes beside it stay.
module _ (p : ℕ → ℕ) (off v : ℕ) (inside : off + 4 ≤ k_dpram_size) where
  dpram_wr_lem : dpram_wr p off v 4 ≡ scatter p off 4 0 v
  unfolding dpram_wr
  dpram_wr_lem = dpram_wr_from-scatter p off 4 0 v (omega (arith, inside))

  dpram_rd-dpram_wr : IsBytes p → v < 2 ^ 32 → dpram_rd (dpram_wr p off v 4) off ≡ v
  unfolding dpram_rd
  dpram_rd-dpram_wr h small =
      ap (λ q. dpram_rd_from q off 4 0 0) dpram_wr_lem
      ∙ dpram_rd_from-assemble (scatter p off 4 0 v) off 4 0 0 (omega (arith, inside))
      ∙ assemble_value (scatter p off 4 0 v) off BusWidth.word (scatter-IsBytes p off 4 0 v h)
      ∙ scatter_value p off v BusWidth.word small

  dpram_wr_outside : (j : ℕ) → off + 4 ≤ j → dpram_wr p off v 4 j ≡ p j
  dpram_wr_outside j h =
      ap (λ q. q j) dpram_wr_lem ∙ scatter_outside p off 4 0 v j (inr (omega (arith, h)))

  dpram_wr-IsBytes : IsBytes p → IsBytes (dpram_wr p off v 4)
  dpram_wr-IsBytes h = subst IsBytes (sym dpram_wr_lem) (scatter-IsBytes p off 4 0 v h)

copy_in_below : (p : ℕ → ℕ) (off : ℕ) (bs : List ℕ) (j : ℕ) → j < off → copy_in p off bs j ≡ p j
copy_in_below p off [] j h = refl
copy_in_below p off (b ∷ bs) j h =
    copy_in_below (update p off b) (off + 1) bs j (omega (arith, h)) ∙ ground (arith, h)

copy_in-IsBytes :
    (p : ℕ → ℕ) (off : ℕ) (bs : List ℕ)
    → IsBytes p
    → ((i : ℕ) → get_or bs i 0 < 256)
    → IsBytes (copy_in p off bs)
copy_in-IsBytes p off [] h k = h
copy_in-IsBytes p off (b ∷ bs) h k =
    copy_in-IsBytes (update p off b) (off + 1) bs (λ j. ground (arith, h j, k 0)) (λ i. k (suc i))

copy_out_same :
    (p q : ℕ → ℕ) (off n : ℕ)
    → ((j : ℕ) → off ≤ j → p j ≡ q j)
    → copy_out p off n ≡ copy_out q off n
unfolding copy_out
copy_out_same p q off zero h = refl
copy_out_same p q off (suc n) h =
    rw (h off (omega arith), copy_out_same p q (off + 1) n (λ j k. h j (omega (arith, k)))) refl

copy_out-copy_in :
    (p : ℕ → ℕ) (off : ℕ) (bs : List ℕ)
    → off + length bs ≤ k_dpram_size
    → copy_out (copy_in p off bs) off (length bs) ≡ bs
unfolding copy_out
copy_out-copy_in p off [] h = refl
copy_out-copy_in p off (b ∷ bs) h =
    rw
      (
        lt→ltb off k_dpram_size (omega (arith, h)),
        copy_in_below (update p off b) (off + 1) bs off (omega arith),
        copy_out-copy_in (update p off b) (off + 1) bs (omega (arith, h)),
      )
      (ap (λ x. x ∷ bs) here)
  where
    here : update p off b off ≡ b
    here = ground arith

take-all : (bs : List ℕ) → take (length bs) bs ≡ bs
take-all [] = refl
take-all (b ∷ bs) = ap (λ xs. b ∷ xs) (take-all bs)

-- What the host reads of a buffer that the device has armed with n bytes.
host_in_ep0-armed :
    (u : UsbCtrl) (n : ℕ)
    → IsBytes u.dpram
    → n < 2 ^ 10
    → let (bs, after) =
        host_in_ep0 (bus_write u k_ep0_in_bc (2 ^ 15 + 2 ^ 10 + n) BusWidth.word).1 in
      (bs ≡ copy_out u.dpram k_ep0_buf n)
      × (after.buff_status ≡ set_bit u.buff_status 0)
      × (after.sie_status ≡ set_bit u.sie_status k_trans_complete)
unfolding host_in_ep0 bus_write refresh_irq
host_in_ep0-armed u n h small =
    rw
      (
        dpram_rd-dpram_wr u.dpram k_ep0_in_bc (2 ^ 15 + 2 ^ 10 + n) (omega arith) h
            (omega (arith, small)),
        available n small,
        full n small,
        low n small,
      )
      (
        copy_out_same (dpram_wr u.dpram k_ep0_in_bc (2 ^ 15 + 2 ^ 10 + n) 4) u.dpram k_ep0_buf n
            (λ j k.
              dpram_wr_outside u.dpram k_ep0_in_bc (2 ^ 15 + 2 ^ 10 + n) (omega arith) j
                (omega (arith, k))),
        refl,
        refl,
      )
  where
    available : (m : ℕ) → m < 2 ^ 10 → test_bit (2 ^ 15 + 2 ^ 10 + m) 10 ≡ true
    available m k = ground (arith, k)

    full : (m : ℕ) → m < 2 ^ 10 → test_bit (2 ^ 15 + 2 ^ 10 + m) 15 ≡ true
    full m k = ground (arith, k)

    low : (m : ℕ) → m < 2 ^ 10 → (2 ^ 15 + 2 ^ 10 + m) % 2 ^ 10 ≡ m
    low m k = omega (arith, k)

-- The bytes that the host sent, in the buffer.
module _ (u : UsbCtrl) (bs : List ℕ) (h : IsBytes u.dpram) (k : (i : ℕ) → get_or bs i 0 < 256)
    (short : length bs ≤ 64) where
  filled-copy_in :
      copy_in u.dpram k_ep0_buf (take (min (length bs) 64) bs) ≡ copy_in u.dpram k_ep0_buf bs
  filled-copy_in = ap (copy_in u.dpram k_ep0_buf) (ap (λ n. take n bs) all ∙ take-all bs)
    where
      all : min (length bs) 64 ≡ length bs
      all = omega (arith, short)

  host_out_ep0-IsBytes : IsBytes (host_out_ep0 u bs).dpram
  unfolding host_out_ep0 refresh_irq
  host_out_ep0-IsBytes =
      dpram_wr-IsBytes _ k_ep0_out_bc _ (omega arith)
        (subst IsBytes (sym filled-copy_in) (copy_in-IsBytes u.dpram k_ep0_buf bs h k))

  host_out_ep0-buffer : copy_out (host_out_ep0 u bs).dpram k_ep0_buf (length bs) ≡ bs
  unfolding host_out_ep0 refresh_irq
  host_out_ep0-buffer =
      copy_out_same _ (copy_in u.dpram k_ep0_buf (take (min (length bs) 64) bs)) k_ep0_buf
        (length bs)
        (λ j after. dpram_wr_outside _ k_ep0_out_bc _ (omega arith) j (omega (arith, after)))
      ∙ ap (λ p. copy_out p k_ep0_buf (length bs)) filled-copy_in
      ∙ copy_out-copy_in u.dpram k_ep0_buf bs (omega (arith, short))

  host_out_ep0_status :
      ((host_out_ep0 u bs).buff_status ≡ set_bit u.buff_status 1)
      × ((host_out_ep0 u bs).sie_status ≡ set_bit u.sie_status k_trans_complete)
  unfolding host_out_ep0 refresh_irq
  host_out_ep0_status = (refl, refl)

  -- The host sends at most 64 bytes to endpoint 0, and the device arms the same buffer with their
  -- number for the way back: then the host reads the bytes that it sent, and BUFF_STATUS has both
  -- directions of the endpoint and SIE_STATUS TRANS_COMPLETE set in addition. The DPRAM holds bytes.
  pub host_in_ep0-host_out_ep0 :
      let sent = host_out_ep0 u bs in
      let (back, after) =
        host_in_ep0 (bus_write sent k_ep0_in_bc (2 ^ 15 + 2 ^ 10 + length bs) BusWidth.word).1 in
      (back ≡ bs)
      × (after.buff_status ≡ set_bit (set_bit u.buff_status 1) 0)
      × (after.sie_status ≡ set_bit (set_bit u.sie_status k_trans_complete) k_trans_complete)
  host_in_ep0-host_out_ep0 =
      let (back, buffs, sie) =
        host_in_ep0-armed (host_out_ep0 u bs) (length bs) host_out_ep0-IsBytes
          (omega (arith, short)) in
      (
        back ∙ host_out_ep0-buffer,
        buffs ∙ ap (λ x. set_bit x 0) host_out_ep0_status.0,
        sie ∙ ap (λ x. set_bit x k_trans_complete) host_out_ep0_status.1,
      )
