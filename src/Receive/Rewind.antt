-- ===== src/Receive/Rewind.antt =====
-- Reading from the receive buffer and taking the read back.
use lirc.Base.{
  ℕ, suc, ◌+◌, ◌-◌, ◌<◌, ◌≡◌, refl, arith, get_or, if◌then◌else◌, lt→ltb, bit_and, ltb, false,
}
use lirc.Base.Int.{ℤ, pos, negsuc, ◌+ℤ◌, ◌-ℤ◌}
use lirc.Receive.{
  Device, World, ok, ret, ◌>>=◌, ◌>>◌, pulse_mask, consume, get_next_rec_buffer_internal,
  unget_rec_buffer,
}

add-sub_ℤ : (a : ℤ) (v : ℕ) → (a +ℤ pos v) -ℤ pos v ≡ a
add-sub_ℤ (pos n) v = ground arith
add-sub_ℤ (negsuc n) v = ground arith

back_one : (n : ℕ) → n + 1 - 1 ≡ n
back_one n = omega arith

not-below : (n : ℕ) → ltb (n + 1) 1 ≡ false
not-below n = ground arith

get-stored :
    (dev : Device) (fuel maxusec : ℕ) (w : World dev.State)
    → w.rec.rptr < w.rec.wptr
    → get_next_rec_buffer_internal dev (suc fuel) maxusec w
      ≡ ok (get_or w.rec.items w.rec.rptr 0) (record w { rec = consume w.rec })
unfolding get_next_rec_buffer_internal
get-stored dev fuel maxusec w h =
    rw (get_next_rec_buffer_internal, lt→ltb w.rec.rptr w.rec.wptr h, if◌then◌else◌) refl

unget-consumed :
    {D : Type 0} (w : World D) → unget_rec_buffer 1 (record w { rec = consume w.rec }) ≡ ok tt w
unfolding unget_rec_buffer
unget-consumed w =
    rw
      (
        not-below w.rec.rptr,
        back_one w.rec.rptr,
        add-sub_ℤ w.rec.sum (bit_and (get_or w.rec.items w.rec.rptr 0) pulse_mask),
      )
      refl

-- While an item is left in the buffer, `get_next_rec_buffer_internal` gives the item at the read
-- pointer, and `unget_rec_buffer` with a count of 1 after it brings the whole state back, `sum`
-- included.
pub get-unget :
    (dev : Device) (fuel maxusec : ℕ) (w : World dev.State)
    → w.rec.rptr < w.rec.wptr
    → (get_next_rec_buffer_internal dev (suc fuel) maxusec >>= λ d. unget_rec_buffer 1 >> ret d) w
      ≡ ok (get_or w.rec.items w.rec.rptr 0) w
get-unget dev fuel maxusec w h =
    rw (◌>>=◌, ◌>>◌, get-stored dev fuel maxusec w h, unget-consumed w) refl
