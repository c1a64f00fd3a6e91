-- ===== src/Transmit/Frame/Bits.antt =====
-- `send_data` sends the bits of a code with the most significant first.
use native.Mathlib.Nat.{one-le-pow, zero-div, pow-suc}
use lirc.Base.{ℕ, zero, suc, ◌+◌, ◌-◌, ◌*◌, ◌/◌, ◌%◌, ◌^◌, ◌≤◌, ◌<◌, ◌≡◌, refl, arith, false}
use lirc.Base.{
  not, ◌&&◌, ltb, ◌==◌, if◌then◌else◌, bit_and, sym, ◌∙◌, List, [], ◌∷◌, ◌++◌, Bool-cases, inl, inr,
}
use lirc.Base.Bits.{bit-bit_and, bit_and-bit, bit_xor-one, bit_and-one, bit_and-clear, bit_or-one}
use lirc.Base.Bits.{two-pow-le}
use lirc.Remote.{RemoteConf, IrRemote, bit_count}
use lirc.Remote.Flags.{has_toggle_bit_mask, has_toggle_mask, is_rcmm, is_xmp}
use lirc.Remote.Code.{bits_set, shl}
use lirc.Remote.Code.Reverse.{shl-one, mirrored, mirrored-lt, mirrored-snoc, reverse-eq-mirrored}
use lirc.Transmit.{SendBuffer}
use lirc.Transmit.Frame.{with_toggles, send_one, send_zero, send_bits, send_data}
use lirc.Transmit.Frame.Events.{
  bit_at, has_bit, toggled, one_events, zero_events, bit_events, data_events,
}
use lirc.Transmit.Buffer.{Event, send_events, send_event}

pub send_events-append :
    (xs ys : List Event) (b : SendBuffer)
    → send_events (xs ++ ys) b ≡ send_events ys (send_events xs b)
unfolding send_events
send_events-append [] ys b = refl
send_events-append (x ∷ xs) ys b = send_events-append xs ys (send_event x b)

binary_test : (v t : ℕ) → v < 2 → 0 < t → not (v * t == 0) ≡ (v == 1)
binary_test zero t h k = ground arith
binary_test (suc zero) t h k = ground arith
binary_test (suc (suc v)) t h k = absurd (omega arith)

-- The test of a mask with one bit, on either side.
test_bit : (m x : ℕ) → not (bit_and (2 ^ m) x == 0) ≡ has_bit x m
test_bit m x =
    rw (bit-bit_and m x)
      (binary_test (x / 2 ^ m % 2) (2 ^ m) (omega arith) (one-le-pow m 2 (omega arith)))

test_bit_right : (m x : ℕ) → not (bit_and x (2 ^ m) == 0) ≡ has_bit x m
test_bit_right m x =
    rw (bit_and-bit m x)
      (binary_test (x / 2 ^ m % 2) (2 ^ m) (omega arith) (one-le-pow m 2 (omega arith)))

-- A mask that has a bit is not empty.
mask_test : (m x : ℕ) → (ltb 0 x && has_bit x m) ≡ has_bit x m
mask_test m zero = ground (arith, zero-div (2 ^ m))
mask_test m (suc x) = ground arith

-- The two steps of `with_toggles`.
abbrev masked : IrRemote → ℕ → ℕ → ℕ
masked r m x =
    if has_bit r.toggle_bit_mask m
    then (if bits_set r.toggle_bit_mask == 1
        then if has_bit r.toggle_bit_mask_state m then x / 2 * 2 + 1 else x / 2 * 2
        else if has_bit r.toggle_bit_mask_state m
        then x / 2 * 2 + (x % 2 + 1) % 2
        else x)
    else x

with_toggles-eq :
    (r : IrRemote) (m x : ℕ)
    → x < 2 ^ 64
    → with_toggles r (2 ^ m) x ≡ (
        if has_bit r.toggle_mask m && not (r.toggle_mask_state % 2 == 0)
        then masked r m x / 2 * 2 + (masked r m x % 2 + 1) % 2
        else masked r m x)
unfolding with_toggles has_toggle_bit_mask has_toggle_mask
with_toggles-eq r m x h =
    rw
      (
        bit_and-clear x h,
        bit_or-one (x / 2),
        bit_xor-one x,
        test_bit m r.toggle_bit_mask,
        test_bit m r.toggle_mask,
        test_bit_right m r.toggle_bit_mask_state,
        mask_test m r.toggle_bit_mask,
      )
      (ground (arith, bit_xor-one (masked r m x), mask_test m r.toggle_mask))

with_toggles_parts :
    (r : IrRemote) (m x : ℕ)
    → x < 2 ^ 64
    → (with_toggles r (2 ^ m) x % 2 ≡ toggled r m (x % 2)) × (with_toggles r (2 ^ m) x / 2 ≡ x / 2)
unfolding toggled
with_toggles_parts r m x h = rw (with_toggles-eq r m x h) (ground arith, ground arith)

-- What goes out for one bit.
send_one-eq :
    (r : RemoteConf) (m : ℕ) (b : SendBuffer)
    → send_one r (2 ^ m) b ≡ send_events (one_events r m) b
unfolding send_one one_events send_events send_event
send_one-eq r m b = rw (test_bit m r.rc6_mask) (ground arith)

send_zero-eq :
    (r : RemoteConf) (m : ℕ) (b : SendBuffer)
    → send_zero r (2 ^ m) b ≡ send_events (zero_events r m) b
unfolding send_zero zero_events send_events send_event
send_zero-eq r m b = rw (test_bit m r.rc6_mask) (ground arith)

send_bit-eq :
    (r : IrRemote) (m v x : ℕ) (b : SendBuffer)
    → x % 2 ≡ toggled r m v
    → (if bit_and x 1 == 0 then send_zero r.conf (2 ^ m) b else send_one r.conf (2 ^ m) b)
      ≡ send_events (bit_events r m v) b
unfolding bit_events
send_bit-eq r m v x b e =
    rw (bit_and-one x, e, send_zero-eq r.conf m b, send_one-eq r.conf m b)
      (elim (Bool-cases (toggled r m v == 0)) [ inl h ↦ rw h | inr h ↦ rw h ])

half_pow : (k m : ℕ) → k ≡ suc m → 2 ^ k / 2 ≡ 2 ^ m
half_pow k m e = rw e (omega (arith, pow-suc 2 m))

-- The loop at a reversed code with `n` bits to go.
send_bits-eq :
    (r : IrRemote) (base x n : ℕ) (b : SendBuffer)
    → base + n ≤ 64
    → send_bits r n (2 ^ (base + n) / 2) (mirrored x n) b ≡ send_events (data_events r base x n) b
unfolding send_bits data_events
send_bits-eq r base x zero b h = unfold send_events in refl
send_bits-eq r base x (suc n) b h =
    let m = base + n in
    let d : ℕ = mirrored x (suc n) in
    let small : d < 2 ^ 64 =
      omega (arith, mirrored-lt x (suc n), two-pow-le (suc n) 64 (omega arith)) in
    let parts = with_toggles_parts r m d small in
    let mask : 2 ^ (base + suc n) / 2 ≡ 2 ^ m = half_pow (base + suc n) m (omega arith) in
    let low : d % 2 ≡ bit_at x n = omega (arith, mirrored-snoc x n) in
    let high : d / 2 ≡ mirrored x n = omega (arith, mirrored-snoc x n) in
    rw
      (
        mask,
        send_bit-eq r m (d % 2) (with_toggles r (2 ^ m) d) b parts.0,
        parts.1,
        high,
        low,
        send_events-append (bit_events r m (bit_at x n)) (data_events r base x n) b,
      )
      (send_bits-eq r base x n (send_events (bit_events r m (bit_at x n)) b) (omega arith))

-- For a protocol other than RC-MM and XMP and a code of at most 64 bits, `send_data` sends the bits
-- of `data`, most significant first, in the pulses and spaces of the protocol, with the toggles of
-- the remote at the places where the part stands in the code.
pub send_data-eq :
    (r : IrRemote) (x bits done : ℕ) (b : SendBuffer)
    → is_rcmm r.conf ≡ false
    → is_xmp r.conf ≡ false
    → bit_count r.conf ≤ 64
    → done + bits ≤ bit_count r.conf
    → send_data r x bits done b
      ≡ send_events (data_events r (bit_count r.conf - done - bits) x bits) b
unfolding send_data
send_data-eq r x zero done b p q h k = rw (p, q) (unfold send_bits data_events send_events in refl)
send_data-eq r x (suc n) done b p q h k =
    let base = bit_count r.conf - done - suc n in
    let mask : shl 1 (bit_count r.conf - 1 - done) ≡ 2 ^ (base + suc n) / 2 =
      shl-one (bit_count r.conf - 1 - done) (omega arith)
      ∙ sym (half_pow (base + suc n) (bit_count r.conf - 1 - done) (omega arith)) in
    rw (p, q, reverse-eq-mirrored x (suc n) (omega arith), mask)
      (send_bits-eq r base x (suc n) b (omega arith))
