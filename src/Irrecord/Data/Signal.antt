-- ===== src/Irrecord/Data/Signal.antt =====
-- What `invert_data` of lib/irrecord.c leaves as it is: the signal that lib/transmit.c sends.
use native.Mathlib.Nat.{pow-suc, one-le-pow}
use lirc.Base.{ℕ, zero, suc, ◌+◌, ◌-◌, ◌*◌, ◌/◌, ◌%◌, ◌^◌, ◌≤◌, ◌≡◌, refl, ap, ◌∙◌, arith}
use lirc.Base.Int.{◌-ℤ◌, pos}
use lirc.Base.{
  ltb, ◌&&◌, ◌||◌, Bool, true, false, not, ◌==◌, Bool-cases, inl, inr, bit_and, bit_xor,
  if◌then◌else◌,
}
use lirc.Base.Bits.{bit_and-one, bit_and-zero, xor_digit, differ_binary}
use lirc.Remote.{IrRemote, bit_count}
use lirc.Remote.Flags.{is_biphase, is_space_first, is_rcmm, is_xmp, has_pre, has_post}
use lirc.Remote.Flags.{
  no_head_rep, no_foot_rep, const_length, has_flag, has_header, has_foot, has_toggle_bit_mask,
  has_toggle_mask,
}
use lirc.Remote.Code.{gen_mask}
use lirc.Remote.Code.Laws.{gen_mask-eq}
use lirc.Remote.Code.Reverse.{mirrored, reverse-eq-mirrored}
use lirc.Transmit.{SendBuffer, send_space, send_pulse}
use lirc.Transmit.Frame.{
  send_one, send_zero, send_bits, send_data, send_parts, send_pre, send_post, send_code,
  send_header, send_lead, send_trail, send_foot, with_toggles,
}
use lirc.Irrecord.Data.{invert_data, swap_one_zero}

one_of_two : (a b t : ℕ) → a + b ≡ 1 → a * t + b * t ≡ t
one_of_two zero b t e = let one : b ≡ 1 = omega (arith, e) in rw one (omega arith)
one_of_two (suc a) b t e =
    let x : a ≡ 0 = omega (arith, e) in let y : b ≡ 0 = omega (arith, e) in rw (x, y) (omega arith)

-- The bits of a number within `n`, and the same bits inverted, add up to all ones in either order.
mirrored-xor : (n x : ℕ) → mirrored (bit_xor x (2 ^ n - 1)) n + mirrored x n + 1 ≡ 2 ^ n
unfolding mirrored
mirrored-xor zero x = omega arith
mirrored-xor (suc n) x =
    let m = 2 ^ suc n - 1 in
    let y = bit_xor x m in
    let p = pow-suc 2 n in
    let o = one-le-pow n 2 (omega arith) in
    let d = xor_digit x m in
    let e = differ_binary (x % 2) (m % 2) (omega arith) (omega arith) in
    let half : m / 2 ≡ 2 ^ n - 1 = omega (arith, p, o) in
    let odd : m % 2 ≡ 1 = omega (arith, p, o) in
    let high : y / 2 ≡ bit_xor (x / 2) (m / 2) = omega (arith, d, e) in
    let high' : y / 2 ≡ bit_xor (x / 2) (2 ^ n - 1) =
      high ∙ ap (λ (t : ℕ). bit_xor (x / 2) t) half in
    let flips : y % 2 + x % 2 ≡ 1 = omega (arith, d, e, odd) in
    let rest = ap (λ (t : ℕ). mirrored t n) high' in
    let bits = one_of_two (y % 2) (x % 2) (2 ^ n) flips in
    omega (arith, mirrored-xor n (x / 2), rest, bits, p)

-- Timings with ones and zeros swapped, and no bit that changes from press to press.
pub record IsPlain (r : IrRemote) : Type 0 where
  pub no_toggle_bit : r.toggle_bit_mask ≡ 0
  pub no_toggle_mask : r.toggle_mask ≡ 0
  pub no_rc6_mask : r.rc6_mask ≡ 0
  pub not_biphase : is_biphase r.conf ≡ false

with_toggles-same : (r : IrRemote) (mask d : ℕ) → IsPlain r → with_toggles r mask d ≡ d
unfolding with_toggles has_toggle_bit_mask has_toggle_mask
with_toggles-same r mask d h = simp (h.no_toggle_bit, h.no_toggle_mask) refl

module _ (r : IrRemote) (h : IsPlain r) where
  no_long_bit : (mask : ℕ) → (bit_and mask r.rc6_mask == 0) ≡ true
  no_long_bit mask = rw (h.no_rc6_mask, bit_and-zero mask) refl

  send_one-swapped :
      (mask : ℕ) (b : SendBuffer) → send_one (swap_one_zero r.conf) mask b ≡ send_zero r.conf mask b
  unfolding send_one send_zero swap_one_zero is_biphase is_space_first
  send_one-swapped mask b =
      let plain : is_biphase r.conf ≡ false = h.not_biphase in rw (plain, no_long_bit mask) refl

  send_zero-swapped :
      (mask : ℕ) (b : SendBuffer) → send_zero (swap_one_zero r.conf) mask b ≡ send_one r.conf mask b
  unfolding send_one send_zero swap_one_zero is_biphase is_space_first
  send_zero-swapped mask b =
      let plain : is_biphase r.conf ≡ false = h.not_biphase in rw (plain, no_long_bit mask) refl

  invert_data-IsPlain : IsPlain (invert_data r)
  unfolding invert_data swap_one_zero is_biphase
  invert_data-IsPlain = record {
    no_toggle_bit = h.no_toggle_bit;
    no_toggle_mask = h.no_toggle_mask;
    no_rc6_mask = h.no_rc6_mask;
    not_biphase = h.not_biphase;
  }

  -- One bit of a remote, and the opposite bit of the inverted one.
  send_bit-inverted :
      (x y mask : ℕ) (b : SendBuffer)
      → x % 2 + y % 2 ≡ 1
      → (if bit_and x 1 == 0
          then send_zero (invert_data r).conf mask b
          else send_one (invert_data r).conf mask b)
        ≡ (if bit_and y 1 == 0 then send_zero r.conf mask b else send_one r.conf mask b)
  unfolding invert_data send_one send_zero swap_one_zero is_biphase is_space_first
  send_bit-inverted x y mask b e = elim (Bool-cases (bit_and x 1 == 0)) [
    | inl z ↦
        let other : (bit_and y 1 == 0) ≡ false = ground (arith, bit_and-one x, bit_and-one y) in
        simp (z, other) (send_zero-swapped mask b)
    | inr z ↦
        let other : (bit_and y 1 == 0) ≡ true = ground (arith, bit_and-one x, bit_and-one y) in
        simp (z, other) (send_one-swapped mask b)
  ]

  send_bits-inverted :
      (left mask x y : ℕ) (b : SendBuffer)
      → x + y + 1 ≡ 2 ^ left
      → send_bits (invert_data r) left mask x b ≡ send_bits r left mask y b
  unfolding send_bits
  send_bits-inverted zero mask x y b e = refl
  send_bits-inverted (suc left) mask x y b e =
      let parity : x % 2 + y % 2 ≡ 1 = omega (arith, e, pow-suc 2 left) in
      rw
        (
          with_toggles-same (invert_data r) mask x invert_data-IsPlain,
          with_toggles-same r mask y h,
          send_bit-inverted x y mask b parity,
        )
        (send_bits-inverted left (mask / 2) (x / 2) (y / 2) _ (omega (arith, e, pow-suc 2 left)))

  module _ (not_rcmm : is_rcmm r.conf ≡ false) (not_xmp : is_xmp r.conf ≡ false) where
    -- The inverted bits of a remote that is inverted are sent like the bits of the remote.
    send_data-inverted :
        (d bits done : ℕ) (b : SendBuffer)
        → bits ≤ 64
        → send_data (invert_data r) (bit_xor d (gen_mask bits)) bits done b
          ≡ send_data r d bits done b
    unfolding send_data invert_data swap_one_zero is_rcmm is_xmp bit_count
    send_data-inverted d bits done b w =
        let a : is_rcmm r.conf ≡ false = not_rcmm in
        let c : is_xmp r.conf ≡ false = not_xmp in
        rw
          (
            a,
            c,
            gen_mask-eq bits w,
            reverse-eq-mirrored (bit_xor d (2 ^ bits - 1)) bits w,
            reverse-eq-mirrored d bits w,
          )
          (send_bits-inverted bits _ _ _ b (mirrored-xor bits d))

    send_pre-inverted :
        (b : SendBuffer) → r.pre_data_bits ≤ 64 → send_pre (invert_data r) b ≡ send_pre r b
    unfolding send_pre invert_data swap_one_zero has_pre
    send_pre-inverted b w = elim (Bool-cases (has_pre r.conf)) [
      | inl e ↦
          let value : (invert_data r).pre_data ≡ bit_xor r.pre_data (gen_mask r.pre_data_bits) =
            rw e refl in
          let sent : send_data (invert_data r) (invert_data r).pre_data r.pre_data_bits 0 b
              ≡ send_data r r.pre_data r.pre_data_bits 0 b =
            ap (λ d. send_data (invert_data r) d r.pre_data_bits 0 b) value
            ∙ send_data-inverted r.pre_data r.pre_data_bits 0 b w in
          ap
            (λ s.
              if has_pre r.conf
              then if ltb 0 r.pre_p && ltb 0 r.pre_s
                then send_space r.pre_s (send_pulse r.pre_p s)
                else s
              else b)
            sent
      | inr e ↦ rw e refl
    ]

    send_post-inverted :
        (b : SendBuffer) → r.post_data_bits ≤ 64 → send_post (invert_data r) b ≡ send_post r b
    unfolding send_post invert_data swap_one_zero has_post
    send_post-inverted b w = elim (Bool-cases (has_post r.conf)) [
      | inl e ↦
          let value : (invert_data r).post_data ≡ bit_xor r.post_data (gen_mask r.post_data_bits) =
            rw e refl in
          let b' =
            if ltb 0 r.post_p && ltb 0 r.post_s
            then send_space r.post_s (send_pulse r.post_p b)
            else b in
          let done = r.pre_data_bits + r.bits in
          let sent : send_data (invert_data r) (invert_data r).post_data r.post_data_bits done b'
              ≡ send_data r r.post_data r.post_data_bits done b' =
            ap (λ d. send_data (invert_data r) d r.post_data_bits done b') value
            ∙ send_data-inverted r.post_data r.post_data_bits done b' w in
          ap (λ s. if has_post r.conf then s else b) sent
      | inr e ↦ rw e refl
    ]

    -- One code of a remote, and the inverted code of the inverted remote.
    pub send_code-inverted :
        (code : ℕ) (repeat : Bool) (b : SendBuffer)
        → r.pre_data_bits ≤ 64
        → r.bits ≤ 64
        → r.post_data_bits ≤ 64
        → send_code (invert_data r) (bit_xor code (gen_mask r.bits)) repeat b
          ≡ send_code r code repeat b
    unfolding send_code send_parts send_header send_lead send_trail send_foot invert_data
        swap_one_zero has_flag has_header has_foot
    send_code-inverted code repeat b wp wb wq =
        let c = r.conf in
        let b1 = if not repeat || not (has_flag c no_head_rep) then send_header c b else b in
        let tail : SendBuffer → SendBuffer = λ s.
          let b3 = send_trail c s in
          if not repeat || not (has_flag c no_foot_rep) then send_foot c b3 else b3 in
        let whole : SendBuffer → SendBuffer = λ s.
          if not repeat && has_flag c no_head_rep && has_flag c const_length
          then record s { sum = s.sum -ℤ pos (r.phead + r.shead) }
          else s in
        ap
          (λ s. whole (
            tail (
              send_post (invert_data r) (
                send_data (invert_data r) (bit_xor code (gen_mask r.bits)) r.bits r.pre_data_bits
                  s))))
          (send_pre-inverted (send_lead c b1) wp)
        ∙ ap (λ s. whole (tail (send_post (invert_data r) s)))
            (send_data-inverted code r.bits r.pre_data_bits _ wb)
        ∙ ap (λ s. whole (tail s)) (send_post-inverted _ wq)
