-- ===== src/Transmit/Frame.antt =====
-- How lib/transmit.c puts one code into the buffer: header, lead, pre data, code, post data, trail
-- and foot, each in the order of the protocol.
pub mod Events
pub mod Bits
pub mod Code
use lirc.Base.{
  ℕ, zero, suc, ◌+◌, ◌-◌, ◌*◌, ◌/◌, ◌%◌, ◌^◌, Bool, true, false, not, ◌&&◌, ◌||◌, ltb, ◌==◌,
}
use lirc.Base.{if◌then◌else◌, bit_and, bit_or, bit_xor}
use lirc.Base.Int.{pos, ◌-ℤ◌}
use lirc.Remote.{RemoteConf, IrRemote, bit_count}
use lirc.Remote.Flags.{
  has_flag, is_rcmm, is_xmp, is_biphase, is_space_first, has_header, has_foot, has_pre, has_post,
  has_toggle_bit_mask, has_toggle_mask, no_head_rep, no_foot_rep, const_length,
}
use lirc.Remote.Code.{reverse, bits_set, shl}
use lirc.Transmit.{SendBuffer, send_pulse, send_space}

unfoldable pub send_header : RemoteConf → SendBuffer → SendBuffer
send_header r b = if has_header r then send_space r.shead (send_pulse r.phead b) else b

unfoldable pub send_foot : RemoteConf → SendBuffer → SendBuffer
send_foot r b = if has_foot r then send_pulse r.pfoot (send_space r.sfoot b) else b

unfoldable pub send_lead : RemoteConf → SendBuffer → SendBuffer
send_lead r b = if r.plead == 0 then b else send_pulse r.plead b

unfoldable pub send_trail : RemoteConf → SendBuffer → SendBuffer
send_trail r b = if r.ptrail == 0 then b else send_pulse r.ptrail b

-- RC-MM: two bits at a time. 1 and 2 are swapped, since `data` is reversed.
pub send_pair : RemoteConf → ℕ → SendBuffer → SendBuffer
send_pair r pair b =
    if pair == 0
    then send_space r.szero (send_pulse r.pzero b)
    else if pair == 2
    then send_space r.sone (send_pulse r.pone b)
    else if pair == 1
    then send_space r.stwo (send_pulse r.ptwo b)
    else send_space r.sthree (send_pulse r.pthree b)

pub send_pairs : RemoteConf → ℕ → ℕ → SendBuffer → SendBuffer
send_pairs r zero data' b = b
send_pairs r (suc left) data' b = send_pairs r left (data' / 4) (send_pair r (bit_and data' 3) b)

-- XMP: a nibble is the length of a space.
pub send_nibbles : RemoteConf → ℕ → ℕ → SendBuffer → SendBuffer
send_nibbles r zero data' b = b
send_nibbles r (suc left) data' b =
    let nibble = reverse (bit_and data' 0xf) 4 in
    send_nibbles r left (data' / 16) (send_space (r.szero + nibble * r.sone) (send_pulse r.pzero b))

-- The lowest bit of `data` with the toggle bits put in, for the bit at `mask`.
unfoldable pub with_toggles : IrRemote → ℕ → ℕ → ℕ
with_toggles r mask data' =
    let set_bit = not (bit_and r.toggle_bit_mask_state mask == 0) in
    let cleared = bit_and data' (2 ^ 64 - 2) in
    let data'' =
      if has_toggle_bit_mask r.conf && not (bit_and mask r.toggle_bit_mask == 0)
      then (if bits_set r.toggle_bit_mask == 1
          then if set_bit then bit_or cleared 1 else cleared
          else if set_bit
          then bit_xor data' 1
          else data')
      else data' in
    if has_toggle_mask r.conf
      && not (bit_and mask r.toggle_mask == 0)
      && not (r.toggle_mask_state % 2 == 0)
    then bit_xor data'' 1
    else data''

-- A one, and a zero, at the bit `mask`.
unfoldable pub send_one : RemoteConf → ℕ → SendBuffer → SendBuffer
send_one r mask b =
    if is_biphase r
    then (if not (bit_and mask r.rc6_mask == 0)
        then send_pulse (2 * r.pone) (send_space (2 * r.sone) b)
        else send_pulse r.pone (send_space r.sone b))
    else if is_space_first r
    then send_pulse r.pone (send_space r.sone b)
    else send_space r.sone (send_pulse r.pone b)

unfoldable pub send_zero : RemoteConf → ℕ → SendBuffer → SendBuffer
send_zero r mask b =
    if not (bit_and mask r.rc6_mask == 0)
    then send_space (2 * r.szero) (send_pulse (2 * r.pzero) b)
    else if is_space_first r
    then send_pulse r.pzero (send_space r.szero b)
    else send_space r.szero (send_pulse r.pzero b)

unfoldable pub send_bits : IrRemote → ℕ → ℕ → ℕ → SendBuffer → SendBuffer
send_bits r zero mask data' b = b
send_bits r (suc left) mask data' b =
    let data'' = with_toggles r mask data' in
    send_bits r left (mask / 2) (data'' / 2)
      (if bit_and data'' 1 == 0 then send_zero r.conf mask b else send_one r.conf mask b)

-- A number of bits that does not go with the protocol is logged, and nothing is sent.
unfoldable pub send_data : IrRemote → ℕ → ℕ → ℕ → SendBuffer → SendBuffer
unfolding send_pairs send_pair send_nibbles send_bits with_toggles send_one send_zero
send_data r data' bits done b =
    let reversed = reverse data' bits in
    if is_rcmm r.conf
    then (if not (bits % 2 == 0) || not (done % 2 == 0)
        then b
        else send_pairs r.conf (bits / 2) reversed b)
    else if is_xmp r.conf
    then (if not (bits % 4 == 0) || not (done % 4 == 0)
        then b
        else send_nibbles r.conf (bits / 4) reversed b)
    else send_bits r bits (shl 1 (bit_count r.conf - 1 - done)) reversed b

unfoldable pub send_pre : IrRemote → SendBuffer → SendBuffer
send_pre r b =
    let b' = send_data r r.pre_data r.pre_data_bits 0 b in
    if has_pre r.conf
    then if ltb 0 r.pre_p && ltb 0 r.pre_s then send_space r.pre_s (send_pulse r.pre_p b') else b'
    else b

unfoldable pub send_post : IrRemote → SendBuffer → SendBuffer
send_post r b =
    let b' =
      if ltb 0 r.post_p && ltb 0 r.post_s then send_space r.post_s (send_pulse r.post_p b) else b in
    if has_post r.conf
    then send_data r r.post_data r.post_data_bits (r.pre_data_bits + r.bits) b'
    else b

unfoldable pub send_repeat : RemoteConf → SendBuffer → SendBuffer
send_repeat r b = send_trail r (send_space r.srepeat (send_pulse r.prepeat (send_lead r b)))

-- The parts of a code in order.
unfoldable pub send_parts : IrRemote → ℕ → Bool → SendBuffer → SendBuffer
send_parts r code repeat b =
    let c = r.conf in
    let b1 = if not repeat || not (has_flag c no_head_rep) then send_header c b else b in
    let b2 = send_pre r (send_lead c b1) in
    let b3 = send_trail c (send_post r (send_data r code r.bits r.pre_data_bits b2)) in
    if not repeat || not (has_flag c no_foot_rep) then send_foot c b3 else b3

unfoldable pub send_code : IrRemote → ℕ → Bool → SendBuffer → SendBuffer
send_code r code repeat b =
    let c = r.conf in
    let sent = send_parts r code repeat b in
    if not repeat && has_flag c no_head_rep && has_flag c const_length
    then record sent { sum = sent.sum -ℤ pos (r.phead + r.shead) }
    else sent
