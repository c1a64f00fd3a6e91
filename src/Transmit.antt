-- ===== src/Transmit.antt =====
-- The global sending buffer of lib/transmit.c and the operations on it.
-- `send_buffer.data` is a pointer: null after `send_buffer_init`, to the buffer's own array, or to
-- the signals of a raw code. `sum` is an `int` that may fall below zero.
pub mod Buffer
pub mod Frame
pub mod Put
use lirc.Base.{ℕ, zero, suc, ◌+◌, ◌-◌, ◌%◌, Bool, true, false, not, ◌&&◌, List, [], ◌∷◌, ltb, ◌==◌}
use lirc.Base.{if◌then◌else◌, set, length, take, Option, none, some}
use lirc.Base.Int.{ℤ, pos, ◌+ℤ◌}

abbrev pub wbuf_size : ℕ
wbuf_size = 256

pub data DataPtr : Type 0 where
  null : DataPtr
  own : DataPtr
  signals : List ℕ → DataPtr

pub record SendBuffer : Type 0 where
  pub data_ptr : DataPtr
  pub array : List ℕ
  pub wptr : ℕ
  pub too_long : Bool
  pub is_biphase : Bool
  pub pendingp : ℕ
  pub pendings : ℕ
  pub sum : ℤ

-- `n` zeroes.
abbrev pub zeroes : ℕ → List ℕ
zeroes zero = []
zeroes (suc n) = 0 ∷ zeroes n

unfoldable pub send_buffer_init : SendBuffer
send_buffer_init = record {
  data_ptr = null;
  array = zeroes wbuf_size;
  wptr = 0;
  too_long = false;
  is_biphase = false;
  pendingp = 0;
  pendings = 0;
  sum = pos 0;
}

unfoldable pub clear_send_buffer : SendBuffer → SendBuffer
clear_send_buffer b = record b {
  wptr = 0;
  too_long = false;
  is_biphase = false;
  pendingp = 0;
  pendings = 0;
  sum = pos 0;
}

unfoldable pub add_send_buffer : ℕ → SendBuffer → SendBuffer
add_send_buffer d b =
    if ltb b.wptr wbuf_size
    then record b { sum = b.sum +ℤ pos d; array = set b.array b.wptr d; wptr = b.wptr + 1 }
    else record b { too_long = true }

-- Add the pending pulse, or the pending space, and forget it.
abbrev pub put_pendingp : SendBuffer → SendBuffer
put_pendingp b =
    let b' = add_send_buffer b.pendingp b in
    if ltb 0 b.pendingp then record b' { pendingp = 0 } else b

abbrev pub put_pendings : SendBuffer → SendBuffer
put_pendings b =
    let b' = add_send_buffer b.pendings b in
    if ltb 0 b.pendings then record b' { pendings = 0 } else b

unfoldable pub send_pulse : ℕ → SendBuffer → SendBuffer
send_pulse d b =
    if ltb 0 b.pendingp
    then record b { pendingp = b.pendingp + d }
    else record (put_pendings b) { pendingp = d }

-- A space at the start of the buffer is dropped.
unfoldable pub send_space : ℕ → SendBuffer → SendBuffer
send_space d b =
    if b.wptr == 0 && b.pendingp == 0
    then b
    else if ltb 0 b.pendings
    then record b { pendings = b.pendings + d }
    else record (put_pendingp b) { pendings = d }

unfoldable pub bad_send_buffer : SendBuffer → Bool
bad_send_buffer b = if b.too_long then true else b.wptr == wbuf_size && ltb 0 b.pendingp

-- The loop over the first `wptr` items of `data`; what lies behind the array is not modelled.
pub all_positive : ℕ → List ℕ → Bool
all_positive zero xs = true
all_positive (suc n) [] = true
all_positive (suc n) (x ∷ xs) = not (x == 0) && all_positive n xs

-- The array that `data` points to; `none` for a read through the null pointer.
unfoldable pub send_buffer_data : SendBuffer → Option (List ℕ)
send_buffer_data b = elim b.data_ptr [ null ↦ none | own ↦ some b.array | signals s ↦ some s ]

-- `none` is the read through the null pointer.
unfoldable pub check_send_buffer : SendBuffer → Option Bool
unfolding send_buffer_data all_positive
check_send_buffer b =
    if b.wptr == 0
    then some false
    else elim (send_buffer_data b) [ none ↦ none | some xs ↦ some (all_positive b.wptr xs) ]

unfoldable pub flush_send_buffer : SendBuffer → SendBuffer
flush_send_buffer b = put_pendings (put_pendingp b)

-- A trailing space that is in the array already is taken back.
unfoldable pub sync_send_buffer : SendBuffer → SendBuffer
sync_send_buffer b =
    let b' = put_pendingp b in
    if ltb 0 b'.wptr && b'.wptr % 2 == 0 then record b' { wptr = b'.wptr - 1 } else b'

unfoldable pub send_buffer_length : SendBuffer → ℕ
send_buffer_length b = b.wptr

unfoldable pub send_buffer_sum : SendBuffer → ℤ
send_buffer_sum b = b.sum

-- `send_signals`: the items of a raw code, one by one.
unfoldable pub send_signals : List ℕ → SendBuffer → SendBuffer
send_signals [] b = b
send_signals (x ∷ xs) b = send_signals xs (add_send_buffer x b)
