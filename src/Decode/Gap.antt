-- ===== src/Decode/Gap.antt =====
-- `map_gap` of lib/ir_remote.c: whether a signal follows the one before, and the gap it leaves.
-- The `unsigned long` of `time_elapsed` is converted to a `lirc_t`, a 32-bit int.
use lirc.Base.{ℕ, ◌+◌, ◌-◌, ◌≤◌, Bool, false, ltb, leb, if◌then◌else◌, ◌≡◌, arith}
use lirc.Base.Int.{pos, to_int32}
use lirc.Remote.{IrRemote, Timeval, min_gap, max_gap, time_elapsed}
use lirc.Remote.Context.{DecodeCtx}
use lirc.Remote.Flags.{is_const}
use lirc.Remote.Tolerance.{expect_at_most}

-- The gap since the last signal fits the remaining gap of the remote.
unfoldable pub follows : ℕ → IrRemote → Timeval → Timeval → Bool
follows resolution r start last =
    let gap = to_int32 (pos (time_elapsed last start)) in
    if leb (last.tv_sec + 2) start.tv_sec
    then false
    else expect_at_most resolution r.conf gap (pos r.max_remaining_gap)

unfoldable pub map_gap : ℕ → IrRemote → DecodeCtx → Timeval → Timeval → ℕ → DecodeCtx
unfolding follows
map_gap resolution r ctx start last signal_length =
    let ctx1 : DecodeCtx = record ctx { repeat_flag = follows resolution r start last } in
    let low = if ltb signal_length (min_gap r.conf) then min_gap r.conf - signal_length else 0 in
    let high =
      if ltb signal_length (min_gap r.conf)
      then max_gap r.conf - signal_length
      else if ltb signal_length (max_gap r.conf)
      then max_gap r.conf - signal_length
      else 0 in
    if is_const r.conf
    then record ctx1 { min_remaining_gap = low; max_remaining_gap = high }
    else record ctx1 { min_remaining_gap = min_gap r.conf; max_remaining_gap = max_gap r.conf }

-- With a constant length of signal and gap, what remains of the gap is what the signal has not used
-- of the shortest and of the longest gap, and nothing when the signal is longer; with a constant gap
-- it is the gap. The least remaining gap is never above the largest.
pub map_gap-remaining :
    (resolution : ℕ) (r : IrRemote) (ctx : DecodeCtx) (start last : Timeval) (signal_length : ℕ)
    → let c = map_gap resolution r ctx start last signal_length in
      let used = if is_const r.conf then signal_length else 0 in
      (c.min_remaining_gap ≡ min_gap r.conf - used)
      × (c.max_remaining_gap ≡ max_gap r.conf - used)
      × (c.min_remaining_gap ≤ c.max_remaining_gap)
unfolding map_gap min_gap max_gap
map_gap-remaining resolution r ctx start last signal_length =
    (ground arith, ground arith, ground arith)
