-- ===== src/Decode/Set.antt =====
-- `set_code` of lib/ir_remote.c: repetitions and toggle state after a button was found.
pub mod Press
use lirc.Base.{ℕ, ◌+◌, ◌%◌, Bool, true, false, not, ◌&&◌, ◌||◌, ltb, ◌==◌, if◌then◌else◌}
use lirc.Base.{bit_and, bit_or, Option, none, some}
use lirc.Remote.{IrRemote, RemoteConf, CodeRef, Timeval, first_node, deref, time_elapsed, bit_count}
use lirc.Remote.Code.{shl, reverse}
use lirc.Remote.Context.{DecodeCtx}
use lirc.Remote.Flags.{
  has_toggle_bit_mask, has_toggle_mask, has_pre, has_post, has_flag, compat_reverse,
}
use lirc.Decode.{is_null}
use lirc.Decode.Find.{same_pointer}

-- The code that the daemon reports: pre data, code and post data.
unfoldable pub whole_press : RemoteConf → ℕ → ℕ
whole_press r code =
    let pre = if has_pre r then shl r.pre_data r.bits else 0 in
    let c = bit_or pre code in
    let all = if has_post r then bit_or (shl c r.post_data_bits) r.post_data else c in
    if has_flag r compat_reverse then reverse all (bit_count r) else all

-- The button found is the one pressed before, or in the middle of its sequence.
unfoldable pub same_button : IrRemote → CodeRef → Bool
unfolding same_pointer
same_button r found =
    same_pointer (some found) r.last_code
    || (not (is_null (first_node (deref r found))) && not (is_null (deref r found).current))

-- The signal goes on with the press before; `last_decoded` is the identity of a remote.
unfoldable pub goes_on : Timeval → Option ℕ → IrRemote → CodeRef → ℕ → Bool → Bool
unfolding same_button
goes_on now last_decoded r found state repeat_flag =
    let same_remote : Bool = elim last_decoded [ none ↦ false | some i ↦ i == r.identity ] in
    same_remote
    && same_button r found
    && repeat_flag
    && ltb (time_elapsed r.last_send now) 1000000
    && (not (has_toggle_bit_mask r.conf) || state == r.toggle_bit_mask_state)

-- One more signal of the same press.
unfoldable pub count_repeat : IrRemote → CodeRef → IrRemote
count_repeat r found =
    let next = r.toggle_mask_state + 1 in
    let toggled : IrRemote =
      if next == 4
      then record r { reps = r.reps + 1; toggle_mask_state = 2 }
      else record r { toggle_mask_state = next } in
    let counted : IrRemote =
      if is_null (deref r found).current then record r { reps = r.reps + 1 } else r in
    if has_toggle_mask r.conf then toggled else counted

-- The first signal of a press.
unfoldable pub start_press : IrRemote → CodeRef → ℕ → IrRemote
start_press r found state =
    let c = deref r found in
    let n = if not (is_null (first_node c)) && is_null c.current then 1 else 0 in
    let r1 : IrRemote = record r { reps = n } in
    let r2 : IrRemote =
      if has_toggle_mask r.conf
      then record r1 { toggle_mask_state = 1; toggle_code = some found }
      else r1 in
    if has_toggle_bit_mask r.conf then record r2 { toggle_bit_mask_state = state } else r2

-- The remote and the context after a button was found; the statics `last_remote` and
-- `last_decoded` become this remote. `now` is the time of day.
unfoldable pub set_code :
    Timeval → Option ℕ → IrRemote → CodeRef → ℕ → DecodeCtx → IrRemote × DecodeCtx
unfolding goes_on count_repeat start_press whole_press
set_code now last_decoded r found state ctx =
    let repeat_flag = ctx.repeat_flag && not r.release_detected in
    let r0 : IrRemote = record r { release_detected = false } in
    let r1 : IrRemote =
      if goes_on now last_decoded r0 found state repeat_flag
      then count_repeat r0 found
      else start_press r0 found state in
    let c = deref r found in
    let last = if is_null c.current then some found else r1.last_code in
    (
      record r1 {
        last_code = last;
        last_send = now;
        min_remaining_gap = ctx.min_remaining_gap;
        max_remaining_gap = ctx.max_remaining_gap;
      },
      record ctx { repeat_flag = repeat_flag; code = whole_press r.conf c.code },
    )
