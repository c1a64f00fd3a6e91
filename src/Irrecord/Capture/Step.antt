-- ===== src/Irrecord/Capture/Step.antt =====
-- `get_lengths` of lib/irrecord.c: one call, for one duration that the driver's `readdata` has
-- returned (0 for none). In `MODE_HAVE_GAP` the signals are measured, and the remote is analysed after
-- `SAMPLES` of them.
use lirc.Base.{ℕ, ◌+◌, ◌-◌, ◌*◌, ◌/◌, ◌%◌, ◌^◌, some}
use lirc.Base.{Bool, true, false, not, ◌&&◌, ◌||◌, ltb, leb, ◌==◌, if◌then◌else◌, set, bit_and}
use lirc.Remote.{RemoteConf}
use lirc.Remote.Flags.{is_const}
use lirc.Receive.{is_pulse, is_space, is_timeout, pulse_mask}
use lirc.Irrecord.{Recording}
use lirc.Irrecord.Analyse.{Run, settled, null_pointer, endless, Analysed, get_trail_length}
use lirc.Irrecord.Analyse.{get_lead_length, get_header_length, get_repeat_length}
use lirc.Irrecord.Analyse.Scheme.{get_scheme, get_data_length}
use lirc.Irrecord.Capture.{LengthsState, samples, max_signals, mode_get_gap, mode_have_gap}
use lirc.Irrecord.Capture.{len_ok, len_fail, len_timeout, len_again, len_no_gap_found, len_too_long}
use lirc.Irrecord.Capture.Signals.{SignalCounted}
use lirc.Irrecord.Capture.Gap.{Captured, look_for_gap, complete_signal, is_overflow}

-- One function after the other, as long as they return 1.
unfoldable pub and_then : Run Analysed → (RemoteConf → Recording → Run Analysed) → Run Analysed
and_then null_pointer k = null_pointer
and_then endless k = endless
and_then (settled a) k = if a.ok then k a.conf a.recording else settled a

-- `resolution` is that of the driver, `eps` and `aeps` are the variables of irrecord.c.
module _ (resolution eps aeps : ℕ) where
  -- `get_scheme` has no result, and the analysis goes on after it.
  unfoldable pub analyse : RemoteConf → Recording → Run Analysed
  unfolding and_then
  analyse r s =
      and_then
        (and_then
          (and_then (and_then (and_then (get_scheme r s) get_header_length) get_trail_length)
            (get_lead_length eps aeps))
          get_repeat_length)
        (get_data_length resolution eps aeps)

  unfoldable pub analysed : LengthsState → Run Analysed → Run Captured
  analysed state null_pointer = null_pointer
  analysed state endless = endless
  analysed state (settled a) =
      let good = a.ok && state.retval in
      settled (record {
        conf = a.conf;
        state = record state { retval = good };
        recording = a.recording;
        status = if good then len_ok else len_fail;
      })

  -- Whether a duration is the gap after a signal: `100 - eps` and the product are `unsigned`.
  unfoldable pub is_final_gap : LengthsState → ℕ → Bool
  is_final_gap state d =
      ltb 2 state.count
      && (leb (state.remaining_gap * ((100 + 2 ^ 32 - eps) % 2 ^ 32) % 2 ^ 32 / 100) d
          || leb state.remaining_gap (d + aeps))

  -- Whether the next signal is a repeat: the gap was not longer than expected.
  unfoldable pub is_short_gap : LengthsState → ℕ → Bool
  is_short_gap state d =
      let expected = state.remaining_gap + state.header in
      leb d (expected * (100 + eps) % 2 ^ 32 / 100) || leb d (expected + aeps)

  unfoldable pub next_signal : LengthsState → ℕ → LengthsState
  unfolding is_short_gap
  next_signal state d =
      if is_short_gap state d
      then record state { first_signal = some false; header = 0 }
      else record state { first_signal = some true }

  unfoldable pub after_gap : RemoteConf → LengthsState → Recording → ℕ → Run Captured
  unfolding complete_signal analyse analysed next_signal
  after_gap r state s d =
      let m : SignalCounted =
        if is_space state.current
        then complete_signal eps aeps state s
        else record { state = state; recording = s } in
      if not (is_space state.current) && is_pulse state.current
      then settled (record {
        conf = record r { gap = 0 };
        state = state;
        recording = s;
        status = len_no_gap_found;
      })
      else if leb samples m.recording.count_signals
      then analysed m.state (analyse r m.recording)
      else settled (record {
        conf = r;
        state = next_signal m.state d;
        recording = m.recording;
        status = len_again;
      })

  -- `MODE_HAVE_GAP`, for a duration that fits `signals`. `d` is the duration without the mode.
  unfoldable pub measure_signal : RemoteConf → LengthsState → Recording → ℕ → Run Captured
  unfolding is_final_gap after_gap
  measure_signal r state s d =
      let s' = record s { signals = set s.signals (state.count - 1) d } in
      let state' = record state {
        remaining_gap = if is_const r then r.gap - state.total else r.gap;
        total = state.total + d;
      } in
      if is_final_gap state' d
      then after_gap r state' s' d
      else settled (record { conf = r; state = state'; recording = s'; status = len_again })

  unfoldable pub have_gap : RemoteConf → LengthsState → Recording → Run Captured
  unfolding measure_signal
  have_gap r state s =
      if state.count == 1 && is_space state.current
      then settled (record {
        conf = r;
        state = record state { count = 0 };
        recording = s;
        status = len_again;
      })
      else if leb state.count max_signals
      then measure_signal r state s (bit_and state.current pulse_mask)
      else settled (record {
        conf = r;
        state = record state { retval = false };
        recording = s;
        status = len_too_long;
      })

  unfoldable pub find_gap : RemoteConf → LengthsState → Recording → Bool → Captured
  unfolding look_for_gap
  find_gap r state s force =
      if not (state.total == 0) || is_pulse state.current
      then look_for_gap eps aeps r
          (record state { total = state.total + bit_and state.current pulse_mask }) s force
      else record { conf = r; state = state; recording = s; status = len_again }

  -- One call, for what `readdata` has returned.
  unfoldable pub get_lengths : RemoteConf → LengthsState → Recording → Bool → ℕ → Run Captured
  unfolding have_gap find_gap
  get_lengths r state s force read =
      let state' = record state { current = read } in
      let next = record state' { count = state.count + 1 } in
      if read == 0
      then settled (record {
        conf = r;
        state = record state' { retval = false };
        recording = s;
        status = len_timeout;
      })
      else if is_timeout read || is_overflow read
      then settled (record { conf = r; state = state'; recording = s; status = len_again })
      else elim state.mode [
        | mode_get_gap ↦ settled (find_gap r next s force)
        | mode_have_gap ↦ have_gap r next s
      ]
