-- ===== src/Irrecord/Capture/Gap.antt =====
-- The first half of `get_lengths` of lib/irrecord.c, with `scan_gap1` and `scan_gap2`: the gap between
-- signals is looked for. At the end, what the second half does with a complete signal.
use lirc.Base.{ℕ, ◌+◌, ◌-◌, ◌*◌, ◌/◌, ◌%◌, ◌^◌, max, List, [], ◌∷◌, Option, none, some}
use lirc.Base.{Bool, false, not, ◌&&◌, ◌||◌, ltb, leb, ◌==◌, if◌then◌else◌, bit_and, bit_or}
use lirc.Remote.{RemoteConf}
use lirc.Remote.Flags.{is_const, has_repeat_gap, const_length}
use lirc.Receive.{is_space, mode2_mask}
use lirc.Irrecord.{Lengths, Recording}
use lirc.Irrecord.Histogram.{calc_signal, add_and_merge}
use lirc.Irrecord.Capture.{LengthsState, LengthsStatus, samples, max_signals}
use lirc.Irrecord.Capture.{mode_have_gap, min_gap_time, len_raw_ok}
use lirc.Irrecord.Capture.{len_again, len_again_info, len_no_gap_found}
use lirc.Irrecord.Capture.Signals.{
  compute_lengths_4_signals, compute_lengths_6_signals, compute_lengths_many_signals, SignalCounted,
}

unfoldable pub is_overflow : ℕ → Bool
is_overflow d = bit_and d mode2_mask == 0x04000000

-- What a call leaves and returns.
pub record Captured : Type 0 where
  pub conf : RemoteConf
  pub state : LengthsState
  pub recording : Recording
  pub status : LengthsStatus

-- The loop of `scan_gap1` and `scan_gap2`: the first item with more than `SAMPLES` durations, and the
-- highest count up to it.
pub record GapScan : Type 0 where
  pub found : Option Lengths
  pub maxcount : ℕ

unfoldable pub scan_gap : List Lengths → ℕ → GapScan
scan_gap [] most = record { found = none; maxcount = most }
scan_gap (l ∷ ls) most =
    if ltb samples l.count
    then record { found = some l; maxcount = max most l.count }
    else scan_gap ls (max most l.count)

-- A space this long ends a signal.
unfoldable pub is_gap : LengthsState → Recording → ℕ → Bool
is_gap state s d =
    ltb min_gap_time d
    || ltb (100 * state.average) d
    || leb 5000 d && ltb 10 s.count_spaces && ltb (5 * state.average) d
    || ltb d 5000 && ltb 10 s.count_spaces && ltb (5 * state.maxspace / 2) d

-- The gap is known: either the time from the start of a signal to the next, or the space between.
unfoldable pub gap_found : RemoteConf → LengthsState → Recording → Bool → Captured
gap_found r state s force =
    let rest =
      if is_const r
      then r.gap - state.current
      else if has_repeat_gap r
      then r.repeat_gap
      else r.gap in
    let state' = record state {
      mode = mode_have_gap;
      total = 0;
      count = 0;
      remaining_gap = rest;
      retval = if force then false else state.retval;
    } in
    record {
      conf = r;
      state = state';
      recording = s;
      status = if force then len_raw_ok else len_again_info;
    }

unfoldable pub scan_gaps : RemoteConf → LengthsState → Recording → Bool → Captured
unfolding scan_gap gap_found
scan_gaps r state s force =
    let one = scan_gap s.sums 0 in
    let two = scan_gap s.gaps one.maxcount in
    elim one.found [
      | some l ↦
          let r' = record r { gap = calc_signal l; flags = bit_or r.flags const_length } in
          gap_found r' state s force
      | none ↦ elim two.found [
        | some l ↦ gap_found (record r { gap = calc_signal l }) state s force
        | none ↦ record {
          conf = r;
          state = record state { keypresses = two.maxcount };
          recording = record s { lastmaxcount = two.maxcount };
          status = len_again;
        }
      ]
    ]

-- `eps` and `aeps` are the variables of irrecord.c.
module _ (eps aeps : ℕ) where
  -- A gap: the signal and the gap go to their histograms.
  unfoldable pub end_of_signal : LengthsState → Recording → Recording
  end_of_signal state s = record s {
    sums = add_and_merge eps aeps s.sums state.total;
    gaps = add_and_merge eps aeps s.gaps state.current;
    count_spaces = 0;
  }

  -- The end of a call that has not found the gap.
  unfoldable pub still_no_gap : RemoteConf → LengthsState → Recording → Captured
  still_no_gap r state s =
      if ltb (samples * max_signals * 2) state.count
      then record {
        conf = r;
        state = record state { retval = false };
        recording = s;
        status = len_no_gap_found;
      }
      else record {
        conf = r;
        state = record state { keypresses = s.lastmaxcount };
        recording = s;
        status = len_again;
      }

  unfoldable pub space_in_signal : LengthsState → Recording → ℕ → LengthsState
  space_in_signal state s d = record state {
    average = (state.average * s.count_spaces + d) % 2 ^ 32 / (s.count_spaces + 1);
    maxspace = max state.maxspace d;
  }

  -- `MODE_GET_GAP`: `state.total` already holds the duration.
  unfoldable pub look_for_gap : RemoteConf → LengthsState → Recording → Bool → Captured
  unfolding is_gap end_of_signal scan_gaps still_no_gap space_in_signal
  look_for_gap r state s force =
      let d = state.current in
      if not (is_space d)
      then still_no_gap r state s
      else if state.average == 0
      then (if ltb 100000 d
          then record {
            conf = r;
            state = record state { total = 0 };
            recording = s;
            status = len_again;
          }
          else still_no_gap r (record state { average = d; maxspace = d }) s)
      else if is_gap state s d
      then scan_gaps r (record state { total = 0; average = 0; maxspace = 0 })
          (end_of_signal state s) force
      else still_no_gap r (space_in_signal state s d)
          (record s { count_spaces = s.count_spaces + 1 })

  -- A complete signal, by its number of durations: a repeat code without or with a header, or data.
  unfoldable pub complete_signal : LengthsState → Recording → SignalCounted
  unfolding compute_lengths_4_signals compute_lengths_6_signals
  complete_signal state s =
      let done = λ (m : SignalCounted). record m {
        state = record m.state { keypresses = m.state.keypresses + 1; count = 0; total = 0 };
      } in
      done (
        if state.count == 4
        then record {
          state = state;
          recording =
              compute_lengths_4_signals eps aeps
                (record s { count_3repeats = s.count_3repeats + 1 });
        }
        else if state.count == 6
        then record {
          state = state;
          recording =
              compute_lengths_6_signals eps aeps
                (record s { count_5repeats = s.count_5repeats + 1 });
        }
        else if ltb 6 state.count
        then compute_lengths_many_signals eps aeps state
            (record s { count_signals = s.count_signals + 1 })
        else record { state = state; recording = s })
