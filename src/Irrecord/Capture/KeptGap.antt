-- ===== src/Irrecord/Capture/KeptGap.antt =====
-- The invariant of a recording through the first half of `get_lengths` of lib/irrecord.c, and through
-- the end of a signal.
use lirc.Base.{ℕ, ◌+◌, ◌*◌, ◌≡◌, refl, List}
use lirc.Base.{Bool, true, false, if◌then◌else◌, ltb, ◌==◌, not, ◌||◌}
use lirc.Base.{Option-cases, inl, inr, ltb→lt}
use lirc.Remote.{RemoteConf}
use lirc.Receive.{is_pulse, is_space}
use lirc.Irrecord.{Lengths, Recording}
use lirc.Irrecord.Capture.{LengthsState, samples, max_signals}
use lirc.Irrecord.Capture.Signals.{SignalCounted}
use lirc.Irrecord.Capture.Gap.{complete_signal, Captured, scan_gaps, scan_gap, look_for_gap}
use lirc.Irrecord.Capture.Gap.{still_no_gap, end_of_signal, is_gap}
use lirc.Irrecord.Capture.Step.{find_gap}
use lirc.Irrecord.Capture.Kept.{IsRecorded, Measurable-IsRecorded, if-holds}
use lirc.Irrecord.Capture.Kept.{compute_lengths_4_signals-IsRecorded}
use lirc.Irrecord.Capture.Kept.{compute_lengths_6_signals-IsRecorded}
use lirc.Irrecord.Capture.Kept.{compute_lengths_many_signals-Measurable}

-- The counters and lists that the invariant does not read.
pub with_others-IsRecorded :
    (s : Recording) (sums' gaps' : List Lengths) (signals' : List ℕ) (n m : ℕ)
    → IsRecorded s
    → IsRecorded (record s {
      sums = sums';
      gaps = gaps';
      signals = signals';
      count_spaces = n;
      lastmaxcount = m;
    })
with_others-IsRecorded s sums' gaps' signals' n m h = record {
  measurable = λ p.
      let k = h.measurable p in
      record {
        pulses_some = k.pulses_some;
        spaces_some = k.spaces_some;
        leads_some = k.leads_some;
        trails_some = k.trails_some;
        signals_some = k.signals_some;
        headers_some = k.headers_some;
        repeats_some = k.repeats_some;
      };
  headers_some = h.headers_some;
  repeats_some = h.repeats_some;
}

if_true-holds :
    {A : Type 0} (P : A → Type 0) (b : Bool) (x y : A)
    → (b ≡ true → P x)
    → P y
    → P (if b then x else y)
if_true-holds P true x y p q = p refl
if_true-holds P false x y p q = q

module _ (eps aeps : ℕ) where
  pub complete_signal-IsRecorded :
      (state : LengthsState) (s : Recording)
      → IsRecorded s
      → IsRecorded (complete_signal eps aeps state s).recording
  unfolding complete_signal
  complete_signal-IsRecorded state s h =
      let P : SignalCounted → Type 0 = λ c. IsRecorded c.recording in
      if-holds P (state.count == 4) _ _ (compute_lengths_4_signals-IsRecorded eps aeps s h) (
        if-holds P (state.count == 6) _ _ (compute_lengths_6_signals-IsRecorded eps aeps s h) (
          if_true-holds P (ltb 6 state.count) _ _
            (λ e. Measurable-IsRecorded _ (
              compute_lengths_many_signals-Measurable eps aeps state
                (record s { count_signals = s.count_signals + 1 }) (ltb→lt 6 state.count e)
                (record { headers_some = h.headers_some; repeats_some = h.repeats_some })))
            h))

  end_of_signal-IsRecorded :
      (state : LengthsState) (s : Recording)
      → IsRecorded s
      → IsRecorded (end_of_signal eps aeps state s)
  unfolding end_of_signal
  end_of_signal-IsRecorded state s h = with_others-IsRecorded s _ _ s.signals 0 s.lastmaxcount h

  still_no_gap-IsRecorded :
      (r : RemoteConf) (state : LengthsState) (s : Recording)
      → IsRecorded s
      → IsRecorded (still_no_gap eps aeps r state s).recording
  unfolding still_no_gap
  still_no_gap-IsRecorded r state s h =
      if-holds (λ (c : Captured). IsRecorded c.recording)
        (ltb (samples * max_signals * 2) state.count) _ _ h h

  module _ (r : RemoteConf) (force : Bool) where
    scan_gaps-IsRecorded :
        (state : LengthsState) (s : Recording)
        → IsRecorded s
        → IsRecorded (scan_gaps r state s force).recording
    unfolding scan_gaps
    scan_gaps-IsRecorded state s h = elim (Option-cases (scan_gap s.sums 0).found) [
      | inr e ↦ rw (scan_gaps, e.1) h
      | inl e ↦ elim (Option-cases (scan_gap s.gaps (scan_gap s.sums 0).maxcount).found) [
        | inr e' ↦ rw (scan_gaps, e, e'.1) h
        | inl e' ↦
            rw (scan_gaps, e, e')
              (with_others-IsRecorded s s.sums s.gaps s.signals s.count_spaces _ h)
      ]
    ]

    look_for_gap-IsRecorded :
        (state : LengthsState) (s : Recording)
        → IsRecorded s
        → IsRecorded (look_for_gap eps aeps r state s force).recording
    unfolding look_for_gap
    look_for_gap-IsRecorded state s h =
        let P : Captured → Type 0 = λ c. IsRecorded c.recording in
        if-holds P (not (is_space state.current)) _ _ (still_no_gap-IsRecorded r state s h) (
          if-holds P (state.average == 0) _ _
            (if-holds P (ltb 100000 state.current) _ _ h (still_no_gap-IsRecorded r _ s h))
            (if-holds P (is_gap state s state.current) _ _
              (scan_gaps-IsRecorded _ (end_of_signal eps aeps state s)
                (end_of_signal-IsRecorded state s h))
              (still_no_gap-IsRecorded r _ (record s { count_spaces = s.count_spaces + 1 })
                (with_others-IsRecorded s s.sums s.gaps s.signals (s.count_spaces + 1)
                  s.lastmaxcount h))))

    pub find_gap-IsRecorded :
        (resolution : ℕ) (state : LengthsState) (s : Recording)
        → IsRecorded s
        → IsRecorded (find_gap resolution eps aeps r state s force).recording
    unfolding find_gap
    find_gap-IsRecorded resolution state s h =
        if-holds (λ (c : Captured). IsRecorded c.recording)
          (not (state.total == 0) || is_pulse state.current) _ _ (look_for_gap-IsRecorded _ s h) h
