-- ===== src/Irrecord/Capture/NoNull.antt =====
-- `get_lengths` and `analyse_get_lengths` of lib/irrecord.c follow no null pointer.
use lirc.Base.{ℕ, ◌+◌, ◌-◌, ◌<◌, ◌≡◌, refl, arith, List, [], ◌∷◌}
use lirc.Base.{Bool, true, false, if◌then◌else◌, leb, ◌==◌, not, ◌&&◌, ◌||◌, Bool-cases}
use lirc.Base.{inl, inr, set, bit_and}
use lirc.Remote.{RemoteConf}
use lirc.Remote.Flags.{is_const}
use lirc.Receive.{is_pulse, is_space, is_timeout, pulse_mask}
use lirc.Irrecord.{Recording}
use lirc.Irrecord.Analyse.{Run, settled, null_pointer, endless, Analysed}
use lirc.Irrecord.Capture.{LengthsState, samples, max_signals, mode_get_gap, mode_have_gap, len_ok}
use lirc.Irrecord.Capture.{len_fail, AnalyseMode}
use lirc.Irrecord.Capture.Signals.{SignalCounted}
use lirc.Irrecord.Capture.Gap.{complete_signal, Captured, is_overflow}
use lirc.Irrecord.Capture.Step.{analysed, after_gap, measure_signal, have_gap, find_gap}
use lirc.Irrecord.Capture.Step.{is_final_gap, get_lengths}
use lirc.Irrecord.Capture.Filled.{Safe, safe_settled, safe_endless, if-Safe}
use lirc.Irrecord.Capture.SafeData.{Any, analyse-Safe}
use lirc.Irrecord.Capture.Run.{
  keeps_reading, analyse_get_lengths, Measurement, after_call, follows_null,
}
use lirc.Irrecord.Capture.Kept.{IsRecorded, if-holds}
use lirc.Irrecord.Capture.KeptGap.{with_others-IsRecorded, complete_signal-IsRecorded}
use lirc.Irrecord.Capture.KeptGap.{find_gap-IsRecorded}

-- The invariant holds as long as the loop goes on.
abbrev pub Keeps : Captured → Type 0
Keeps c = keeps_reading c.status ≡ true → IsRecorded c.recording

stops : (b : Bool) → keeps_reading (if b then len_ok else len_fail) ≡ false
unfolding keeps_reading
stops true = refl
stops false = refl

-- After the analysis it does not go on.
analysed-Safe :
    (resolution eps aeps : ℕ) (state : LengthsState) (a : Run Analysed)
    → Safe Any a
    → Safe Keeps (analysed resolution eps aeps state a)
unfolding analysed keeps_reading
analysed-Safe resolution eps aeps state _ safe_endless = safe_endless
analysed-Safe resolution eps aeps state _ (safe_settled {a = a} h) =
    safe_settled (λ e. let over = stops (a.ok && state.retval) in absurd cc)

module _ (resolution eps aeps : ℕ) (r : RemoteConf) where
  after_gap-Safe :
      (state : LengthsState) (s : Recording) (d : ℕ)
      → IsRecorded s
      → Safe Keeps (after_gap resolution eps aeps r state s d)
  unfolding after_gap
  after_gap-Safe state s d h =
      let m : SignalCounted =
        if is_space state.current
        then complete_signal eps aeps state s
        else record { state = state; recording = s } in
      let hm : IsRecorded m.recording =
        if-holds (λ (c : SignalCounted). IsRecorded c.recording) (is_space state.current) _ _
          (complete_signal-IsRecorded eps aeps state s h) h in
      if-Safe Keeps (not (is_space state.current) && is_pulse state.current) _ _
        (λ e. safe_settled (λ g. h))
        (λ e.
          if-Safe Keeps (leb samples m.recording.count_signals) _ _
            (λ many. analysed-Safe resolution eps aeps m.state _ (
              analyse-Safe resolution eps aeps r m.recording (hm.measurable (some_signals _ many))))
            (λ few. safe_settled (λ g. hm)))
    where
      some_signals : (n : ℕ) → leb samples n ≡ true → 0 < n
      some_signals n e = ground arith

  measure_signal-Safe :
      (state : LengthsState) (s : Recording) (d : ℕ)
      → IsRecorded s
      → Safe Keeps (measure_signal resolution eps aeps r state s d)
  unfolding measure_signal
  measure_signal-Safe state s d h =
      let s' : Recording = record s { signals = set s.signals (state.count - 1) d } in
      let h' : IsRecorded s' =
        with_others-IsRecorded s s.sums s.gaps s'.signals s.count_spaces s.lastmaxcount h in
      let state' : LengthsState = record state {
        remaining_gap = if is_const r then r.gap - state.total else r.gap;
        total = state.total + d;
      } in
      if-Safe Keeps (is_final_gap resolution eps aeps state' d) _ _
        (λ e. after_gap-Safe state' s' d h') (λ e. safe_settled (λ g. h'))

  have_gap-Safe :
      (state : LengthsState) (s : Recording)
      → IsRecorded s
      → Safe Keeps (have_gap resolution eps aeps r state s)
  unfolding have_gap
  have_gap-Safe state s h =
      if-Safe Keeps (state.count == 1 && is_space state.current) _ _ (λ e. safe_settled (λ g. h))
        (λ e.
          if-Safe Keeps (leb state.count max_signals) _ _
            (λ e'. measure_signal-Safe state s (bit_and state.current pulse_mask) h)
            (λ e'. safe_settled (λ g. h)))

  -- By the mode, once a duration has come.
  mode-Safe :
      (mode : AnalyseMode) (state : LengthsState) (s : Recording) (force : Bool)
      → IsRecorded s
      → Safe Keeps (elim mode as (λ _. Run Captured) [
        | mode_get_gap ↦ settled (find_gap resolution eps aeps r state s force)
        | mode_have_gap ↦ have_gap resolution eps aeps r state s
      ])
  mode-Safe mode_get_gap state s force h =
      safe_settled (λ g. find_gap-IsRecorded eps aeps r force resolution state s h)
  mode-Safe mode_have_gap state s force h = have_gap-Safe state s h

  get_lengths-Safe :
      (state : LengthsState) (s : Recording) (force : Bool) (read : ℕ)
      → IsRecorded s
      → Safe Keeps (get_lengths resolution eps aeps r state s force read)
  unfolding get_lengths
  get_lengths-Safe state s force read h =
      if-Safe Keeps (read == 0) _ _ (λ e. safe_settled (λ g. h))
        (λ e.
          if-Safe Keeps (is_timeout read || is_overflow read) _ _ (λ e'. safe_settled (λ g. h))
            (λ e'. mode-Safe state.mode _ s force h))

follows_null-Safe : {A : Type 0} (Q : A → Type 0) (a : Run A) → Safe Q a → follows_null a ≡ false
unfolding follows_null
follows_null-Safe Q (settled a) h = refl
follows_null-Safe Q endless h = refl
follows_null-Safe Q null_pointer h = elim h [ ]

after_call-follows_null :
    (a : Run Captured) (k : Captured → Run Measurement)
    → Safe Keeps a
    → ((c : Captured) → Keeps c → follows_null (k c) ≡ false)
    → follows_null (after_call a k) ≡ false
unfolding after_call follows_null
after_call-follows_null _ k (safe_settled {a = c} h) f = f c h
after_call-follows_null _ k safe_endless f = refl

-- The loop of `analyse_get_lengths` never follows a null pointer: whatever durations the driver
-- gives, in whatever state it starts, if the histograms that the analysis reads are filled where the
-- counters say that there was a signal or a repeat, as with empty histograms and counters of 0.
pub analyse_get_lengths-follows_null :
    (resolution eps aeps : ℕ) (r : RemoteConf) (state : LengthsState) (s : Recording)
    (reads : List ℕ)
    → IsRecorded s
    → follows_null (analyse_get_lengths resolution eps aeps r state s reads) ≡ false
unfolding analyse_get_lengths follows_null
analyse_get_lengths-follows_null resolution eps aeps r state s [] h =
    after_call-follows_null _ _ (get_lengths-Safe resolution eps aeps r state s false 0 h)
      (λ c k. refl)
analyse_get_lengths-follows_null resolution eps aeps r state s (d ∷ ds) h =
    after_call-follows_null _ _ (get_lengths-Safe resolution eps aeps r state s false d h) (λ c k.
      elim (Bool-cases (keeps_reading c.status)) [
        | inl e ↦ rw e (
            analyse_get_lengths-follows_null resolution eps aeps c.conf c.state c.recording ds
              (k e))
        | inr e ↦ rw e refl
      ])
