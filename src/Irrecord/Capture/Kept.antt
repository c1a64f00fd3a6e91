-- ===== src/Irrecord/Capture/Kept.antt =====
-- What `get_lengths` of lib/irrecord.c keeps while it records: the histograms that the analysis will
-- read are filled as soon as a signal has been counted.
use mathlib.Core.Path.{subst}
use lirc.Base.{ℕ, zero, suc, ◌+◌, ◌-◌, ◌%◌, ◌<◌, ◌≡◌, arith, List}
use lirc.Base.{Bool, true, false, if◌then◌else◌, ltb, ◌==◌, not, ◌&&◌, ◌||◌, Bool-cases, inl, inr}
use lirc.Irrecord.{Lengths, Recording}
use lirc.Irrecord.Histogram.{add_and_merge}
use lirc.Irrecord.Capture.{LengthsState}
use lirc.Irrecord.Capture.Signals.{compute_lengths_4_signals, compute_lengths_6_signals, data_loop}
use lirc.Irrecord.Capture.Signals.{many_signals, header_signals, count_as_first, SignalCounted}
use lirc.Irrecord.Capture.Signals.{compute_lengths_many_signals, signal_at, is_first}
use lirc.Irrecord.Capture.Filled.{Filled, add_and_merge-Filled}
use lirc.Irrecord.Capture.Safe.{Measurable}

pub record IsRecorded (s : Recording) : Type 0 where
  pub measurable : 0 < s.count_signals → Measurable s
  pub headers_some : Filled s.headerp → Filled s.headers
  pub repeats_some :
      0 < s.count_3repeats + s.count_5repeats
      → Filled s.repeatp × Filled s.repeats × Filled s.repeat_gaps

pub Measurable-IsRecorded : (s : Recording) → Measurable s → IsRecorded s
Measurable-IsRecorded s h = record {
  measurable = λ p. h;
  headers_some = h.headers_some;
  repeats_some = h.repeats_some;
}

-- Histograms of headers and of repeats are filled together.
pub record IsPaired (s : Recording) : Type 0 where
  pub headers_some : Filled s.headerp → Filled s.headers
  pub repeats_some :
      0 < s.count_3repeats + s.count_5repeats
      → Filled s.repeatp × Filled s.repeats × Filled s.repeat_gaps

-- A recording with the data of the signal but without its end.
record Loaded (s : Recording) : Type 0 where
  pulses_some : Filled s.pulses
  spaces_some : Filled s.spaces
  leads_some : Filled s.leads1
  headers_some : Filled s.headerp → Filled s.headers
  repeats_some :
      0 < s.count_3repeats + s.count_5repeats
      → Filled s.repeatp × Filled s.repeats × Filled s.repeat_gaps

module _ (eps aeps : ℕ) where
  filled : (ls : List Lengths) (d : ℕ) → Filled (add_and_merge eps aeps ls d)
  filled = add_and_merge-Filled eps aeps

  pub compute_lengths_4_signals-IsRecorded :
      (s : Recording)
      → IsRecorded s
      → IsRecorded
          (compute_lengths_4_signals eps aeps (record s { count_3repeats = s.count_3repeats + 1 }))
  unfolding compute_lengths_4_signals
  compute_lengths_4_signals-IsRecorded s h = record {
    measurable = λ p.
        let m = h.measurable p in
        record {
          pulses_some = m.pulses_some;
          spaces_some = m.spaces_some;
          leads_some = m.leads_some;
          trails_some = filled _ _;
          signals_some = m.signals_some;
          headers_some = m.headers_some;
          repeats_some = λ q. (filled _ _, filled _ _, filled _ _);
        };
    headers_some = h.headers_some;
    repeats_some = λ q. (filled _ _, filled _ _, filled _ _);
  }

  pub compute_lengths_6_signals-IsRecorded :
      (s : Recording)
      → IsRecorded s
      → IsRecorded
          (compute_lengths_6_signals eps aeps (record s { count_5repeats = s.count_5repeats + 1 }))
  unfolding compute_lengths_6_signals
  compute_lengths_6_signals-IsRecorded s h = record {
    measurable = λ p.
        let m = h.measurable p in
        record {
          pulses_some = m.pulses_some;
          spaces_some = m.spaces_some;
          leads_some = m.leads_some;
          trails_some = filled _ _;
          signals_some = m.signals_some;
          headers_some = λ q. filled _ _;
          repeats_some = λ q. (filled _ _, filled _ _, filled _ _);
        };
    headers_some = λ q. filled _ _;
    repeats_some = λ q. (filled _ _, filled _ _, filled _ _);
  }

  data_loop-Loaded : (left i : ℕ) (s : Recording) → Loaded s → Loaded (data_loop eps aeps left i s)
  unfolding data_loop
  data_loop-Loaded zero i s h = h
  data_loop-Loaded (suc left) i s h =
      data_loop-Loaded left (i + 1) _ (elim (Bool-cases (i % 2 == 0)) [
        | inl e ↦ rw e (record {
          pulses_some = filled _ _;
          spaces_some = h.spaces_some;
          leads_some = h.leads_some;
          headers_some = h.headers_some;
          repeats_some = h.repeats_some;
        })
        | inr e ↦ rw e (record {
          pulses_some = h.pulses_some;
          spaces_some = filled _ _;
          leads_some = h.leads_some;
          headers_some = h.headers_some;
          repeats_some = h.repeats_some;
        })
      ])

  -- The first two durations of the data are a pulse and a space.
  data_loop-both :
      (left : ℕ) (s : Recording)
      → Filled s.leads1
      → IsPaired s
      → Loaded (data_loop eps aeps (suc (suc left)) 2 s)
  unfolding data_loop
  data_loop-both left s f h = data_loop-Loaded left 4 _ (record {
    pulses_some = filled _ _;
    spaces_some = filled _ _;
    leads_some = f;
    headers_some = h.headers_some;
    repeats_some = h.repeats_some;
  })

  many_signals-Measurable :
      (state : LengthsState) (s : Recording)
      → 6 < state.count
      → IsPaired s
      → Measurable (many_signals eps aeps state s)
  unfolding many_signals
  many_signals-Measurable state s p h =
      let s1 : Recording = record s { leads1 = add_and_merge eps aeps s.leads1 (signal_at s 0) } in
      let width : suc (suc (state.count - 6)) ≡ state.count - 4 = omega arith in
      let loaded : Loaded (data_loop eps aeps (state.count - 4) 2 s1) =
        subst (λ n. Loaded (data_loop eps aeps n 2 s1)) width
          (data_loop-both (state.count - 6) s1 (filled _ _)
            (record { headers_some = h.headers_some; repeats_some = h.repeats_some })) in
      record {
        pulses_some = loaded.pulses_some;
        spaces_some = loaded.spaces_some;
        leads_some = loaded.leads_some;
        trails_some = filled _ _;
        signals_some = filled _ _;
        headers_some = loaded.headers_some;
        repeats_some = loaded.repeats_some;
      }

  header_signals-Measurable :
      (s : Recording) → Measurable s → Measurable (header_signals eps aeps s)
  unfolding header_signals
  header_signals-Measurable s h = record {
    pulses_some = h.pulses_some;
    spaces_some = h.spaces_some;
    leads_some = h.leads_some;
    trails_some = h.trails_some;
    signals_some = h.signals_some;
    headers_some = λ q. filled _ _;
    repeats_some = h.repeats_some;
  }

-- What the analysis reads does not depend on the array of signal lengths and its counters.
with_lengths-Measurable :
    (s : Recording) (ls : List ℕ) (a b c : ℕ)
    → Measurable s
    → Measurable
        (record s { lengths = ls; first_length = a; first_lengths = b; second_lengths = c })
with_lengths-Measurable s ls a b c h = record {
  pulses_some = h.pulses_some;
  spaces_some = h.spaces_some;
  leads_some = h.leads_some;
  trails_some = h.trails_some;
  signals_some = h.signals_some;
  headers_some = h.headers_some;
  repeats_some = h.repeats_some;
}

pub if-holds :
    {A : Type 0} (P : A → Type 0) (b : Bool) (x y : A) → P x → P y → P (if b then x else y)
if-holds P true x y p q = p
if-holds P false x y p q = q

module _ (eps aeps : ℕ) where
  pub compute_lengths_many_signals-Measurable :
      (state : LengthsState) (s : Recording)
      → 6 < state.count
      → IsPaired s
      → Measurable (compute_lengths_many_signals eps aeps state s).recording
  unfolding compute_lengths_many_signals count_as_first
  compute_lengths_many_signals-Measurable state s p h =
      let s1 = many_signals eps aeps state s in
      let m1 = many_signals-Measurable eps aeps state s p h in
      let s2 : Recording =
        if is_first state || ltb 2 s1.first_length && not (s1.first_length - 2 == state.count - 2)
        then header_signals eps aeps s1
        else s1 in
      let m2 : Measurable s2 =
        if-holds Measurable _ _ _ (header_signals-Measurable eps aeps s1 m1) m1 in
      if-holds (λ (c : SignalCounted). Measurable c.recording) (is_first state) _ _
        (with_lengths-Measurable s2 s2.lengths (state.count - 2) (s2.first_lengths + 1)
          s2.second_lengths m2)
        (if-holds Measurable _ _ _
          (with_lengths-Measurable s2 _ s2.first_length s2.first_lengths (s2.second_lengths + 1) m2)
          m2)
