-- ===== src/Irrecord/Capture/Signals.antt =====
-- One complete signal in the histograms, lib/irrecord.c: `compute_lengths_4_signals`,
-- `compute_lengths_6_signals` and `compute_lengths_many_signals`.
use lirc.Base.{ℕ, zero, suc, ◌+◌, ◌-◌, ◌%◌, ◌^◌, List, some, Bool, true, false}
use lirc.Base.{not, ◌&&◌, ◌||◌, ltb, ◌==◌, if◌then◌else◌, get_or, set}
use lirc.Irrecord.{Lengths, Recording}
use lirc.Irrecord.Histogram.{add_and_merge}
use lirc.Irrecord.Data.{minus32}
use lirc.Irrecord.Capture.{LengthsState}

-- `signals[i]` and `lengths[i]++`.
abbrev pub signal_at : Recording → ℕ → ℕ
signal_at s i = get_or s.signals i 0

abbrev pub one_longer : List ℕ → ℕ → List ℕ
one_longer lengths i = set lengths i ((get_or lengths i 0 + 1) % 2 ^ 32)

abbrev pub one_shorter : List ℕ → ℕ → List ℕ
one_shorter lengths i = set lengths i (minus32 (get_or lengths i 0) 1)

-- The `lengths_state` and the recording.
pub record SignalCounted : Type 0 where
  pub state : LengthsState
  pub recording : Recording

abbrev pub is_first : LengthsState → Bool
is_first state = elim state.first_signal [ some true ↦ true | _ ↦ false ]

abbrev pub is_repeated : LengthsState → Bool
is_repeated state = elim state.first_signal [ some false ↦ true | _ ↦ false ]

-- A repeated signal that is shorter by its header is counted with the header.
unfoldable pub count_as_first : Recording → ℕ → Recording
count_as_first s n = record s {
  lengths = one_longer (one_shorter s.lengths n) (n + 2);
  second_lengths = s.second_lengths + 1;
}

-- `eps` and `aeps` are the variables of irrecord.c.
module _ (eps aeps : ℕ) where
  abbrev count_signal : List Lengths → ℕ → List Lengths
  count_signal = add_and_merge eps aeps

  unfoldable pub compute_lengths_4_signals : Recording → Recording
  compute_lengths_4_signals s = record s {
    repeatp = count_signal s.repeatp (signal_at s 0);
    repeats = count_signal s.repeats (signal_at s 1);
    trails = count_signal s.trails (signal_at s 2);
    repeat_gaps = count_signal s.repeat_gaps (signal_at s 3);
  }

  unfoldable pub compute_lengths_6_signals : Recording → Recording
  compute_lengths_6_signals s = record s {
    headerp = count_signal s.headerp (signal_at s 0);
    headers = count_signal s.headers (signal_at s 1);
    repeatp = count_signal s.repeatp (signal_at s 2);
    repeats = count_signal s.repeats (signal_at s 3);
    trails = count_signal s.trails (signal_at s 4);
    repeat_gaps = count_signal s.repeat_gaps (signal_at s 5);
  }

  -- The data bits, from index `i` on, `left` of them.
  unfoldable pub data_loop : ℕ → ℕ → Recording → Recording
  data_loop zero i s = s
  data_loop (suc left) i s = data_loop left (i + 1) (
      if i % 2 == 0
      then record s { pulses = count_signal s.pulses (signal_at s i) }
      else record s { spaces = count_signal s.spaces (signal_at s i) })

  -- The first signal of a key press, or one whose length is not that of a repeat: it has a header.
  unfoldable pub header_signals : Recording → Recording
  header_signals s = record s {
    leads3 = count_signal s.leads3 (signal_at s 2);
    headerp = count_signal s.headerp (signal_at s 0);
    headers = count_signal s.headers (signal_at s 1);
  }

  -- All but the header; `count - 2` is the index of the trail.
  unfoldable pub many_signals : LengthsState → Recording → Recording
  unfolding data_loop
  many_signals state s =
      let s1 = record s { leads1 = count_signal s.leads1 (signal_at s 0) } in
      let s2 = data_loop (state.count - 4) 2 s1 in
      record s2 {
        trails = count_signal s2.trails (signal_at s (state.count - 2));
        lengths = one_longer s2.lengths (state.count - 2);
        signal_lengths = count_signal s2.signal_lengths (state.total - state.current);
      }

  unfoldable pub compute_lengths_many_signals : LengthsState → Recording → SignalCounted
  unfolding many_signals header_signals count_as_first
  compute_lengths_many_signals state s =
      let n = state.count - 2 in
      let s1 = many_signals state s in
      let other_length = ltb 2 s1.first_length && not (s1.first_length - 2 == n) in
      let s2 = if is_first state || other_length then header_signals s1 else s1 in
      if is_first state
      then record {
        state = record state { header = signal_at s 0 + signal_at s 1 };
        recording = record s2 { first_length = n; first_lengths = s2.first_lengths + 1 };
      }
      else record {
        state = state;
        recording =
            if is_repeated state && minus32 s2.first_length 2 == n then count_as_first s2 n else s2;
      }
