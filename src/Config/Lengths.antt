-- ===== src/Config/Lengths.antt =====
-- `calculate_signal_lengths` of lib/config_file.c: every code is sent to the buffer of lib/transmit.c
-- without a device, once as a first signal and once as a repeat. The longest pulse and space that the
-- source computes are not stored anywhere, and are left out.
use lirc.Base.{ℕ, ◌==◌, Bool, true, false, ◌&&◌, if◌then◌else◌, List, [], ◌∷◌}
use lirc.Base.{Option, none, some}
use lirc.Base.Int.{ℤ, pos, ◌+ℤ◌, ◌-ℤ◌, ltb_ℤ, pos_part, neg_part, to_int32}
use lirc.Remote.{IrRemote, IrNcode, min_gap, max_gap}
use lirc.Remote.Flags.{is_const}
use lirc.Transmit.{SendBuffer, send_buffer_sum}
use lirc.Transmit.Put.{returns, fault, out_of_fuel, init_sim}
use lirc.Config.{Draft, Outcome, done, crash, outside, ◌>>=◌, natural}

-- The remote as lib/transmit.c sees it.
abbrev pub as_remote : Draft → IrRemote
as_remote d = record {
  conf = d.conf;
  identity = 0;
  codes = elim d.codes [ none ↦ [] | some cs ↦ cs ];
  dyncodes = [];
  dyncode = 0;
  toggle_bit_mask_state = d.toggle_bit_mask_state;
  toggle_mask_state = 0;
  repeat_countdown = 0;
  last_code = none;
  toggle_code = none;
  reps = 0;
  last_send = record { tv_sec = 0; tv_usec = 0 };
  min_remaining_gap = 0;
  max_remaining_gap = 0;
  release_detected = false;
}

-- The shortest and the longest signal so far, none while `first_sum` holds.
pub record Measured : Type 0 where
  pub range : Option (ℤ × ℤ)
  pub buffer : SendBuffer

abbrev is_zero : ℤ → Bool
is_zero z = pos_part z == 0 && neg_part z == 0

unfoldable pub include_sum : ℤ → Option (ℤ × ℤ) → Option (ℤ × ℤ)
include_sum sum none = if is_zero sum then none else some (sum, sum)
include_sum sum (some (lo, hi)) =
    if is_zero sum
    then some (lo, hi)
    else some (if ltb_ℤ sum lo then sum else lo, if ltb_ℤ hi sum then sum else hi)

-- One simulation.
unfoldable pub measure : IrRemote → Bool → IrNcode → Measured → Outcome Measured
unfolding include_sum
measure r repeat c m =
    elim (init_sim 1 false repeat (record { remote = r; code = c; buffer = m.buffer })) [
      | fault ↦ crash
      | out_of_fuel ↦ outside
      | returns sent t ↦
          let range = if sent then include_sum (send_buffer_sum t.buffer) m.range else m.range in
          done (record { range = range; buffer = t.buffer })
    ]

-- The code of a button and those of its list, each twice.
unfoldable pub measure_values : IrRemote → IrNcode → List ℕ → Measured → Outcome Measured
unfolding measure
measure_values r c [] m = done m
measure_values r c (v ∷ vs) m =
    let code : IrNcode = record c { code = v } in
    measure r false code m >>= λ m'. measure r true code m' >>= λ m''. measure_values r c vs m''

unfoldable pub measure_codes : IrRemote → List IrNcode → Measured → Outcome Measured
unfolding measure_values
measure_codes r [] m = done m
measure_codes r (c ∷ cs) m = measure_values r c (c.code ∷ c.next) m >>= λ m'. measure_codes r cs m'

abbrev pub above_or_zero : ℤ → ℤ → ℤ
above_or_zero a b = if ltb_ℤ b a then a -ℤ b else pos 0

-- What is stored: shortest and longest signal with its gap, shortest and longest gap.
pub record Stored : Type 0 where
  pub min_total : ℤ
  pub max_total : ℤ
  pub shortest_gap : ℤ
  pub longest_gap : ℤ

unfoldable pub lengths_of : Bool → ℤ → ℤ → Option (ℤ × ℤ) → Stored
lengths_of const low high none = record {
  min_total = low;
  max_total = high;
  shortest_gap = low;
  longest_gap = high;
}
lengths_of const low high (some (shortest, longest)) =
    if const
    then record {
      min_total = low;
      max_total = high;
      shortest_gap = above_or_zero low longest;
      longest_gap = above_or_zero high shortest;
    }
    else record {
      min_total = shortest +ℤ low;
      max_total = longest +ℤ high;
      shortest_gap = low;
      longest_gap = high;
    }

unfoldable pub store_lengths : Draft → Stored → Outcome Draft
store_lengths d s = natural s.min_total >>= λ min_total. natural s.max_total >>= λ max_total.
    natural s.shortest_gap >>= λ min_gap. natural s.longest_gap >>= λ max_gap. done (record d {
      min_total_signal_length = min_total;
      conf = record d.conf {
        max_total_signal_length = max_total;
        min_gap_length = min_gap;
        max_gap_length = max_gap;
      };
    })

-- The codes of a remote without any list are read through the null pointer.
unfoldable pub calculate_signal_lengths : SendBuffer → Draft → Outcome (SendBuffer × Draft)
unfolding measure_codes lengths_of store_lengths
calculate_signal_lengths b d =
    let low = to_int32 (pos (min_gap d.conf)) in
    let high = to_int32 (pos (max_gap d.conf)) in
    elim d.codes [
      | none ↦ crash
      | some cs ↦ measure_codes (as_remote d) cs (record { range = none; buffer = b }) >>= λ m.
          store_lengths d (lengths_of (is_const d.conf) low high m.range) >>= λ e.
          done (m.buffer, e)
    ]
