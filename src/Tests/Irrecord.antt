-- ===== src/Tests/Irrecord.antt =====
-- The histograms and the codes of lib/irrecord.c at concrete inputs.
use mathlib.Core.List.{Perm}
use lirc.Base.{
  true, ℕ, zero, suc, ◌+◌, ◌≡◌, refl, arith, [], ◌∷◌, none, some, get_elem?, false, ◌⊎◌,
}
use lirc.Base.Text.{bytes}
use lirc.Remote.{IrRemote, IrNcode, Timeval}
use lirc.Remote.Code.{gen_mask}
use lirc.Transmit.{send_buffer_init}
use lirc.Transmit.Frame.{send_code}
use lirc.Irrecord.Histogram.{MaxLength, get_max_length, new_length, unlink_length}
use lirc.Irrecord.Histogram.Items.{AllSummaries, no_item, total_count, total_sum}
use lirc.Irrecord.Histogram.Laws.{record_all, record_all-AllSummaries}
use lirc.Irrecord.Histogram.Most.{AllAtMost, get_max_length-AllAtMost}
use lirc.Irrecord.Data.{get_pre_data, remove_pre_data, invert_data, all_codes}
use lirc.Irrecord.Data.Agree.{AllFit, one_more, no_more}
use lirc.Irrecord.Data.Laws.{alone, remove_pre_data-get_pre_data}
use lirc.Irrecord.Data.Signal.{IsPlain}
use lirc.Irrecord.Data.Inverted.{button_codes, send_code-invert_data}
use lirc.Irrecord.{Recording}
use lirc.Irrecord.Capture.Run.{lengths_state_init, analyse_get_lengths, follows_null}
use lirc.Irrecord.Capture.Kept.{IsRecorded}
use lirc.Irrecord.Capture.NoNull.{analyse_get_lengths-follows_null}
use lirc.Base.{List}
use lirc.Irrecord.Press.{GapState, gap_state_init, get_gap_length, elapsed32}
use lirc.Irrecord.Press.Run.{
  FindsGap, FindsNone, Reached, started, first_press, get_gap_length-FindsGap,
}
use lirc.Irrecord.Emulation.{Emulation, emulated_reads}
use lirc.Tests.{tv}

abbrev key : ℕ → IrNcode
key code = record {
  name = bytes "KEY";
  code = code;
  signals = none;
  next = [];
  current = none;
  transmit_state = none;
}

-- Two codes of 32 bits with the upper 16 in common.
abbrev recorded : IrRemote
recorded = record tv {
  conf = record tv.conf { bits = 32; pre_data_bits = 0; pre_data = 0 };
  codes = key 0x20df10ef ∷ key 0x20df8877 ∷ [];
}

recorded_pre : (get_pre_data recorded).pre_data_bits ≡ 16
unfolding get_pre_data
recorded_pre = refl

recorded_codes-AllFit : AllFit 32 (all_codes recorded.codes)
unfolding all_codes
recorded_codes-AllFit = one_more (omega arith) (one_more (omega arith) no_more)

remove_pre_data-get_pre_data_example : remove_pre_data (get_pre_data recorded) ≡ recorded
remove_pre_data-get_pre_data_example =
    remove_pre_data-get_pre_data recorded refl refl refl refl (omega arith) (alone refl)
      recorded_codes-AllFit

-- The button of `tv`, and a button with a further code.
abbrev two_buttons : IrRemote
two_buttons = record tv { codes = key 6 ∷ record (key 1) { next = 5 ∷ [] } ∷ [] }

two_buttons-IsPlain : IsPlain two_buttons
unfolding lirc.Remote.Flags.is_biphase lirc.Remote.Flags.is_rc5 lirc.Remote.Flags.is_rc6
    lirc.Remote.Flags.protocol
two_buttons-IsPlain = record {
  no_toggle_bit = refl;
  no_toggle_mask = refl;
  no_rc6_mask = refl;
  not_biphase = refl;
}

-- Three bits, inverted.
two_buttons_inverted : all_codes (invert_data two_buttons).codes ≡ 1 ∷ 6 ∷ 2 ∷ []
unfolding all_codes invert_data gen_mask
two_buttons_inverted = refl

-- The further code of the second button.
send_code-invert_data_example :
    (c' : IrNcode) × (code' : ℕ) × (get_elem? (invert_data two_buttons).codes 1 ≡ some c')
    × (c'.name ≡ bytes "KEY")
    × (get_elem? (button_codes c') 1 ≡ some code')
    × (send_code (invert_data two_buttons) code' false send_buffer_init
        ≡ send_code two_buttons 5 false send_buffer_init)
unfolding lirc.Remote.Flags.is_rcmm lirc.Remote.Flags.is_xmp lirc.Remote.Flags.protocol
send_code-invert_data_example =
    send_code-invert_data two_buttons 1 1 (record (key 1) { next = 5 ∷ [] }) 5 false
      send_buffer_init two_buttons-IsPlain refl refl (omega arith) (omega arith) (omega arith) refl
      refl

record_all-AllSummaries_example :
    (total_count (record_all 30 100 [] (560 ∷ 1690 ∷ 640 ∷ [])) ≡ total_count [] + 3)
    × (total_sum (record_all 30 100 [] (560 ∷ 1690 ∷ 640 ∷ [])) ≡ total_sum [] + 2890)
    × AllSummaries (record_all 30 100 [] (560 ∷ 1690 ∷ 640 ∷ []))
record_all-AllSummaries_example =
    record_all-AllSummaries 30 100 [] (560 ∷ 1690 ∷ 640 ∷ []) (omega arith) no_item

get_max_length-AllAtMost_example :
    (m : MaxLength) × (get_max_length (new_length 560 ∷ new_length 1690 ∷ []) ≡ some m)
    × (get_elem? (new_length 560 ∷ new_length 1690 ∷ []) m.position ≡ some m.item)
    × AllAtMost m.item.count (new_length 560 ∷ new_length 1690 ∷ [])
    × (m.total ≡ total_count (new_length 560 ∷ new_length 1690 ∷ []))
    × Perm
        (m.item ∷ unlink_length (new_length 560 ∷ new_length 1690 ∷ []) m.position)
        (new_length 560 ∷ new_length 1690 ∷ [])
get_max_length-AllAtMost_example = get_max_length-AllAtMost (new_length 560) (new_length 1690 ∷ [])

abbrev zeros : ℕ → List ℕ
zeros zero = []
zeros (suc n) = 0 ∷ zeros n

abbrev at_start : Recording
at_start = record {
  spaces = [];
  pulses = [];
  sums = [];
  gaps = [];
  repeat_gaps = [];
  signal_lengths = [];
  headerp = [];
  headers = [];
  leads1 = [];
  leads3 = [];
  trails = [];
  repeatp = [];
  repeats = [];
  pulses_cyclic = false;
  lengths = zeros 200;
  signals = zeros 200;
  first_length = 0;
  first_lengths = 0;
  second_lengths = 0;
  count_spaces = 0;
  count_signals = 0;
  count_3repeats = 0;
  count_5repeats = 0;
  lastmaxcount = 0;
}

at_start-IsRecorded : IsRecorded at_start
at_start-IsRecorded = record {
  measurable = λ p. absurd (omega arith);
  headers_some = λ p. p;
  repeats_some = λ p. absurd (omega arith);
}

abbrev at : ℕ → Timeval
at t = record { tv_sec = 5; tv_usec = t }

-- After the first press.
abbrev after_first : GapState
after_first = (get_gap_length 30 100 tv.conf gap_state_init true (at 0) (at 10000)).state

after_first-Reached : Reached 30 100 tv.conf [] after_first
unfolding gap_state_init
after_first-Reached = first_press (at 0) (at 10000) refl started

-- The next press comes 30 ms after the end of the first one.
get_gap_length-FindsGap_example :
    let c = get_gap_length 30 100 tv.conf after_first true (at 40000) (at 50000) in
    let gaps = record_all 30 100 [] (elapsed32 after_first.last_end (at 40000) ∷ []) in
    (total_count gaps ≡ 1) × (FindsGap gaps tv.conf c ⊎ FindsNone gaps tv.conf c)
unfolding gap_state_init get_gap_length lirc.Remote.time_elapsed
get_gap_length-FindsGap_example =
    get_gap_length-FindsGap 30 100 tv.conf [] after_first (at 40000) (at 50000) after_first-Reached
      refl (omega arith)

abbrev raw_key : IrNcode
raw_key = record (key 1) { signals = some (900 ∷ 450 ∷ 560 ∷ []) }

abbrev raw_tv : IrRemote
raw_tv = record tv { codes = raw_key ∷ [] }

abbrev first_read : Emulation
first_read = record {
  next_code = none;
  current_code = none;
  current_index = 0;
  current_rep = 0;
  sum = 0;
}

-- The start, the code, the gap and the code again.
raw_tv_reads :
    emulated_reads raw_tv first_read 7
    ≡ 1000000 ∷ 0x01000384 ∷ 450 ∷ 0x01000230 ∷ 40000 ∷ 0x01000384 ∷ 450 ∷ []
unfolding emulated_reads lirc.Remote.Flags.is_const lirc.Remote.Flags.has_flag
raw_tv_reads = refl

-- The loop reads from the driver that is emulated.
analyse_get_lengths-follows_null_example :
    follows_null (
      analyse_get_lengths 0 30 100 tv.conf lengths_state_init at_start
        (emulated_reads raw_tv first_read 20))
    ≡ false
analyse_get_lengths-follows_null_example =
    analyse_get_lengths-follows_null 0 30 100 tv.conf lengths_state_init at_start
      (emulated_reads raw_tv first_read 20) at_start-IsRecorded
