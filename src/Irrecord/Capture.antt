-- ===== src/Irrecord/Capture.antt =====
-- `get_lengths` of lib/irrecord.c: one duration from the driver, sorted into the histograms. First
-- the gap between signals is looked for, then the signals are measured.
pub mod Signals
pub mod Gap
pub mod Step
pub mod Filled
pub mod Safe
pub mod SafeData
pub mod Run
pub mod Kept
pub mod KeptGap
pub mod NoNull
use lirc.Base.{ℕ, zero, suc, ◌+◌, ◌-◌, ◌*◌, ◌/◌, ◌%◌, ◌^◌, min, max, List, [], ◌∷◌, Option, none}
use lirc.Base.{some, Bool, true, false, not, ◌&&◌, ◌||◌, ltb, leb, ◌==◌, if◌then◌else◌, get_or, set}

abbrev pub samples : ℕ
samples = 80

abbrev pub max_signals : ℕ
max_signals = 200

abbrev pub min_gap_time : ℕ
min_gap_time = 20000

pub data AnalyseMode : Type 0 where
  mode_get_gap : AnalyseMode
  mode_have_gap : AnalyseMode

pub data LengthsStatus : Type 0 where
  len_ok : LengthsStatus
  len_fail : LengthsStatus
  len_raw_ok : LengthsStatus
  len_timeout : LengthsStatus
  len_again : LengthsStatus
  len_again_info : LengthsStatus
  len_no_gap_found : LengthsStatus
  len_too_long : LengthsStatus

-- `struct lengths_state`. `first_signal` is -1 at the start: `none`.
pub record LengthsState : Type 0 where
  pub keypresses : ℕ
  pub retval : Bool
  pub count : ℕ
  pub current : ℕ
  pub average : ℕ
  pub maxspace : ℕ
  pub total : ℕ
  pub remaining_gap : ℕ
  pub header : ℕ
  pub first_signal : Option Bool
  pub mode : AnalyseMode
