-- ===== src/Config.antt =====
-- The data of lib/config_file.c: a remote while its section is read, and how a step can end.
-- Where the file gives a negative number for a field that the remotes of this model hold as a
-- natural number, the step ends in `outside`; nothing is claimed of such a file.
pub mod Numbers
pub mod Flags
pub mod Array
pub mod Define
pub mod Check
pub mod Sort
pub mod Lengths
pub mod Finish
pub mod Include
pub mod Lines
pub mod Sections
pub mod Read
pub mod Dump
use lirc.Base.{ℕ, Bool, false, ltb, if◌then◌else◌, List, [], Option, none, some}
use lirc.Base.Int.{ℤ, pos, neg_part, pos_part}
use lirc.Remote.{RemoteConf, IrNcode, Name}

-- `struct ir_remote` as the parser fills it; `named` tells whether `name` is set. The name itself,
-- and every other field that the rest of the program reads, stands in `conf`.
pub record Draft : Type 0 where
  pub named : Bool
  pub conf : RemoteConf
  pub driver : Option Name
  pub dyncodes_name : Option Name
  pub dyncodes_named : Option Name
  pub toggle_bit : ℕ
  pub manual_sort : ℕ
  pub codes : Option (List IrNcode)
  pub toggle_bit_mask_state : ℕ
  pub min_total_signal_length : ℕ

-- `s_malloc` gives zeroes.
abbrev pub zero_conf : RemoteConf
zero_conf = record {
  name = [];
  bits = 0;
  flags = 0;
  eps = 0;
  aeps = 0;
  phead = 0;
  shead = 0;
  pthree = 0;
  sthree = 0;
  ptwo = 0;
  stwo = 0;
  pone = 0;
  sone = 0;
  pzero = 0;
  szero = 0;
  plead = 0;
  ptrail = 0;
  pfoot = 0;
  sfoot = 0;
  prepeat = 0;
  srepeat = 0;
  pre_data_bits = 0;
  pre_data = 0;
  post_data_bits = 0;
  post_data = 0;
  pre_p = 0;
  pre_s = 0;
  post_p = 0;
  post_s = 0;
  gap = 0;
  gap2 = 0;
  repeat_gap = 0;
  toggle_bit_mask = 0;
  suppress_repeat = 0;
  min_repeat = 0;
  min_code_repeat = 0;
  freq = 0;
  duty_cycle = 0;
  toggle_mask = 0;
  rc6_mask = 0;
  baud = 0;
  bits_in_byte = 0;
  parity = 0;
  stop_bits = 0;
  ignore_mask = 0;
  repeat_mask = 0;
  max_total_signal_length = 0;
  min_gap_length = 0;
  max_gap_length = 0;
  min_pulse_length = 0;
  max_pulse_length = 0;
  min_space_length = 0;
  max_space_length = 0;
}

-- A new remote: `s_malloc` and `DEFAULT_FREQ`.
abbrev pub new_draft : Draft
new_draft = record {
  named = false;
  conf = record zero_conf { freq = 38000 };
  driver = none;
  dyncodes_name = none;
  dyncodes_named = none;
  toggle_bit = 0;
  manual_sort = 0;
  codes = none;
  toggle_bit_mask_state = 0;
  min_total_signal_length = 0;
}

-- `crash` is an access through a null pointer.
pub data Outcome (A : Type 0) : Type 0 where
  done : A → Outcome A
  crash outside : Outcome A

infixl 5 ◌>>=◌
abbrev pub ◌>>=◌ : {A B : Type 0} → Outcome A → (A → Outcome B) → Outcome B
done a >>= f = f a
crash >>= f = crash
outside >>= f = outside

-- A number that is stored in a field.
abbrev pub natural : ℤ → Outcome ℕ
natural (pos n) = done n
natural _ = outside
