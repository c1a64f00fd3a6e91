-- ===== src/Irrecord.antt =====
-- Recording an unknown remote, lib/irrecord.c and lib/irrecord.h: the histograms of durations that
-- the signals of a remote are sorted into, what is concluded from them, and the rearranging of the
-- codes that were recorded.
pub mod Histogram
pub mod Data
pub mod Analyse
pub mod Capture
pub mod Press
pub mod Emulation
use lirc.Base.{ℕ, List, Bool}

-- `struct lengths`: the durations that fell into one interval. `next` is the rest of a list.
pub record Lengths : Type 0 where
  pub count : ℕ
  pub sum : ℕ
  pub upper_bound : ℕ
  pub lower_bound : ℕ
  pub min : ℕ
  pub max : ℕ

-- The static variables of irrecord.c, each named for the durations in it.
pub record Recording : Type 0 where
  pub spaces : List Lengths
  pub pulses : List Lengths
  pub sums : List Lengths
  pub gaps : List Lengths
  pub repeat_gaps : List Lengths
  pub signal_lengths : List Lengths
  pub headerp : List Lengths
  pub headers : List Lengths
  pub leads1 : List Lengths
  pub leads3 : List Lengths
  pub trails : List Lengths
  pub repeatp : List Lengths
  pub repeats : List Lengths
  -- `first_pulse` is an item whose `next` is the item itself.
  pub pulses_cyclic : Bool
  pub lengths : List ℕ
  pub signals : List ℕ
  pub first_length : ℕ
  pub first_lengths : ℕ
  pub second_lengths : ℕ
  pub count_spaces : ℕ
  pub count_signals : ℕ
  pub count_3repeats : ℕ
  pub count_5repeats : ℕ
  pub lastmaxcount : ℕ
