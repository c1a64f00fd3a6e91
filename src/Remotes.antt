-- ===== src/Remotes.antt =====
-- The questions of lib/ir_remote.c about the whole list of remotes, and about the buttons of one.
-- `strcasecmp` is compared on ASCII letters.
pub mod Range
use lirc.Base.{ℕ, ◌+◌, ◌≤◌, Bool, true, false, ◌&&◌, ltb, leb, ◌==◌, if◌then◌else◌}
use lirc.Base.{List, [], ◌∷◌, map, same_bytes, Option, none, some}
use lirc.Remote.{IrRemote, IrNcode, RemoteConf, CodeRef, in_codes, ncode_eof, ncode_eof_value, Name}
use lirc.Remote.Tolerance.{upper_limit, lower_limit}

-- The loop of `get_frequency_range` over the remotes after the first.
unfoldable pub range_loop : ℕ → ℕ → List RemoteConf → ℕ × ℕ
range_loop lo hi [] = (lo, hi)
range_loop lo hi (r ∷ rs) =
    if r.freq == 0
    then range_loop lo hi rs
    else if ltb hi r.freq
    then range_loop lo r.freq rs
    else if ltb r.freq lo
    then range_loop r.freq hi rs
    else range_loop lo hi rs

-- The lowest and the highest frequency.
unfoldable pub get_frequency_range : List RemoteConf → ℕ × ℕ
unfolding range_loop
get_frequency_range [] = (0, 0)
get_frequency_range (r ∷ rs) = range_loop r.freq r.freq rs

pub record Filter : Type 0 where
  pub max_gap_length : ℕ
  pub min_pulse_length : ℕ
  pub min_space_length : ℕ
  pub max_pulse_length : ℕ
  pub max_space_length : ℕ

abbrev larger : ℕ → ℕ → ℕ
larger val best = if ltb best val then val else best

-- One round of the loop of `get_filter_parameters`.
unfoldable pub widen : ℕ → Filter → RemoteConf → Filter
widen resolution f r =
    let low_pulse = lower_limit resolution r r.min_pulse_length in
    let low_space = lower_limit resolution r r.min_space_length in
    record {
      max_gap_length = larger (upper_limit resolution r r.max_gap_length) f.max_gap_length;
      min_pulse_length =
          if f.min_pulse_length == 0
          then low_pulse
          else if ltb low_pulse f.min_pulse_length
          then low_pulse
          else f.min_pulse_length;
      min_space_length =
          if f.min_space_length == 0
          then low_space
          else if ltb f.min_space_length low_space
          then low_space
          else f.min_space_length;
      max_pulse_length = larger (upper_limit resolution r r.max_pulse_length) f.max_pulse_length;
      max_space_length = larger (upper_limit resolution r r.max_space_length) f.max_space_length;
    }

unfoldable pub filter_loop : ℕ → Filter → List RemoteConf → Filter
unfolding widen
filter_loop resolution f [] = f
filter_loop resolution f (r ∷ rs) = filter_loop resolution (widen resolution f r) rs

unfoldable pub get_filter_parameters : ℕ → List RemoteConf → Filter
unfolding filter_loop
get_filter_parameters resolution rs =
    filter_loop resolution
      record {
        max_gap_length = 0;
        min_pulse_length = 0;
        min_space_length = 0;
        max_pulse_length = 0;
        max_space_length = 0;
      }
      rs

abbrev lower : ℕ → ℕ
lower c = if leb 65 c && leb c 90 then c + 32 else c

-- The loop of `get_code_by_name`, from index `i` on.
unfoldable pub name_loop : Name → ℕ → List IrNcode → Option CodeRef
name_loop name i [] = none
name_loop name i (c ∷ cs) =
    let rest = name_loop name (i + 1) cs in
    if same_bytes (map lower c.name) (map lower name) then some (in_codes i) else rest

unfoldable pub get_code_by_name : IrRemote → Name → Option CodeRef
unfolding name_loop
get_code_by_name r name =
    let eof = if same_bytes name ncode_eof_value.name then some ncode_eof else none in
    if same_bytes r.name (b'l' ∷ b'i' ∷ b'r' ∷ b'c' ∷ []) then eof else name_loop name 0 r.codes
