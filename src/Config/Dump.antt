-- ===== src/Config/Dump.antt =====
-- lib/dump_config.c: a remote printed as a section of a configuration file, as the bytes that are
-- written. The comment at its top (host, time, driver) is left out.
pub mod LineText
pub mod CodeLine
pub mod Section
use lirc.Base.{
  ℕ, zero, suc, ◌+◌, ◌-◌, ◌/◌, ◌%◌, ◌^◌, Bool, true, false, not, ◌&&◌, ltb, ◌==◌, if◌then◌else◌,
}
use lirc.Base.{List, [], ◌∷◌, ◌++◌, length, Option, none, some}
use lirc.Base.Text.{bytes}
use lirc.Remote.{RemoteConf, IrNcode, Name}
use lirc.Remote.Flags.{
  is_raw, is_serial, has_header, has_foot, has_repeat, has_repeat_gap, has_toggle_mask,
  has_ignore_mask,
}
use lirc.Config.{Draft}
use lirc.Config.Flags.{fprint_flags}
use lirc.Config.Numbers.Print.{print_decimal, print_hex}

abbrev pub newline : List ℕ
newline = b'\n' ∷ []

unfoldable pub spaces : ℕ → List ℕ
spaces zero = []
spaces (suc n) = b' ' ∷ spaces n

-- `%*s` and `%-*s`.
abbrev pub pad_left : ℕ → List ℕ → List ℕ
pad_left width s = spaces (width - length s) ++ s

abbrev pub pad_right : ℕ → List ℕ → List ℕ
pad_right width s = s ++ spaces (width - length s)

-- `(uint32_t)n` as `%u`.
abbrev u32 : ℕ → List ℕ
u32 n = print_decimal (n % 2 ^ 32)

-- A line of one number, of two durations with `%5u`, and of a hexadecimal number.
abbrev one_number : List ℕ → ℕ → List ℕ
one_number head n = head ++ (print_decimal n ++ newline)

abbrev duration : List ℕ → ℕ → List ℕ
duration head n = head ++ (pad_left 5 (u32 n) ++ newline)

abbrev durations : List ℕ → ℕ → ℕ → List ℕ
durations head p s = head ++ (pad_left 5 (u32 p) ++ (b' ' ∷ (pad_left 5 (u32 s) ++ newline)))

abbrev hexadecimal : List ℕ → ℕ → List ℕ
hexadecimal head n = head ++ (print_hex 1 n ++ newline)

-- One after the other.
abbrev pub in_turn : List (List ℕ) → List ℕ
in_turn [] = []
in_turn (s ∷ ss) = s ++ in_turn ss

-- What is printed only under a condition.
abbrev pub only_if : Bool → List ℕ → List ℕ
only_if true s = s
only_if false s = []

unfoldable pub fprint_remote_gap : RemoteConf → List ℕ
fprint_remote_gap c =
    bytes "  gap          "
    ++ (u32 c.gap ++ (only_if (not (c.gap2 == 0)) (b' ' ∷ u32 c.gap2) ++ newline))

-- The lines for protocols with timings up to `zero`.
unfoldable pub fprint_pairs : RemoteConf → List ℕ
fprint_pairs c = in_turn (
    only_if (has_header c) (durations (bytes "  header      ") c.phead c.shead)
    ∷ only_if (not (c.pthree == 0 && c.sthree == 0))
        (durations (bytes "  three       ") c.pthree c.sthree)
    ∷ only_if (not (c.ptwo == 0 && c.stwo == 0)) (durations (bytes "  two         ") c.ptwo c.stwo)
    ∷ durations (bytes "  one         ") c.pone c.sone
    ∷ durations (bytes "  zero        ") c.pzero c.szero
    ∷ [])

-- Pre and post data.
unfoldable pub fprint_pre_post : RemoteConf → List ℕ
fprint_pre_post c = in_turn (
    only_if (ltb 0 c.pre_data_bits) (
      one_number (bytes "  pre_data_bits   ") c.pre_data_bits
      ++ hexadecimal (bytes "  pre_data       0x") c.pre_data)
    ∷ only_if (ltb 0 c.post_data_bits) (
        one_number (bytes "  post_data_bits  ") c.post_data_bits
        ++ hexadecimal (bytes "  post_data      0x") c.post_data)
    ∷ only_if (not (c.pre_p == 0) && not (c.pre_s == 0))
        (durations (bytes "  pre         ") c.pre_p c.pre_s)
    ∷ only_if (not (c.post_p == 0) && not (c.post_s == 0))
        (durations (bytes "  post        ") c.post_p c.post_s)
    ∷ [])

unfoldable pub fprint_repeats : RemoteConf → List ℕ
fprint_repeats c =
    let hint =
      one_number (bytes "#  suppress_repeat ") c.min_repeat
      ++ (bytes "#  uncomment to suppress unwanted repeats" ++ newline) in
    in_turn (
      only_if (has_repeat_gap c) (bytes "  repeat_gap   " ++ (u32 c.repeat_gap ++ newline))
      ∷ only_if (ltb 0 c.suppress_repeat)
          (one_number (bytes "  suppress_repeat ") c.suppress_repeat)
      ∷ only_if (ltb 0 c.min_repeat) (
          one_number (bytes "  min_repeat      ") c.min_repeat
          ++ only_if (c.suppress_repeat == 0) hint)
      ∷ [])

-- The masks and the serial mode.
unfoldable pub fprint_masks : RemoteConf → List ℕ
fprint_masks c =
    let half = only_if (not (c.stop_bits % 2 == 0)) (bytes ".5") in
    let mode =
      in_turn (
        print_decimal c.bits_in_byte ∷ (b'N' ∷ []) ∷ print_decimal (c.stop_bits / 2) ∷ half ∷ []) in
    in_turn (
      only_if (ltb 0 c.min_code_repeat) (one_number (bytes "  min_code_repeat ") c.min_code_repeat)
      ∷ hexadecimal (bytes "  toggle_bit_mask 0x") c.toggle_bit_mask
      ∷ only_if (has_toggle_mask c) (hexadecimal (bytes "  toggle_mask    0x") c.toggle_mask)
      ∷ only_if (not (c.repeat_mask == 0)) (hexadecimal (bytes "  repeat_mask    0x") c.repeat_mask)
      ∷ only_if (not (c.rc6_mask == 0)) (hexadecimal (bytes "  rc6_mask    0x") c.rc6_mask)
      ∷ only_if (has_ignore_mask c) (hexadecimal (bytes "  ignore_mask 0x") c.ignore_mask)
      ∷ only_if (is_serial c) (
          one_number (bytes "  baud            ") c.baud
          ++ (bytes "  serial_mode     " ++ (mode ++ newline)))
      ∷ [])

abbrev driver_line : Option Name → List ℕ
driver_line none = []
driver_line (some driver) = bytes "  driver " ++ (driver ++ newline)

unfoldable pub fprint_remote_head : Draft → List ℕ
unfolding fprint_pairs fprint_pre_post fprint_repeats fprint_masks fprint_remote_gap fprint_flags
fprint_remote_head d =
    let c = d.conf in
    let timed = not (is_raw c) in
    in_turn (
      bytes "begin remote"
      ∷ newline
      ∷ newline
      ∷ bytes "  name  "
      ∷ c.name
      ∷ newline
      ∷ only_if (not (d.manual_sort == 0)) (one_number (bytes "  manual_sort  ") d.manual_sort)
      ∷ driver_line d.driver
      ∷ only_if timed (bytes "  bits        " ++ (pad_left 5 (print_decimal c.bits) ++ newline))
      ∷ fprint_flags c.flags
      ∷ bytes "  eps         "
      ∷ pad_left 5 (print_decimal c.eps)
      ∷ newline
      ∷ bytes "  aeps        "
      ∷ pad_left 5 (print_decimal c.aeps)
      ∷ newline
      ∷ newline
      ∷ only_if timed (fprint_pairs c)
      ∷ only_if (not (c.ptrail == 0)) (duration (bytes "  ptrail      ") c.ptrail)
      ∷ only_if (timed && not (c.plead == 0)) (duration (bytes "  plead       ") c.plead)
      ∷ only_if (timed && has_foot c) (durations (bytes "  foot        ") c.pfoot c.sfoot)
      ∷ only_if (has_repeat c) (durations (bytes "  repeat      ") c.prepeat c.srepeat)
      ∷ only_if timed (fprint_pre_post c)
      ∷ fprint_remote_gap c
      ∷ fprint_repeats c
      ∷ only_if timed (fprint_masks c)
      ∷ only_if (not (c.freq == 0)) (one_number (bytes "  frequency    ") c.freq)
      ∷ only_if (not (c.duty_cycle == 0)) (one_number (bytes "  duty_cycle   ") c.duty_cycle)
      ∷ newline
      ∷ [])

unfoldable pub fprint_remote_foot : List ℕ
fprint_remote_foot = bytes "end remote" ++ newline

unfoldable pub fprint_remote_signal_head : RemoteConf → List ℕ
fprint_remote_signal_head c =
    if is_raw c
    then bytes "      begin raw_codes" ++ (newline ++ newline)
    else bytes "      begin codes" ++ newline

unfoldable pub fprint_remote_signal_foot : RemoteConf → List ℕ
fprint_remote_signal_foot c =
    if is_raw c
    then bytes "      end raw_codes" ++ (newline ++ newline)
    else bytes "      end codes" ++ (newline ++ newline)

-- ` 0x%0*lX` for the codes of a list.
unfoldable pub fprint_nodes : ℕ → List ℕ → List ℕ
fprint_nodes width [] = []
fprint_nodes width (v ∷ vs) = b' ' ∷ (b'0' ∷ (b'x' ∷ (print_hex width v ++ fprint_nodes width vs)))

-- The line of a button with its codes.
unfoldable pub code_text : ℕ → IrNcode → List ℕ
unfolding fprint_nodes spaces
code_text bits code =
    let width = (bits + 3) / 4 in
    spaces 10 ++ (pad_right 24 code.name ++ (fprint_nodes width (code.code ∷ code.next) ++ newline))

-- Six durations in a line; `j` of them stand in this one.
unfoldable pub fprint_durations : ℕ → List ℕ → List ℕ
unfolding spaces
fprint_durations j [] = if j == 0 then newline else newline ++ newline
fprint_durations j (t ∷ ts) =
    if j == 0
    then spaces 10 ++ (pad_left 7 (u32 t) ++ fprint_durations 1 ts)
    else if ltb j 5
    then b' ' ∷ (pad_left 7 (u32 t) ++ fprint_durations (j + 1) ts)
    else b' ' ∷ (pad_left 7 (u32 t) ++ (newline ++ fprint_durations 0 ts))

abbrev durations_of : Option (List ℕ) → List ℕ
durations_of none = []
durations_of (some ts) = ts

unfoldable pub fprint_remote_signal : RemoteConf → IrNcode → List ℕ
unfolding code_text fprint_durations
fprint_remote_signal c code =
    if is_raw c
    then bytes "          name "
      ++ (code.name ++ (newline ++ fprint_durations 0 (durations_of code.signals)))
    else code_text c.bits code

unfoldable pub fprint_all_signals : RemoteConf → List IrNcode → List ℕ
unfolding fprint_remote_signal
fprint_all_signals c [] = []
fprint_all_signals c (code ∷ codes) = fprint_remote_signal c code ++ fprint_all_signals c codes

unfoldable pub fprint_remote_signals : RemoteConf → List IrNcode → List ℕ
unfolding fprint_remote_signal_head fprint_all_signals fprint_remote_signal_foot
fprint_remote_signals c codes =
    fprint_remote_signal_head c ++ (fprint_all_signals c codes ++ fprint_remote_signal_foot c)
