-- ===== src/Config/Flags.antt =====
-- The list `all_flags` and `parseFlags` of lib/config_file.c, and `fprint_flags` of
-- lib/dump_config.c.
use lirc.Base.{ℕ, ◌-◌, ◌^◌, Bool, true, false, not, ◌&&◌, ◌==◌, if◌then◌else◌, bit_and, bit_or}
use lirc.Base.{List, [], ◌∷◌, ◌++◌, Option, none, some}
use lirc.Base.Text.{bytes, same_word}
use lirc.Remote.{Name}
use lirc.Remote.Flags.{
  ir_protocol_mask, raw_codes, rc5, rc6, rcmm, space_enc, space_first, grundig, bo, serial, xmp,
  no_head_rep, no_foot_rep, const_length, repeat_header,
}

-- The order of bits that has to be turned round.
abbrev pub reverse_flag : ℕ
reverse_flag = 0x0800

abbrev pub all_flags : List (Name × ℕ)
all_flags =
    (bytes "RAW_CODES", raw_codes)
    ∷ (bytes "RC5", rc5)
    ∷ (bytes "SHIFT_ENC", rc5)
    ∷ (bytes "RC6", rc6)
    ∷ (bytes "RCMM", rcmm)
    ∷ (bytes "SPACE_ENC", space_enc)
    ∷ (bytes "SPACE_FIRST", space_first)
    ∷ (bytes "GRUNDIG", grundig)
    ∷ (bytes "BO", bo)
    ∷ (bytes "SERIAL", serial)
    ∷ (bytes "XMP", xmp)
    ∷ (bytes "REVERSE", reverse_flag)
    ∷ (bytes "NO_HEAD_REP", no_head_rep)
    ∷ (bytes "NO_FOOT_REP", no_foot_rep)
    ∷ (bytes "CONST_LENGTH", const_length)
    ∷ (bytes "REPEAT_HEADER", repeat_header)
    ∷ []

-- The names of a value, between the bars.
unfoldable pub split_bars : List ℕ → Name → List Name
split_bars w [] = w ∷ []
split_bars w (c ∷ s) = elim (c == b'|') [
  | true ↦ w ∷ split_bars [] s
  | false ↦ split_bars (w ++ (c ∷ [])) s
]

-- The flag of a name, if there is one.
unfoldable pub find_flag : List (Name × ℕ) → Name → Option ℕ
find_flag [] flag = none
find_flag ((name, value) ∷ fs) flag =
    let rest = find_flag fs flag in if same_word name flag then some value else rest

-- The loop of `parseFlags` over the names: the flags, and whether `parse_error` was set.
unfoldable pub add_flags : ℕ → List Name → ℕ × Bool
unfolding find_flag
add_flags flags [] = (flags, false)
add_flags flags (w ∷ ws) = elim (find_flag all_flags w) [
  | none ↦ (0, true)
  | some f ↦
      let rest = add_flags (bit_or flags f) ws in
      if not (bit_and f ir_protocol_mask == 0) && not (bit_and flags ir_protocol_mask == 0)
      then (0, true)
      else rest
]

unfoldable pub parse_flags : Name → ℕ × Bool
unfolding split_bars add_flags
parse_flags val = add_flags 0 (split_bars [] val)

-- The names that `fprint_flags` prints, a flag with two names once; `~` is taken within 32 bits.
unfoldable pub flag_names : List (Name × ℕ) → ℕ → List Name
flag_names [] flags = []
flag_names ((name, value) ∷ fs) flags = elim (bit_and flags value == 0) [
  | true ↦ flag_names fs flags
  | false ↦ name ∷ flag_names fs (bit_and flags (2 ^ 32 - 1 - value))
]

unfoldable pub join_bars : List Name → Name
join_bars [] = []
join_bars (w ∷ []) = w
join_bars (w ∷ v ∷ ws) = w ++ (b'|' ∷ join_bars (v ∷ ws))

-- The line of flags; without a flag there is none.
unfoldable pub fprint_flags : ℕ → Name
unfolding flag_names join_bars
fprint_flags flags = elim (flag_names all_flags flags) [
  | [] ↦ []
  | w ∷ ws ↦ bytes "  flags " ++ (join_bars (w ∷ ws) ++ (b'\n' ∷ []))
]
