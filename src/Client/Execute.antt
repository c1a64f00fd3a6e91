-- ===== src/Client/Execute.antt =====
-- `lirc_execute`, `lirc_clearmode` and the loop of `lirc_code2char_internal` of lib/lirc_client.c. The
-- event is given by its parts, and `lirc_prog` is a parameter; there is no socket.
pub mod Calls
pub mod Returns
pub mod Strings
use lirc.Base.{
  ℕ, zero, suc, ◌+◌, ◌-◌, ◌^◌, Bool, true, false, not, ◌&&◌, ◌||◌, ltb, leb, ◌==◌, if◌then◌else◌,
}
use lirc.Base.{
  bit_and, bit_or, List, [], ◌∷◌, ◌++◌, map, length, set, get_elem?, Option, none, some,
}
use lirc.Base.Text.{same_word}
use lirc.Remote.{Name}
use lirc.Client.{LircConfigEntry, LircConfig, once, quit, changes_mode, ecno, has}
use lirc.Client.Match.{IsCode, lirc_iscode}

-- Two names that are both set and the same.
abbrev pub same_name : Option Name → Option Name → Bool
same_name (some a) (some b) = same_word a b
same_name _ _ = false

-- The flag `ecno` of the entries that change to the current mode is cleared.
abbrev pub clear_ecno : Option Name → LircConfigEntry → LircConfigEntry
clear_ecno current scan =
    if same_name scan.change_mode current
    then record scan { flags = bit_and scan.flags (2 ^ 32 - 1 - ecno) }
    else scan

abbrev is_some : {A : Type 0} → Option A → Bool
is_some none = false
is_some (some x) = true

abbrev pub admits_prog : Option Name → Option Name → Bool
admits_prog none prog = false
admits_prog (some p) none = true
admits_prog (some p) (some prog) = same_word p prog

-- The mode after an entry is executed.
unfoldable pub execute_mode : Option Name → LircConfigEntry → Option Name
execute_mode current scan = elim scan.change_mode [
  | none ↦ if has scan.flags changes_mode then none else current
  | some m ↦ some m
]

-- The string that an entry gives, and the entry after it; its flags are those after
-- `lirc_clearmode`.
unfoldable pub execute_entry : Option Name → LircConfigEntry → LircConfigEntry × Option Name
execute_entry lirc_prog scan =
    let onced = is_some scan.change_mode && has scan.flags once in
    let do_once = not (onced && has scan.flags ecno) in
    let scan' : LircConfigEntry =
      if onced && not (has scan.flags ecno)
      then record scan { flags = bit_or scan.flags ecno }
      else scan in
    let next = suc scan.next_config in
    let wrapped = if next == length scan.config then 0 else next in
    elim (get_elem? scan.config scan.next_config) [
      | none ↦ (scan', none)
      | some s ↦
          if admits_prog scan.prog lirc_prog && do_once
          then (record scan' { next_config = wrapped }, some s)
          else (scan', none)
    ]

-- The variables of the loop; `next` is the position that `config->next` gets.
pub record Scanning : Type 0 where
  pub entries : List LircConfigEntry
  pub current_mode : Option Name
  pub next : ℕ
  pub quit_happened : Bool
  pub string : Option Name

-- `lirc_clearmode` and `lirc_execute` for the entry at `i`, which is now `scan`.
unfoldable pub lirc_execute : Option Name → ℕ → LircConfigEntry → Scanning → Scanning
unfolding execute_mode execute_entry
lirc_execute lirc_prog i scan s =
    let cleared = has scan.flags changes_mode && is_some s.current_mode in
    let entries = if cleared then map (clear_ecno s.current_mode) s.entries else s.entries in
    let this = if cleared then clear_ecno s.current_mode scan else scan in
    let (scan', string) = execute_entry lirc_prog this in
    record s {
      entries = set entries i scan';
      current_mode = execute_mode s.current_mode scan;
      string = string;
    }

-- The entry is for the current mode, or for all.
abbrev pub right_mode : Option Name → Option Name → Bool
right_mode none current = true
right_mode (some m) current = same_name (some m) current

-- The entry at `i` was triggered, or not. Whether the loop goes on.
unfoldable pub triggered : Option Name → ℕ → ℕ → LircConfigEntry → Scanning → Scanning × Bool
unfolding lirc_execute
triggered lirc_prog level i scan s =
    let stored : Scanning = record s { entries = set s.entries i scan } in
    let t : Scanning =
      if ltb 1 level
      then lirc_execute lirc_prog i scan stored
      else record stored { string = none } in
    if has scan.flags quit
    then (record t { quit_happened = true; next = length t.entries }, true)
    else if is_some t.string
    then (record t { next = suc i }, false)
    else (t, true)

-- One entry; `none` is an access through `LIRC_ALL`.
unfoldable pub scan_entry :
    Option Name → Name → Name → ℕ → ℕ → LircConfigEntry → Scanning → Option (Scanning × Bool)
unfolding triggered
scan_entry lirc_prog remote button rep i scan s = elim (lirc_iscode scan remote button rep) [
  | none ↦ none
  | some r ↦ some (
      if ltb 0 r.level && right_mode scan.mode s.current_mode && not s.quit_happened
      then triggered lirc_prog r.level i r.scan s
      else (record s { entries = set s.entries i r.scan }, true))
]

-- The loop over the `k` entries from `i` on.
unfoldable pub scan_entries : Option Name → Name → Name → ℕ → ℕ → ℕ → Scanning → Option Scanning
unfolding scan_entry
scan_entries lirc_prog remote button rep zero i s = some s
scan_entries lirc_prog remote button rep (suc k) i s = elim (get_elem? s.entries i) [
  | none ↦ some s
  | some scan ↦ elim (scan_entry lirc_prog remote button rep i scan s) [
    | none ↦ none
    | some (t, true) ↦ scan_entries lirc_prog remote button rep k (suc i) t
    | some (t, false) ↦ some t
  ]
]

-- Without a string the next call starts at the first entry again.
abbrev pub next_start : Option Name → ℕ → ℕ
next_start none next = 0
next_start (some string) next = next

unfoldable pub lirc_code2char_internal :
    Option Name → LircConfig → Name → Name → ℕ → Option (LircConfig × Option Name)
unfolding scan_entries
lirc_code2char_internal lirc_prog config remote button rep =
    let s : Scanning = record {
      entries = config.first;
      current_mode = config.current_mode;
      next = config.next;
      quit_happened = false;
      string = none;
    } in
    let k = length config.first - config.next in
    elim (scan_entries lirc_prog remote button rep k config.next s) [
      | none ↦ none
      | some t ↦
          let next = next_start t.string t.next in
          some (record { current_mode = t.current_mode; first = t.entries; next = next }, t.string)
    ]
