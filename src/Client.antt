-- ===== src/Client.antt =====
-- lib/lirc_client.c: which entries of a .lircrc file an event triggers. The codes of an entry are a
-- list and `next_code` a position in it; so is `next_config` in `config`. `LIRC_ALL` is `none`.
pub mod Match
pub mod Execute
use lirc.Base.{ℕ, ◌+◌, ◌-◌, ◌%◌, Bool, true, false, not, ◌&&◌, ◌||◌, ltb, leb, ◌==◌, if◌then◌else◌}
use lirc.Base.{bit_and, List, Option, none, some}
use lirc.Base.Text.{same_word}
use lirc.Remote.{Name}

-- `struct lirc_code`.
pub record LircCode : Type 0 where
  pub remote : Option Name
  pub button : Option Name

-- `struct lirc_config_entry`; the numbers are below 2^31.
pub record LircConfigEntry : Type 0 where
  pub prog : Option Name
  pub code : List LircCode
  pub rep_delay : ℕ
  pub ign_first_events : ℕ
  pub rep : ℕ
  pub config : List Name
  pub change_mode : Option Name
  pub flags : ℕ
  pub mode : Option Name
  pub next_config : ℕ
  pub next_code : ℕ

-- `struct lirc_config` without a socket; `next` is a position in `first`, its length for NULL.
pub record LircConfig : Type 0 where
  pub current_mode : Option Name
  pub first : List LircConfigEntry
  pub next : ℕ

-- `enum lirc_flags`.
abbrev pub once : ℕ
once = 1

abbrev pub quit : ℕ
quit = 2

abbrev pub changes_mode : ℕ
changes_mode = 4

abbrev pub ecno : ℕ
ecno = 8

abbrev pub toggle_reset : ℕ
toggle_reset = 32

abbrev pub has : ℕ → ℕ → Bool
has flags flag = not (bit_and flags flag == 0)

unfoldable pub rep_filter : LircConfigEntry → ℕ → Bool
rep_filter scan rep =
    let rep_delay = if ltb 0 scan.ign_first_events then scan.ign_first_events else scan.rep_delay in
    let delay_start = if ltb 0 scan.ign_first_events then 0 else 1 in
    if ltb rep delay_start
    then true
    else if scan.rep == 0 && ltb 0 rep_delay && rep == rep_delay + delay_start
    then true
    else if ltb 0 scan.rep && leb (rep_delay + delay_start) rep
    then (rep - (rep_delay + delay_start)) % scan.rep == 0
    else false
