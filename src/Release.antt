-- ===== src/Release.antt =====
-- lib/release.c: the button press whose release the daemon waits for.
pub mod Time
use lirc.Base.{
  ℕ, ◌+◌, ◌-◌, ◌*◌, ◌/◌, ◌%◌, Bool, ◌&&◌, ltb, leb, ◌==◌, if◌then◌else◌, Option, none, some, not,
}
use lirc.Base.Int.{ℤ, pos, pos_part, neg_part}
use lirc.Remote.{IrRemote, IrNcode, CodeRef, Timeval, Name, deref}
use lirc.Remote.Tolerance.{upper_limit}
use lirc.Receive.{receive_timeout}

-- A press: the static variables `release_remote`, `release_ncode` and `release_code`.
pub record Press : Type 0 where
  pub remote : IrRemote
  pub ncode : CodeRef
  pub code : ℕ

-- `second` holds the press before, the variables with a 2 in their names.
pub record Release : Type 0 where
  pub first : Option Press
  pub second : Option Press
  pub reps : ℤ
  pub gap : ℕ
  pub time : Timeval

-- `timeradd` of a time and a number of microseconds.
unfoldable pub add_usec : Timeval → ℕ → Timeval
add_usec t usec =
    let sum = t.tv_usec + usec in
    if leb 1000000 sum
    then record { tv_sec = t.tv_sec + 1; tv_usec = sum - 1000000 }
    else record { tv_sec = t.tv_sec; tv_usec = sum }

-- The time is set while a press is on record; `now` is the time of day.
unfoldable pub register_input : Timeval → Release → Release
unfolding add_usec
register_input now s = elim s.first [ none ↦ s | some p ↦ record s { time = add_usec now s.gap } ]

-- The longest signal without its gap, a receive timeout for the gap, and 10 ms.
unfoldable pub release_gap : ℕ → IrRemote → ℕ
release_gap resolution r =
    upper_limit resolution r.conf (r.max_total_signal_length - r.min_gap_length)
    + receive_timeout (pos (upper_limit resolution r.conf r.min_gap_length))
    + 10000

unfoldable pub register_button_press : ℕ → Timeval → IrRemote → CodeRef → ℕ → ℤ → Release → Release
unfolding register_input release_gap
register_button_press resolution now remote ncode code reps s =
    let p : Press = record { remote = remote; ncode = ncode; code = code } in
    let kept =
      if pos_part reps == 0 && neg_part reps == 0
      then (elim s.first [ none ↦ s.second | some q ↦ some q ])
      else s.second in
    register_input now
      (record s { first = some p; second = kept; reps = reps; gap = release_gap resolution remote })

-- Remote, button and repetitions of the press on record; `none` stands for "(NULL)".
unfoldable pub get_release_data : Release → Option (Name × Name × ℤ)
get_release_data s = elim s.first [
  | none ↦ none
  | some p ↦ some (p.remote.name, (deref p.remote p.ncode).name, s.reps)
]

unfoldable pub get_release_time : Release → Timeval
get_release_time s = s.time
