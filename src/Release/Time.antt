-- ===== src/Release/Time.antt =====
-- When the daemon of lib/release.c takes a button as released.
use lirc.Base.{ℕ, ◌+◌, ◌*◌, ◌≡◌, refl, arith, some}
use lirc.Base.Int.{ℤ}
use lirc.Remote.{IrRemote, CodeRef, Timeval, deref}
use lirc.Release.{
  Release, add_usec, register_input, register_button_press, release_gap, get_release_data,
  get_release_time,
}

-- A time in microseconds.
abbrev pub micros : Timeval → ℕ
micros t = t.tv_sec * 1000000 + t.tv_usec

add_usec_lem : (t : Timeval) (usec : ℕ) → micros (add_usec t usec) ≡ micros t + usec
unfolding add_usec
add_usec_lem t usec = ground arith

-- After a press is registered, its data are those on record, and its release is due one release gap
-- of the remote after the time of registration, also with the microseconds carried over.
pub register_button_press-release :
    (resolution : ℕ) (now : Timeval) (r : IrRemote) (ncode : CodeRef) (code : ℕ) (reps : ℤ)
    (s : Release)
    → let s' = register_button_press resolution now r ncode code reps s in
      (get_release_data s' ≡ some (r.name, (deref r ncode).name, reps))
      × (micros (get_release_time s') ≡ micros now + release_gap resolution r)
unfolding register_button_press register_input get_release_data get_release_time
register_button_press-release resolution now r ncode code reps s =
    (refl, add_usec_lem now (release_gap resolution r))
