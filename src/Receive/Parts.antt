-- ===== src/Receive/Parts.antt =====
-- The parts of a signal around its data, in lib/receive.c: header, foot, lead, trail, gap, repeat.
use lirc.Base.{ℕ, ◌+◌, Bool, true, false, not, ◌&&◌, ltb, ◌==◌, if◌then◌else◌}
use lirc.Base.Int.{ℤ, pos, pos_part, ◌-ℤ◌, ltb_ℤ, scale_ℤ}
use lirc.Remote.{RemoteConf, min_gap}
use lirc.Remote.Flags.{has_flag, is_biphase, is_rcmm, is_bo, is_const, has_repeat_gap, no_head_rep}
use lirc.Remote.Tolerance
use lirc.Receive.{
  Device, M, ◌>>=◌, ◌>>◌, ret, rec_buffer, set_pending_pulse, set_pending_space, is_space,
  unget_rec_buffer,
}
use lirc.Receive.Expect.{
  need, or_unget, expect, get_next_pulse, get_next_space, get_next_rec_buffer, expectpulse,
  expectspace, sync_pending_pulse, sync_pending_space,
}

module _ (dev : Device) (fuel : ℕ) where
  abbrev pulse_of : ℕ → M dev.State ℕ
  pulse_of = get_next_pulse dev fuel

  abbrev space_of : ℕ → M dev.State ℕ
  space_of = get_next_space dev fuel

  abbrev within : RemoteConf → ℕ → ℕ → Bool
  within r d e = expect dev fuel r (pos d) (pos e)

  -- RC-MM checks the header as one length.
  unfoldable pub get_header_rcmm : RemoteConf → M dev.State Bool
  get_header_rcmm r = do
    deltap ← pulse_of r.phead
    let rest : M dev.State Bool = do
      deltas ← space_of r.shead
      if not (deltas == 0) && within r (deltap + deltas) (r.phead + r.shead)
          then ret true
          else (do unget_rec_buffer 2; ret false)
    if deltap == 0 then (do unget_rec_buffer 1; ret false) else rest

  -- Where repeats have no header it is decided at once whether this is one; note that `expect` takes
  -- the measured space as the expected one here.
  unfoldable pub get_header : RemoteConf → M dev.State Bool
  unfolding get_header_rcmm
  get_header r =
      let pulse = λ (d : ℕ). expectpulse dev fuel r d in
      let space = λ (d : ℕ). expectspace dev fuel r d in
      let pending : M dev.State Bool = (do set_pending_space r.shead; ret true) in
      let decide : M dev.State Bool = do
        deltas ← space_of r.shead
        if deltas == 0
            then pending
            else if within r r.shead deltas
            then ret true
            else (do unget_rec_buffer 2; ret false)
      in if is_rcmm r
        then get_header_rcmm r
        else if is_bo r
        then need (pulse r.pone) (
            need (space r.sone)
              (need (pulse r.pone) (need (space r.sone) (need (pulse r.phead) (space r.shead)))))
        else if r.shead == 0
        then need (sync_pending_space dev fuel r) (do set_pending_pulse r.phead; ret true)
        else or_unget 1 (pulse r.phead) (if has_flag r no_head_rep then decide else pending)

  unfoldable pub get_foot : RemoteConf → M dev.State Bool
  get_foot r = need (expectspace dev fuel r r.sfoot) (expectpulse dev fuel r r.pfoot)

  unfoldable pub get_lead : RemoteConf → M dev.State Bool
  get_lead r =
      if r.plead == 0
      then ret true
      else need (sync_pending_space dev fuel r) (do set_pending_pulse r.plead; ret true)

  unfoldable pub get_trail : RemoteConf → M dev.State Bool
  get_trail r =
      need (if r.ptrail == 0 then ret true else expectpulse dev fuel r r.ptrail)
        (do b ← rec_buffer; if ltb 0 b.pendingp then sync_pending_pulse dev fuel r else ret true)

  -- A timeout is a gap that is long enough.
  unfoldable pub get_gap : RemoteConf → ℤ → M dev.State Bool
  get_gap r gap = do
    d ← get_next_rec_buffer dev fuel (gap -ℤ scale_ℤ gap r.eps 100)
    if d == 0
        then ret true
        else if not (is_space d)
        then ret false
        else (do unget_rec_buffer 1; ret (Tolerance.expect_at_least dev.resolution r (pos d) gap))

  -- `a > sum ? a - sum : 0`.
  abbrev pub rest_of : ℕ → ℤ → ℕ
  rest_of a sum = if ltb_ℤ sum (pos a) then pos_part (pos a -ℤ sum) else 0

  unfoldable pub get_repeat : RemoteConf → M dev.State Bool
  get_repeat r =
      let signal =
        if is_biphase r
        then need (expectspace dev fuel r r.srepeat) (expectpulse dev fuel r r.prepeat)
        else need (expectpulse dev fuel r r.prepeat) (do set_pending_space r.srepeat; ret true) in
      need (get_lead r) (
        need signal (
          need (get_trail r) (do
            b ← rec_buffer
            get_gap r (
                pos (
                  if is_const r
                  then rest_of (min_gap r) b.sum
                  else if has_repeat_gap r
                  then r.repeat_gap
                  else min_gap r)))))
