-- ===== src/Receive/Expect.antt =====
-- What the decoder of lib/receive.c expects next: pulses and spaces within the tolerance, bits,
-- header, foot, lead, trail, gap and repeat.
use lirc.Base.{ℕ, zero, suc, ◌+◌, ◌-◌, ◌*◌, Bool, true, false, not, ◌&&◌, ltb, ◌==◌}
use lirc.Base.{if◌then◌else◌, bit_and, none, some}
use lirc.Base.Int.{ℤ, pos}
use lirc.Remote.{RemoteConf, IrRemote, bit_count}
use lirc.Remote.Flags.{is_biphase, is_space_first, is_rcmm, has_toggle_mask}
use lirc.Remote.Code.{shl}
use lirc.Remote.Tolerance
use lirc.Receive.{
  Device, ok, M, ◌>>=◌, ◌>>◌, ret, rec_buffer, change, set_pending_pulse, set_pending_space,
  receive_timeout, is_pulse, is_space, pulse_mask, get_next_rec_buffer_internal, unget_rec_buffer,
}

-- A failed attempt gives back `count` items; a successful one is followed by the rest.
abbrev pub or_unget : {D : Type 0} → ℕ → M D Bool → M D Bool → M D Bool
or_unget count attempt rest = do
  found ← attempt
  if found then rest else (do unget_rec_buffer count; ret false)

-- `if (!attempt) return 0;`
abbrev pub need : {D : Type 0} → M D Bool → M D Bool → M D Bool
need attempt rest = do found ← attempt; if found then rest else ret false

abbrev pub optional : {D : Type 0} → Bool → M D Bool → M D Bool
optional wanted attempt = if wanted then attempt else ret true

-- `fuel` bounds the timeout packets within one wait.
module _ (dev : Device) (fuel : ℕ) where
  unfoldable pub expect : RemoteConf → ℤ → ℤ → Bool
  expect r delta exdelta = Tolerance.expect dev.resolution r delta exdelta

  unfoldable pub get_next_rec_buffer : ℤ → M dev.State ℕ
  get_next_rec_buffer maxusec = get_next_rec_buffer_internal dev fuel (receive_timeout maxusec)

  unfoldable pub get_next_pulse : ℕ → M dev.State ℕ
  get_next_pulse maxusec = do
    d ← get_next_rec_buffer (pos maxusec)
    ret (if d == 0 then 0 else if is_pulse d then bit_and d pulse_mask else 0)

  unfoldable pub get_next_space : ℕ → M dev.State ℕ
  get_next_space maxusec = do
    d ← get_next_rec_buffer (pos maxusec)
    ret (if d == 0 then 0 else if is_space d then d else 0)

  unfoldable pub sync_pending_pulse : RemoteConf → M dev.State Bool
  sync_pending_pulse r = do
    b ← rec_buffer
    let attempt : M dev.State Bool = do
      deltap ← get_next_pulse b.pendingp
      if deltap == 0
          then ret false
          else if expect r (pos deltap) (pos b.pendingp)
          then (do set_pending_pulse 0; ret true)
          else ret false
    optional (ltb 0 b.pendingp) attempt

  unfoldable pub sync_pending_space : RemoteConf → M dev.State Bool
  sync_pending_space r = do
    b ← rec_buffer
    let attempt : M dev.State Bool = do
      deltas ← get_next_space b.pendings
      if deltas == 0
          then ret false
          else if expect r (pos deltas) (pos b.pendings)
          then (do set_pending_space 0; ret true)
          else ret false
    optional (ltb 0 b.pendings) attempt

  -- What is left of `delta` after the pending part, against the expected length.
  abbrev after_pending : RemoteConf → ℕ → ℕ → ℕ → M dev.State (Unit {0}) → M dev.State Bool
  after_pending r pending delta exdelta forget =
      if ltb 0 pending
      then (if ltb delta pending
          then ret false
          else if expect r (pos (delta - pending)) (pos exdelta)
          then (do forget; ret true)
          else ret false)
      else ret (expect r (pos delta) (pos exdelta))

  unfoldable pub expectpulse : RemoteConf → ℕ → M dev.State Bool
  expectpulse r exdelta = need (sync_pending_space r) (do
    b ← rec_buffer
    deltap ← get_next_pulse (b.pendingp + exdelta)
    if deltap == 0
        then ret false
        else after_pending r b.pendingp deltap exdelta (set_pending_pulse 0))

  unfoldable pub expectspace : RemoteConf → ℕ → M dev.State Bool
  expectspace r exdelta = need (sync_pending_pulse r) (do
    b ← rec_buffer
    deltas ← get_next_space (b.pendings + exdelta)
    if deltas == 0
        then ret false
        else after_pending r b.pendings deltas exdelta (set_pending_space 0))

  -- Twice the length at the bits that RC-6 doubles.
  abbrev doubling : RemoteConf → ℕ → ℕ
  doubling r bit = if bit_and (shl 1 (bit_count r - 1 - bit)) r.rc6_mask == 0 then 1 else 2

  unfoldable pub expectone : RemoteConf → ℕ → M dev.State Bool
  expectone r bit =
      let k = doubling r bit in
      let space_sone = λ (n : ℕ). optional (ltb 0 r.sone) (expectspace r n) in
      let pulse_pone = optional (ltb 0 r.pone) (expectpulse r r.pone) in
      if is_biphase r
      then or_unget 1 (space_sone (k * r.sone)) (do set_pending_pulse (k * r.pone); ret true)
      else if is_space_first r
      then or_unget 1 (space_sone r.sone) (or_unget 2 pulse_pone (ret true))
      else or_unget 1 pulse_pone (
          if ltb 0 r.ptrail
          then or_unget 2 (space_sone r.sone) (ret true)
          else (do set_pending_space r.sone; ret true))

  unfoldable pub expectzero : RemoteConf → ℕ → M dev.State Bool
  expectzero r bit =
      let k = doubling r bit in
      if is_biphase r
      then or_unget 1 (expectpulse r (k * r.pzero)) (do set_pending_space (k * r.szero); ret true)
      else if is_space_first r
      then or_unget 1 (optional (ltb 0 r.szero) (expectspace r r.szero))
          (or_unget 2 (optional (ltb 0 r.pzero) (expectpulse r r.pzero)) (ret true))
      else or_unget 1 (expectpulse r r.pzero) (
          if ltb 0 r.ptrail
          then or_unget 2 (expectspace r r.szero) (ret true)
          else (do set_pending_space r.szero; ret true))

  -- The search for the gap before a signal; `left` rounds may follow this one.
  pub sync_loop : RemoteConf → ℕ → ℕ → ℕ → M dev.State ℕ
  sync_loop last least zero deltas =
      if Tolerance.expect_at_least dev.resolution last (pos deltas) (pos least)
      then ret deltas
      else (do
        deltap ← get_next_pulse 1000000
        if deltap == 0 then ret 0 else (do deltas' ← get_next_space 1000000; ret 0))
  sync_loop last least (suc left) deltas =
      let again : M dev.State ℕ = do
        deltap ← get_next_pulse 1000000
        let next : M dev.State ℕ = do
          deltas' ← get_next_space 1000000
          if deltas' == 0 then ret 0 else sync_loop last least left deltas'
        if deltap == 0 then ret 0 else next
      in if Tolerance.expect_at_least dev.resolution last (pos deltas) (pos least)
        then ret deltas
        else again

  abbrev pub rec_sync : ℕ
  rec_sync = 8

  -- A toggle sequence is given up after a longer gap.
  abbrev drop_toggle : IrRemote → ℕ → M dev.State (Unit {0})
  drop_toggle last deltas w =
      let r = w.remote in
      let dropped = record r { toggle_mask_state = 0; toggle_code = none } in
      if has_toggle_mask r.conf
        && not (
            Tolerance.expect_at_most dev.resolution last.conf (pos deltas)
              (pos last.max_remaining_gap))
      then ok tt (record w { remote = dropped })
      else ok tt w

  unfoldable pub sync_rec_buffer : M dev.State ℕ
  unfolding sync_loop
  sync_rec_buffer = do
    deltas ← get_next_space 1000000
    let found : M dev.State ℕ = do change (λ b. record b { sum = pos 0 }); ret deltas
    let search : IrRemote → M dev.State ℕ = λ last. do
      deltas' ← sync_loop last.conf last.min_remaining_gap rec_sync deltas
      if deltas' == 0
          then ret 0
          else (do drop_toggle last deltas'; change (λ b. record b { sum = pos 0 }); ret deltas')
    let go : M dev.State ℕ = λ w.
        if is_rcmm w.remote.conf
        then found w
        else (elim w.last_remote [ none ↦ found w | some last ↦ search last w ])
    if deltas == 0 then ret 0 else go
