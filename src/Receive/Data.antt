-- ===== src/Receive/Data.antt =====
-- `get_data` of lib/receive.c for every protocol but the serial one.
use lirc.Base.{
  ℕ, zero, suc, ◌+◌, ◌-◌, ◌*◌, ◌/◌, ◌%◌, ◌^◌, Bool, true, false, not, ◌&&◌, ◌||◌, ltb, leb, ◌==◌,
}
use lirc.Base.{if◌then◌else◌, bit_or, Option, none, some}
use lirc.Base.Int.{pos}
use lirc.Remote.{RemoteConf}
use lirc.Remote.Flags.{is_rcmm, is_grundig, is_serial, is_bo, is_xmp}
use lirc.Remote.Code.{shl}
use lirc.Receive.{Device, out_of_fuel, M, ◌>>=◌, ret}
use lirc.Receive.Expect.{
  expect, get_next_pulse, get_next_space, sync_pending_pulse, sync_pending_space, expectone,
  expectzero,
}
use lirc.Receive.Serial.{get_serial}

-- `(ir_code) -1`.
abbrev pub failed : ℕ
failed = 2 ^ 64 - 1

module _ (dev : Device) (fuel : ℕ) where
  abbrev within : RemoteConf → ℕ → ℕ → Bool
  within r d e = expect dev fuel r (pos d) (pos e)

  abbrev pulse_sum : RemoteConf → ℕ
  pulse_sum r = r.pzero + r.pone + r.ptwo + r.pthree

  abbrev space_sum : RemoteConf → ℕ
  space_sum r = r.szero + r.sone + r.stwo + r.sthree

  -- The first of the four lengths that fits, as its number.
  unfoldable pub which_pair : RemoteConf → ℕ → Option ℕ
  which_pair r sum =
      if within r sum (r.pzero + r.szero)
      then some 0
      else if within r sum (r.pone + r.sone)
      then some 1
      else if within r sum (r.ptwo + r.stwo)
      then some 2
      else if within r sum (r.pthree + r.sthree)
      then some 3
      else none

  -- Two bits a round, with the rounds left.
  unfoldable pub rcmm_loop : RemoteConf → ℕ → ℕ → M dev.State ℕ
  rcmm_loop r zero code = ret code
  rcmm_loop r (suc left) code =
      let more = λ (n : ℕ). rcmm_loop r left (bit_or (shl code 2) n) in
      do
        deltap ← get_next_pulse dev fuel (pulse_sum r)
        deltas ← get_next_space dev fuel (space_sum r)
        if deltap == 0 || deltas == 0
            then ret failed
            else (elim (which_pair r (deltap + deltas)) [ none ↦ ret failed | some n ↦ more n ])

  -- The state after a pair of lengths: `some (some n)` for two more bits `n`, `some none` for the
  -- first half of a pair, `none` for an invalid sequence.
  unfoldable pub grundig_pair : Option ℕ → ℕ → Option (Option ℕ)
  grundig_pair laststate state =
      let last = λ (n : ℕ). elim laststate as (λ _. Bool) [ none ↦ false | some m ↦ m == n ] in
      if state == 3
      then some (some 0)
      else if last 2 && state == 0
      then some (some 1)
      else if last 1 && state == 1
      then some (some 2)
      else if last 0 && state == 2
      then some (some 3)
      else elim laststate [ none ↦ some none | _ ↦ none ]

  -- At most two rounds for two bits: `rounds` starts at the number of bits, which is even.
  unfoldable pub grundig_loop : RemoteConf → ℕ → ℕ → ℕ → Option ℕ → ℕ → M dev.State ℕ
  grundig_loop r zero bits i laststate code = λ w. if ltb i bits then out_of_fuel else ret code w
  grundig_loop r (suc rounds) bits i laststate code =
      let more = λ (n : ℕ). grundig_loop r rounds bits (i + 2) none (bit_or (shl code 2) n) in
      let half = λ (state : ℕ). grundig_loop r rounds bits i (some state) code in
      let next : ℕ → M dev.State ℕ = λ state. elim (grundig_pair laststate state) [
        | none ↦ ret failed
        | some none ↦ half state
        | some (some n) ↦ more n
      ] in
      let step : M dev.State ℕ = do
        deltas ← get_next_space dev fuel (space_sum r)
        deltap ← get_next_pulse dev fuel (pulse_sum r)
        if deltas == 0 || deltap == 0
            then ret failed
            else (elim (which_pair r (deltas + deltap)) [ none ↦ ret failed | some n ↦ next n ])
      in if ltb i bits then step else ret code

  -- B&O: the lengths of a bit depend on the bit before it.
  unfoldable pub bo_bit : RemoteConf → Bool → ℕ → ℕ → Option Bool
  bo_bit r lastbit deltap deltas =
      let pzero = if lastbit then r.pone else r.ptwo in
      let szero = if lastbit then r.sone else r.stwo in
      let pone = if lastbit then r.ptwo else r.pthree in
      let sone = if lastbit then r.stwo else r.sthree in
      if within r deltap pzero && within r deltas szero
      then some false
      else if within r deltap pone && within r deltas sone
      then some true
      else none

  unfoldable pub bo_loop : RemoteConf → ℕ → Bool → ℕ → M dev.State ℕ
  bo_loop r zero lastbit code = ret code
  bo_loop r (suc left) lastbit code =
      let more = λ (bit : Bool). bo_loop r left bit (bit_or (shl code 1) (if bit then 1 else 0)) in
      do
        deltap ← get_next_pulse dev fuel (pulse_sum r)
        deltas ← get_next_space dev fuel (space_sum r)
        if deltap == 0 || deltas == 0
            then ret failed
            else (elim (bo_bit r lastbit deltap deltas) [ none ↦ ret failed | some bit ↦ more bit ])

  -- XMP: the length of a space above the shortest one is the nibble. A sum below the shortest one
  -- becomes a huge `ir_code`; a division by `sone` is taken to be by a positive number.
  unfoldable pub xmp_nibble : RemoteConf → ℕ → Option ℕ
  xmp_nibble r sum =
      let least = r.pzero + r.szero in
      let n = (sum + r.sone / 2 - least) / r.sone in
      if ltb (sum + r.sone / 2 + r.sone) (least + 1)
      then none
      else if leb 16 n
      then none
      else some n

  unfoldable pub xmp_loop : RemoteConf → ℕ → ℕ → M dev.State ℕ
  xmp_loop r zero code = ret code
  xmp_loop r (suc left) code =
      let more = λ (n : ℕ). xmp_loop r left (bit_or (shl code 4) n) in
      do
        deltap ← get_next_pulse dev fuel r.pzero
        deltas ← get_next_space dev fuel (r.szero + 16 * r.sone)
        if deltap == 0 || deltas == 0
            then ret failed
            else (elim (xmp_nibble r (deltap + deltas)) [ none ↦ ret failed | some n ↦ more n ])

  -- All other protocols: a bit is a one or else a zero.
  unfoldable pub bit_loop : RemoteConf → ℕ → ℕ → ℕ → M dev.State ℕ
  bit_loop r zero at code = ret code
  bit_loop r (suc left) at code =
      let more = λ (n : ℕ). bit_loop r left (at + 1) (bit_or (shl code 1) n) in
      do
        one ← expectone dev fuel r at
        if one
            then more 1
            else (do found ← expectzero dev fuel r at; if found then more 0 else ret failed)

  unfoldable pub get_data : RemoteConf → ℕ → ℕ → M dev.State ℕ
  unfolding rcmm_loop grundig_loop bo_loop xmp_loop bit_loop
  get_data r bits done =
      let odd_bits = λ (n : ℕ). not (bits % n == 0) || not (done % n == 0) in
      let synced = λ (failure : ℕ) (sync : M dev.State Bool) (rest : M dev.State ℕ).
        let run : M dev.State ℕ = (do found ← sync; if found then rest else ret failure) in run in
      if is_rcmm r
      then (if odd_bits 2
          then ret failed
          else synced 0 (sync_pending_space dev fuel r) (rcmm_loop r (bits / 2) 0))
      else if is_grundig r
      then (if odd_bits 2
          then ret failed
          else synced failed (sync_pending_pulse dev fuel r) (grundig_loop r bits bits 0 none 0))
      else if is_serial r
      then get_serial dev fuel r fuel bits
      else if is_bo r
      then bo_loop r bits true 0
      else if is_xmp r
      then (if odd_bits 4
          then ret failed
          else synced 0 (sync_pending_space dev fuel r) (xmp_loop r (bits / 4) 0))
      else bit_loop r bits done 0
