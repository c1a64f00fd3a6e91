-- ===== src/Receive/Serial.antt =====
-- The serial protocol in `get_data` of lib/receive.c: start bit, data bits, parity bit, stop bits.
-- The baud rate and the number of bits in a byte are taken to be positive.
use lirc.Base.{
  ℕ, zero, suc, ◌+◌, ◌-◌, ◌*◌, ◌/◌, ◌%◌, ◌^◌, Bool, true, false, not, ◌&&◌, ◌||◌, ltb, leb, ◌==◌,
}
use lirc.Base.{if◌then◌else◌, bit_or, Option, none, some}
use lirc.Base.Int.{pos}
use lirc.Remote.{RemoteConf}
use lirc.Remote.Code.{shl, shr, reverse}
use lirc.Receive.{
  Device, M, ok, out_of_fuel, ◌>>=◌, ◌>>◌, ret, rec_buffer, set_pending_pulse, set_pending_space,
  unget_rec_buffer_delta,
}
use lirc.Receive.Expect.{expect, get_next_pulse, get_next_space}

-- `IR_PARITY_NONE`, `IR_PARITY_EVEN` and `IR_PARITY_ODD`.
abbrev pub parity_none : ℕ
parity_none = 0

abbrev pub parity_even : ℕ
parity_even = 1

abbrev pub parity_odd : ℕ
parity_odd = 2

-- The variables of the loop.
pub record Serial : Type 0 where
  pub received : ℕ
  pub space : Bool
  pub stop_bit : Bool
  pub delta : ℕ
  pub origdelta : ℕ
  pub odd : Bool
  pub gap_delta : ℕ
  pub code : ℕ

abbrev pub flip : Bool → Serial → Serial
flip t s = if t then record s { space = not s.space } else s

abbrev pub exclusive : Bool → Bool → Bool
exclusive true b = not b
exclusive false b = b

module _ (dev : Device) (fuel : ℕ) (r : RemoteConf) where
  abbrev within : ℕ → ℕ → Bool
  within d e = expect dev fuel r (pos d) (pos e)

  abbrev base : ℕ
  base = 1000000 / r.baud

  abbrev stop : ℕ
  stop = base * r.stop_bits / 2

  abbrev parity_bit : ℕ
  parity_bit = if r.parity == parity_none then 0 else 1

  abbrev max_space : ℕ
  max_space = r.sone * r.bits_in_byte + stop + parity_bit * r.sone

  abbrev max_pulse : ℕ
  max_pulse = r.pzero * (1 + r.bits_in_byte) + parity_bit * r.pzero

  -- A new length is read where the last one is used up; the last space may be open.
  unfoldable pub serial_read : ℕ → Serial → M dev.State Serial
  serial_read bits s =
      let open_end = s.space && leb bits (s.received + r.bits_in_byte + parity_bit) in
      let read : M dev.State Serial = do
        d ← if s.space then get_next_space dev fuel max_space else get_next_pulse dev fuel max_pulse
        let d' = if d == 0 && open_end then max_space else d
        ret (record s { delta = d'; origdelta = d' })
      in if s.delta == 0 then read else ret s

  -- The pending start or stop bit is taken off the length.
  unfoldable pub take_pending : ℕ → Serial → Option Serial
  take_pending pending s =
      if within s.delta pending
      then some (record s { delta = 0 })
      else if ltb pending s.delta
      then some (record s { delta = s.delta - pending })
      else none

  unfoldable pub pending_found : Serial → M dev.State Serial
  pending_found s =
      let stop_found : M dev.State Serial = do
        set_pending_pulse base
        set_pending_space 0
        ret (record s { gap_delta = s.delta; delta = 0; stop_bit = false; space = false })
      in let bit_found : M dev.State Serial = do
        set_pending_pulse 0
        set_pending_space 0
        ret (flip (s.delta == 0) s)
        in if s.stop_bit then stop_found else bit_found

  -- At the end of a byte its bits are put in order and the parity bit is filtered out.
  unfoldable pub end_of_byte : Serial → Option Serial
  end_of_byte s =
      let temp = shr s.code (r.bits_in_byte + parity_bit) in
      let code =
        bit_or (shl temp r.bits_in_byte) (reverse (shr s.code parity_bit) r.bits_in_byte) in
      if (r.parity == parity_even && s.odd) || (r.parity == parity_odd && not s.odd)
      then none
      else if s.space && s.delta == 0
      then none
      else some (record s { code = code; odd = false; stop_bit = true })

  -- One data bit of the length; `none` is an error.
  unfoldable pub data_bit : Serial → M dev.State (Option Serial)
  data_bit s =
      let expecting = if s.space then r.sone else r.pzero in
      let t = record s {
        delta = s.delta - expecting;
        received = s.received + 1;
        code = bit_or (shl s.code 1) (if s.space then 1 else 0);
        odd = exclusive s.odd s.space;
      } in
      let ended : M dev.State (Option Serial) = elim (end_of_byte t) [
        | none ↦ ret none
        | some u ↦ (do set_pending_space stop; ret (some (flip (u.delta == 0) u)))
      ] in
      if ltb expecting s.delta || within s.delta expecting
      then (if t.received % (r.bits_in_byte + parity_bit) == 0
          then ended
          else ret (some (flip (t.delta == 0) t)))
      else if s.delta == s.origdelta
      then ret none
      else ret (some (flip true (record s { delta = 0 })))

  -- One round of the loop.
  unfoldable pub serial_round : ℕ → Serial → M dev.State (Option Serial)
  serial_round bits s = do
    t ← serial_read bits s
    b ← rec_buffer
    let pending = if t.space then b.pendings else b.pendingp
    let found : Serial → M dev.State (Option Serial) = λ u. do v ← pending_found u; ret (some v)
    let go : Serial → M dev.State (Option Serial) =
        λ u. if ltb 0 pending then found u else data_bit u
    if t.delta == 0
        then ret none
        else (elim (take_pending pending t) [ none ↦ ret none | some u ↦ go u ])

  unfoldable pub serial_loop : ℕ → ℕ → Serial → M dev.State (Option Serial)
  serial_loop zero bits s w = out_of_fuel
  serial_loop (suc rounds) bits s w =
      let next : M dev.State (Option Serial) = do
        t ← serial_round bits s
        elim t [ none ↦ ret none | some u ↦ serial_loop rounds bits u ]
      in if ltb s.received bits || s.stop_bit then next w else ok (some s) w

  unfoldable pub serial_end : Serial → M dev.State ℕ
  serial_end s = do
    if s.gap_delta == 0 then ret tt else unget_rec_buffer_delta s.gap_delta
    set_pending_pulse 0
    set_pending_space 0
    ret s.code

  -- `rounds` bounds the rounds of the loop.
  unfoldable pub get_serial : ℕ → ℕ → M dev.State ℕ
  get_serial rounds bits = do
    set_pending_pulse base
    b ← rec_buffer
    let bits' = if parity_bit == 0 then bits else bits + bits / r.bits_in_byte
    let start : Serial = record {
      received = 0;
      space = b.pendingp == 0;
      stop_bit = false;
      delta = 0;
      origdelta = 0;
      odd = false;
      gap_delta = 0;
      code = 0;
    }
    s ← serial_loop rounds bits' start
    elim s [ none ↦ ret (2 ^ 64 - 1) | some t ↦ serial_end t ]
