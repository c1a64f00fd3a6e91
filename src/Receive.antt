-- ===== src/Receive.antt =====
-- The receiving buffer of lib/receive.c, and the state in which the decoder runs.
-- The driver and the clock are not part of this code: a `Device` stands for them. A step gives its
-- value and the new state, or `fault` for an access before the array, which C leaves undefined.
pub mod Rewind
pub mod Expect
pub mod Parts
pub mod Data
pub mod Serial
pub mod Decode
use lirc.Base.{
  ℕ, zero, suc, ◌+◌, ◌-◌, ◌*◌, ◌/◌, ◌%◌, Bool, true, false, not, ◌&&◌, ◌||◌, ltb, leb, ◌==◌,
}
use lirc.Base.{
  if◌then◌else◌, bit_and, List, [], ◌∷◌, Option, none, some, get_or, set, take, drop, ◌++◌, ◌^◌,
}
use lirc.Base.Int.{ℤ, pos, pos_part, ◌+ℤ◌, ◌-ℤ◌}
use lirc.Remote.{IrRemote, Timeval, time_elapsed}
use lirc.Remote.Code.{shl}

abbrev pub rbuf_size : ℕ
rbuf_size = 512

abbrev pub pulse_mask : ℕ
pulse_mask = 0x00ffffff

abbrev pub mode2_mask : ℕ
mode2_mask = 0xff000000

abbrev pub mode2_space : ℕ
mode2_space = 0

abbrev pub mode2_pulse : ℕ
mode2_pulse = 0x01000000

abbrev pub mode2_timeout : ℕ
mode2_timeout = 0x03000000

abbrev pub lirc_eof : ℕ
lirc_eof = 0x08000000

-- The `rec_mode` of a driver: one of the values that lib/driver.h documents.
pub data RecMode : Type 0 where
  mode2 pulse_mode raw_mode lirccode : RecMode

-- The current driver and the clock: `readdata` waits at most so long and gives the next item, 0 on
-- a timeout; `read_code` reads the bytes of a code, `none` on a failure.
pub record Device : Type 1 where
  pub State : Type 0
  pub readdata : ℕ → State → ℕ × State
  pub gettimeofday : State → Timeval × State
  pub read_code : ℕ → State → Option (List ℕ) × State
  pub rec_mode : RecMode
  pub code_length : ℕ
  pub resolution : ℕ

pub record RecBuffer : Type 0 where
  pub items : List ℕ
  pub decoded : ℕ
  pub rptr : ℕ
  pub wptr : ℕ
  pub too_long : Bool
  pub is_biphase : Bool
  pub pendingp : ℕ
  pub pendings : ℕ
  pub sum : ℤ
  pub last_signal_time : Timeval
  pub at_eof : Bool

-- `last_remote` is the remote decoded last, `remote` the one that is tried now.
pub record World (D : Type 0) : Type 0 where
  pub rec : RecBuffer
  pub dev : D
  pub remote : IrRemote
  pub last_remote : Option IrRemote
  pub update_mode : Bool

pub data Result (S A : Type 0) : Type 0 where
  ok : A → S → Result S A
  fault out_of_fuel : Result S A

abbrev pub M : Type 0 → Type 0 → Type 0
M D A = World D → Result (World D) A

infixl 5 ◌>>=◌ ◌>>◌
abbrev pub ◌>>=◌ : {D A B : Type 0} → M D A → (A → M D B) → M D B
◌>>=◌ m f w = elim (m w) [ ok a w' ↦ f a w' | fault ↦ fault | out_of_fuel ↦ out_of_fuel ]

abbrev pub ◌>>◌ : {D B : Type 0} → M D (Unit {0}) → M D B → M D B
m >> k = m >>= λ _. k

abbrev pub ret : {D A : Type 0} → A → M D A
ret a w = ok a w

abbrev pub rec_buffer : {D : Type 0} → M D RecBuffer
rec_buffer w = ok w.rec w

abbrev pub change : {D : Type 0} → (RecBuffer → RecBuffer) → M D (Unit {0})
change f w = ok tt (record w { rec = f w.rec })

unfoldable pub set_pending_pulse : {D : Type 0} → ℕ → M D (Unit {0})
set_pending_pulse deltap = change (λ b. record b { pendingp = deltap })

unfoldable pub set_pending_space : {D : Type 0} → ℕ → M D (Unit {0})
set_pending_space deltas = change (λ b. record b { pendings = deltas })

-- `receive_timeout` of lib/receive.h.
unfoldable pub receive_timeout : ℤ → ℕ
receive_timeout usec = let twice = 2 * pos_part usec in if ltb twice 100000 then 100000 else twice

unfoldable pub is_pulse : ℕ → Bool
is_pulse d = bit_and d mode2_mask == mode2_pulse

unfoldable pub is_space : ℕ → Bool
is_space d = bit_and d mode2_mask == mode2_space

unfoldable pub is_timeout : ℕ → Bool
is_timeout d = bit_and d mode2_mask == mode2_timeout

unfoldable pub is_eof : ℕ → Bool
is_eof d = not (bit_and d lirc_eof == 0)

-- The item at `rptr` is consumed: it counts in `sum`.
abbrev pub consume : RecBuffer → RecBuffer
consume b = record b {
  sum = b.sum +ℤ pos (bit_and (get_or b.items b.rptr 0) pulse_mask);
  rptr = b.rptr + 1;
}

-- A new item is stored behind the others and consumed.
abbrev pub store : ℕ → RecBuffer → RecBuffer
store d b =
    let b' = record b { items = set b.items b.wptr d } in
    record b' {
      sum = b'.sum +ℤ pos (bit_and (get_or b'.items b'.rptr 0) pulse_mask);
      wptr = b'.wptr + 1;
      rptr = b'.rptr + 1;
    }

module _ (dev : Device) where
  open dev use {State, gettimeofday}

  unfoldable pub readdata : ℕ → M State ℕ
  readdata timeout w =
      let (d, s) = dev.readdata timeout w.dev in
      let b = w.rec in ok d (record w { rec = record b { at_eof = is_eof d }; dev = s })

  -- The time since the last signal, if one is on record.
  unfoldable pub since_last_signal : M State ℕ
  since_last_signal w =
      let last = w.rec.last_signal_time in
      let (now, s) = gettimeofday w.dev in
      if last.tv_sec == 0 && last.tv_usec == 0
      then ok 0 w
      else ok (time_elapsed last now) (record w { dev = s })

  -- A timeout packet shortens the wait. The fuel bounds the number of such packets.
  unfoldable pub get_next_rec_buffer_internal : ℕ → ℕ → M State ℕ
  get_next_rec_buffer_internal zero maxusec w = out_of_fuel
  get_next_rec_buffer_internal (suc fuel) maxusec w =
      let b = w.rec in
      let value = λ (d : ℕ). bit_and d pulse_mask in
      let retry = λ (d : ℕ). get_next_rec_buffer_internal fuel (maxusec - value d) in
      let take_new : ℕ → M State ℕ = λ d.
        if d == 0
        then ret 0
        else if is_eof d
        then ret d
        else if is_timeout d
        then (if ltb (value d) maxusec then retry d else ret 0)
        else do change (store d); ret d
      in let fetch : M State ℕ = do
        elapsed ← since_last_signal
        d ← if ltb elapsed maxusec then readdata (maxusec - elapsed) else ret 0
        take_new d
        in if ltb b.rptr b.wptr
          then ok (get_or b.items b.rptr 0) (record w { rec = consume b })
          else if ltb b.wptr rbuf_size
          then fetch w
          else ok 0 (record w { rec = record b { too_long = true } })

-- `rec_buffer_init`, `rec_buffer_rewind` and `rec_buffer_reset_wptr`.
unfoldable pub rec_buffer_rewind : RecBuffer → RecBuffer
rec_buffer_rewind b = record b {
  rptr = 0;
  too_long = false;
  pendingp = 0;
  pendings = 0;
  sum = pos 0;
  at_eof = false;
}

unfoldable pub rec_buffer_reset_wptr : RecBuffer → RecBuffer
rec_buffer_reset_wptr b = record b { wptr = 0 }

-- `unget_rec_buffer`: any other count than 1 and 2 changes nothing.
unfoldable pub unget_rec_buffer : {D : Type 0} → ℕ → M D (Unit {0})
unget_rec_buffer count w =
    let b = w.rec in
    let r = b.rptr - count in
    let value = λ (i : ℕ). pos (bit_and (get_or b.items i 0) pulse_mask) in
    let sum = b.sum -ℤ value r in
    if not (count == 1 || count == 2)
    then ok tt w
    else if ltb b.rptr count
    then fault
    else ok tt (record w {
      rec = record b { rptr = r; sum = if count == 2 then sum -ℤ value (r + 1) else sum };
    })

unfoldable pub unget_rec_buffer_delta : {D : Type 0} → ℕ → M D (Unit {0})
unget_rec_buffer_delta delta w =
    let b = w.rec in
    if b.rptr == 0
    then fault
    else ok tt (record w {
      rec = record b {
        rptr = b.rptr - 1;
        sum = b.sum -ℤ pos (bit_and delta pulse_mask);
        items = set b.items (b.rptr - 1) delta;
      };
    })

-- The bytes of a code in the order in which they were read.
unfoldable pub join_bytes : ℕ → List ℕ → ℕ
join_bytes acc [] = acc
join_bytes acc (x ∷ xs) = join_bytes ((shl acc 8 + x) % 2 ^ 64) xs

-- `rec_buffer_clear`: in code mode a new code is read; otherwise what is not consumed yet moves to
-- the front, or a first item is read.
module _ (dev : Device) where
  unfoldable pub rec_buffer_clear : M (dev.State) Bool
  rec_buffer_clear w =
      let b = w.rec in
      let cleared = record b { last_signal_time = record { tv_sec = 0; tv_usec = 0 } } in
      let finish = λ (b : RecBuffer) (s : dev.State).
        ok true (record w { rec = record (rec_buffer_rewind b) { is_biphase = false }; dev = s }) in
      let size = (dev.code_length + 7) / 8 in
      let (bytes, s) = dev.read_code size w.dev in
      let (d, s') = dev.readdata 0 w.dev in
      let move = b.wptr - b.rptr in
      let moved = take move (drop b.rptr b.items) ++ drop move b.items in
      elim dev.rec_mode [
        | lirccode ↦ elim bytes [
          | none ↦ ok false (record w { rec = cleared; dev = s })
          | some xs ↦ finish (record cleared { decoded = join_bytes 0 xs }) s
        ]
        | _ ↦
            if ltb 0 move && ltb 0 b.rptr
            then finish (record cleared { items = moved; wptr = move }) w.dev
            else finish (record cleared { items = set b.items 0 d; wptr = 1 }) s'
      ]
