-- ===== src/Transmit/Frame/Events.antt =====
-- The signal of a code, as a list of pulses and spaces: what the `send_` functions are to put into
-- the buffer. The bits go out with the most significant first, each with the toggles at its place.
use lirc.Base.{ℕ, zero, suc, ◌+◌, ◌*◌, ◌/◌, ◌%◌, ◌^◌, Bool, ◌&&◌, ltb, ◌==◌}
use lirc.Base.{if◌then◌else◌, List, [], ◌∷◌, ◌++◌}
use lirc.Remote.{RemoteConf, IrRemote}
use lirc.Remote.Flags.{
  is_biphase, is_space_first, has_flag, has_header, has_foot, has_pre, has_post,
}
use lirc.Remote.Flags.{no_head_rep, no_foot_rep}
use lirc.Remote.Code.{bits_set}
use lirc.Transmit.Buffer.{Event, pulse, space}

-- Bit `m` of a word, 0 or 1.
abbrev pub bit_at : ℕ → ℕ → ℕ
bit_at x m = x / 2 ^ m % 2

abbrev pub has_bit : ℕ → ℕ → Bool
has_bit x m = bit_at x m == 1

-- The bit that goes out at position `m` for the bit `v` of the code: under the toggle bit mask the
-- state of the remote stands for it (a mask of one bit) or flips it, and a toggle mask flips it on
-- every other signal.
unfoldable pub toggled : IrRemote → ℕ → ℕ → ℕ
toggled r m v =
    let v' =
      if has_bit r.toggle_bit_mask m
      then (if bits_set r.toggle_bit_mask == 1
          then bit_at r.toggle_bit_mask_state m
          else (v + bit_at r.toggle_bit_mask_state m) % 2)
      else v in
    if has_bit r.toggle_mask m then (v' + r.toggle_mask_state) % 2 else v'

-- RC-6 doubles the lengths of some bits.
unfoldable pub one_events : RemoteConf → ℕ → List Event
one_events r m =
    if is_biphase r
    then (let k : ℕ = if has_bit r.rc6_mask m then 2 else 1 in
        space (k * r.sone) ∷ pulse (k * r.pone) ∷ [])
    else if is_space_first r
    then space r.sone ∷ pulse r.pone ∷ []
    else pulse r.pone ∷ space r.sone ∷ []

unfoldable pub zero_events : RemoteConf → ℕ → List Event
zero_events r m =
    if has_bit r.rc6_mask m
    then pulse (2 * r.pzero) ∷ space (2 * r.szero) ∷ []
    else if is_space_first r
    then space r.szero ∷ pulse r.pzero ∷ []
    else pulse r.pzero ∷ space r.szero ∷ []

unfoldable pub bit_events : IrRemote → ℕ → ℕ → List Event
bit_events r m v = if toggled r m v == 0 then zero_events r.conf m else one_events r.conf m

-- The `n` low bits of `x`, from the top; the lowest one stands at position `base` of the signal.
unfoldable pub data_events : IrRemote → ℕ → ℕ → ℕ → List Event
data_events r base x zero = []
data_events r base x (suc n) = bit_events r (base + n) (bit_at x n) ++ data_events r base x n

unfoldable pub header_events : RemoteConf → List Event
header_events r = if has_header r then pulse r.phead ∷ space r.shead ∷ [] else []

unfoldable pub foot_events : RemoteConf → List Event
foot_events r = if has_foot r then space r.sfoot ∷ pulse r.pfoot ∷ [] else []

-- A pulse, left out where the configuration gives it no length.
unfoldable pub optional_pulse : ℕ → List Event
optional_pulse d = if d == 0 then [] else pulse d ∷ []

-- The separator of pre data and code, or of code and post data.
unfoldable pub separator : ℕ → ℕ → List Event
separator p s = if ltb 0 p && ltb 0 s then pulse p ∷ space s ∷ [] else []

unfoldable pub pre_events : IrRemote → List Event
pre_events r =
    if has_pre r.conf
    then data_events r (r.bits + r.post_data_bits) r.pre_data r.pre_data_bits
      ++ separator r.pre_p r.pre_s
    else []

unfoldable pub post_events : IrRemote → List Event
post_events r =
    if has_post r.conf
    then separator r.post_p r.post_s ++ data_events r 0 r.post_data r.post_data_bits
    else []

-- A whole code: header, lead, pre data, code, post data, trail, foot.
unfoldable pub code_events : IrRemote → ℕ → Bool → List Event
code_events r code repeat =
    (if repeat && has_flag r.conf no_head_rep then [] else header_events r.conf)
    ++ (optional_pulse r.plead
        ++ (pre_events r
            ++ (data_events r r.post_data_bits code r.bits
                ++ (post_events r
                    ++ (optional_pulse r.ptrail
                        ++ (if repeat && has_flag r.conf no_foot_rep
                            then []
                            else foot_events r.conf))))))
