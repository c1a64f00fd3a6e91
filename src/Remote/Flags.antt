-- ===== src/Remote/Flags.antt =====
-- The protocol and option flags of lib/ir_remote_types.h, and the tests on a remote's
-- configuration that lib/ir_remote.h makes of them.
use lirc.Base.{ℕ, ◌-◌, ◌^◌, Bool, not, ◌&&◌, ◌||◌, ltb, ◌==◌, bit_and, bit_or}
use lirc.Remote.{RemoteConf}

abbrev pub ir_protocol_mask : ℕ
ir_protocol_mask = 0x07ff

abbrev pub raw_codes : ℕ
raw_codes = 0x0001

abbrev pub rc5 : ℕ
rc5 = 0x0002

abbrev pub rc6 : ℕ
rc6 = 0x0004

abbrev pub rcmm : ℕ
rcmm = 0x0008

abbrev pub space_enc : ℕ
space_enc = 0x0010

abbrev pub space_first : ℕ
space_first = 0x0020

abbrev pub grundig : ℕ
grundig = 0x0080

abbrev pub bo : ℕ
bo = 0x0100

abbrev pub serial : ℕ
serial = 0x0200

abbrev pub xmp : ℕ
xmp = 0x0400

abbrev pub no_head_rep : ℕ
no_head_rep = 0x1000

abbrev pub no_foot_rep : ℕ
no_foot_rep = 0x2000

abbrev pub const_length : ℕ
const_length = 0x4000

abbrev pub repeat_header : ℕ
repeat_header = 0x8000

abbrev pub compat_reverse : ℕ
compat_reverse = 0x00010000

-- `flags & mask`, as a condition.
unfoldable pub has_flag : RemoteConf → ℕ → Bool
has_flag r mask = not (bit_and r.flags mask == 0)

unfoldable pub protocol : RemoteConf → ℕ
protocol r = bit_and r.flags ir_protocol_mask

-- `flags` is an `int`: `~` is taken within 32 bits.
unfoldable pub set_protocol : RemoteConf → ℕ → RemoteConf
set_protocol r p = record r { flags = bit_or (bit_and r.flags (2 ^ 32 - 1 - ir_protocol_mask)) p }

unfoldable pub is_raw : RemoteConf → Bool
unfolding protocol
is_raw r = protocol r == raw_codes

unfoldable pub is_space_enc : RemoteConf → Bool
unfolding protocol
is_space_enc r = protocol r == space_enc

unfoldable pub is_space_first : RemoteConf → Bool
unfolding protocol
is_space_first r = protocol r == space_first

unfoldable pub is_rc5 : RemoteConf → Bool
unfolding protocol
is_rc5 r = protocol r == rc5

unfoldable pub is_rcmm : RemoteConf → Bool
unfolding protocol
is_rcmm r = protocol r == rcmm

unfoldable pub is_grundig : RemoteConf → Bool
unfolding protocol
is_grundig r = protocol r == grundig

unfoldable pub is_bo : RemoteConf → Bool
unfolding protocol
is_bo r = protocol r == bo

unfoldable pub is_serial : RemoteConf → Bool
unfolding protocol
is_serial r = protocol r == serial

unfoldable pub is_xmp : RemoteConf → Bool
unfolding protocol
is_xmp r = protocol r == xmp

unfoldable pub is_rc6 : RemoteConf → Bool
unfolding protocol
is_rc6 r = protocol r == rc6 || not (r.rc6_mask == 0)

unfoldable pub is_biphase : RemoteConf → Bool
unfolding is_rc5 is_rc6
is_biphase r = is_rc5 r || is_rc6 r

unfoldable pub is_const : RemoteConf → Bool
unfolding has_flag
is_const r = has_flag r const_length

unfoldable pub has_repeat : RemoteConf → Bool
has_repeat r = ltb 0 r.prepeat && ltb 0 r.srepeat

unfoldable pub has_header : RemoteConf → Bool
has_header r = ltb 0 r.phead && ltb 0 r.shead

unfoldable pub has_foot : RemoteConf → Bool
has_foot r = ltb 0 r.pfoot && ltb 0 r.sfoot

unfoldable pub has_repeat_gap : RemoteConf → Bool
has_repeat_gap r = ltb 0 r.repeat_gap

unfoldable pub has_pre : RemoteConf → Bool
has_pre r = ltb 0 r.pre_data_bits

unfoldable pub has_post : RemoteConf → Bool
has_post r = ltb 0 r.post_data_bits

unfoldable pub has_toggle_bit_mask : RemoteConf → Bool
has_toggle_bit_mask r = ltb 0 r.toggle_bit_mask

unfoldable pub has_ignore_mask : RemoteConf → Bool
has_ignore_mask r = ltb 0 r.ignore_mask

unfoldable pub has_repeat_mask : RemoteConf → Bool
has_repeat_mask r = ltb 0 r.repeat_mask

unfoldable pub has_toggle_mask : RemoteConf → Bool
has_toggle_mask r = ltb 0 r.toggle_mask
