-- ===== src/Remote.antt =====
-- The data of lib/ir_remote_types.h: what one remote of the configuration holds, and the state that
-- receiving and sending keep in it.
-- Durations, bit counts and masks are native numbers (the configuration holds no negative one);
-- pointers into a list are indices, and a null pointer is `none`.
pub mod Flags
pub mod Code
pub mod Context
pub mod Tolerance
use lirc.Base.{ℕ, ◌+◌, ◌-◌, ◌*◌, ◌^◌, ◌%◌, List, [], ◌∷◌, Option, none, some, Bool, not, ◌&&◌}
use lirc.Base.{if◌then◌else◌, ltb, ◌==◌, length, get_or}

-- A C string as its bytes.
abbrev pub Name : Type 0
Name = List ℕ

-- `struct timeval`.
pub record Timeval : Type 0 where
  pub tv_sec : ℕ
  pub tv_usec : ℕ

-- `struct ir_ncode`: the codes of the linked list `next` as a list, `current` and `transmit_state`
-- as positions in it.
pub record IrNcode : Type 0 where
  pub name : Name
  pub code : ℕ
  pub signals : Option (List ℕ)
  pub next : List ℕ
  pub current : Option ℕ
  pub transmit_state : Option ℕ

-- A pointer to a code: into `codes`, into `dyncodes`, or to the static `NCODE_EOF`.
pub data CodeRef : Type 0 where
  in_codes : ℕ → CodeRef
  in_dyncodes : ℕ → CodeRef
  ncode_eof : CodeRef

-- The fields of `struct ir_remote` that the configuration sets.
pub record RemoteConf : Type 0 where
  pub name : Name
  pub bits : ℕ
  pub flags : ℕ
  pub eps : ℕ
  pub aeps : ℕ
  pub phead : ℕ
  pub shead : ℕ
  pub pthree : ℕ
  pub sthree : ℕ
  pub ptwo : ℕ
  pub stwo : ℕ
  pub pone : ℕ
  pub sone : ℕ
  pub pzero : ℕ
  pub szero : ℕ
  pub plead : ℕ
  pub ptrail : ℕ
  pub pfoot : ℕ
  pub sfoot : ℕ
  pub prepeat : ℕ
  pub srepeat : ℕ
  pub pre_data_bits : ℕ
  pub pre_data : ℕ
  pub post_data_bits : ℕ
  pub post_data : ℕ
  pub pre_p : ℕ
  pub pre_s : ℕ
  pub post_p : ℕ
  pub post_s : ℕ
  pub gap : ℕ
  pub gap2 : ℕ
  pub repeat_gap : ℕ
  pub toggle_bit_mask : ℕ
  pub suppress_repeat : ℕ
  pub min_repeat : ℕ
  pub min_code_repeat : ℕ
  pub freq : ℕ
  pub duty_cycle : ℕ
  pub toggle_mask : ℕ
  pub rc6_mask : ℕ
  pub baud : ℕ
  pub bits_in_byte : ℕ
  pub parity : ℕ
  pub stop_bits : ℕ
  pub ignore_mask : ℕ
  pub repeat_mask : ℕ
  pub max_total_signal_length : ℕ
  pub min_gap_length : ℕ
  pub max_gap_length : ℕ
  pub min_pulse_length : ℕ
  pub max_pulse_length : ℕ
  pub min_space_length : ℕ
  pub max_space_length : ℕ

-- `struct ir_remote`: the configuration, and below it what receiving and sending change.
-- `identity` stands for the address of the structure.
pub record IrRemote : Type 0 where
  pub conf : RemoteConf
  pub open conf use *
  pub identity : ℕ
  pub codes : List IrNcode
  pub dyncodes : List IrNcode
  pub dyncode : ℕ
  pub toggle_bit_mask_state : ℕ
  pub toggle_mask_state : ℕ
  pub repeat_countdown : ℕ
  pub last_code : Option CodeRef
  pub toggle_code : Option CodeRef
  pub reps : ℕ
  pub last_send : Timeval
  pub min_remaining_gap : ℕ
  pub max_remaining_gap : ℕ
  pub release_detected : Bool

-- `node->next` for the node at a position.
abbrev pub next_node : IrNcode → ℕ → Option ℕ
next_node c i = if ltb (i + 1) (length c.next) then some (i + 1) else none

-- `ncode->next`: the first node.
abbrev pub first_node : IrNcode → Option ℕ
first_node c = elim c.next [ [] ↦ none | _ ↦ some 0 ]

unfoldable pub get_ir_code : IrNcode → Option ℕ → ℕ
get_ir_code c none = c.code
get_ir_code c (some i) = get_or c.next i c.code

unfoldable pub get_next_ir_code_node : IrNcode → Option ℕ → Option ℕ
get_next_ir_code_node c none = first_node c
get_next_ir_code_node c (some i) = next_node c i

unfoldable pub bit_count : RemoteConf → ℕ
bit_count r = r.pre_data_bits + r.bits + r.post_data_bits

unfoldable pub min_gap : RemoteConf → ℕ
min_gap r = if not (r.gap2 == 0) && ltb r.gap2 r.gap then r.gap2 else r.gap

unfoldable pub max_gap : RemoteConf → ℕ
max_gap r = if ltb r.gap r.gap2 then r.gap2 else r.gap

-- `duty_cycle` is unsigned, so that the test for a negative one never holds.
unfoldable pub get_duty_cycle : RemoteConf → ℕ
get_duty_cycle r =
    if r.duty_cycle == 0 then 50 else if ltb 100 r.duty_cycle then 100 else r.duty_cycle

abbrev u64_mod : ℕ
u64_mod = 2 ^ 64

-- `unsigned long` arithmetic: a `current` before `last` wraps round.
unfoldable pub time_elapsed : Timeval → Timeval → ℕ
time_elapsed last current =
    let secs = (current.tv_sec + u64_mod - last.tv_sec) % u64_mod in
    (1000000 * secs + current.tv_usec + u64_mod - last.tv_usec) % u64_mod

unfoldable pub time_left : Timeval → Timeval → ℕ → ℕ
unfolding time_elapsed
time_left current last gap =
    let diff = time_elapsed last current in if ltb diff gap then gap - diff else 0

abbrev eof_name : Name
eof_name = b'_' ∷ b'_' ∷ b'E' ∷ b'O' ∷ b'F' ∷ []

-- The static `NCODE_EOF` of lib/ir_remote.c.
abbrev pub ncode_eof_value : IrNcode
ncode_eof_value = record {
  name = eof_name;
  code = 0x08000000;
  signals = none;
  next = [];
  current = none;
  transmit_state = none;
}

-- The code that a pointer stands for.
unfoldable pub deref : IrRemote → CodeRef → IrNcode
deref r (in_codes i) = get_or r.codes i ncode_eof_value
deref r (in_dyncodes i) = get_or r.dyncodes i ncode_eof_value
deref r ncode_eof = ncode_eof_value
