-- ===== src/Irrecord/Press.antt =====
-- What lib/irrecord.c learns from single key presses: `get_gap_length`, for drivers that give whole
-- codes, and `get_toggle_bit_mask`. What the driver does in a call is an argument: whether data came
-- before the timeout, the times at which it came and ended, and what `decode_func` makes of it.
pub mod Laws
pub mod Run
use lirc.Base.{ℕ, zero, suc, ◌+◌, ◌-◌, ◌*◌, ◌/◌, ◌%◌, ◌^◌, List, [], ◌∷◌, Option, none, some}
use lirc.Base.{Bool, true, false, not, ◌&&◌, ◌||◌, ltb, leb, ◌==◌, if◌then◌else◌, bit_xor}
use lirc.Remote.{IrRemote, IrNcode, RemoteConf, Timeval, time_elapsed}
use lirc.Remote.Flags.{is_rc6}
use lirc.Remote.Context.{DecodeCtx}
use lirc.Irrecord.{Lengths}
use lirc.Irrecord.Histogram.{calc_signal, add_and_merge}
use lirc.Irrecord.Data.{set_toggle_bit_mask}
use lirc.Irrecord.Capture.Gap.{scan_gap}

pub data GapStatus : Type 0 where
  gap_timeout : GapStatus
  gap_is_found : GapStatus
  gap_got_one_press : GapStatus
  gap_again : GapStatus

-- `struct gap_state`, without what only lives within a call.
pub record GapState : Type 0 where
  pub gaps : List Lengths
  pub last_end : Timeval
  pub pressed : Bool
  pub lastmaxcount : ℕ

-- What `gap_state_init` leaves.
unfoldable pub gap_state_init : GapState
gap_state_init = record {
  gaps = [];
  last_end = record { tv_sec = 0; tv_usec = 0 };
  pressed = false;
  lastmaxcount = 0;
}

pub record GapCall : Type 0 where
  pub conf : RemoteConf
  pub state : GapState
  pub status : GapStatus

-- The time since the last press, as the pattern of a `lirc_t`, which is an `int`: it is that time
-- where it is below 2 ^ 31.
abbrev pub elapsed32 : Timeval → Timeval → ℕ
elapsed32 last start = time_elapsed last start % 2 ^ 32

-- After the time since the last press has been counted. A call that reports a press returns before
-- `last` is set.
unfoldable pub count_gap : RemoteConf → GapState → List Lengths → Timeval → GapCall
unfolding scan_gap
count_gap r state gaps' end =
    let scan = scan_gap gaps' 0 in
    elim scan.found [
      | some l ↦ record {
        conf = record r { gap = calc_signal l };
        state = record state { gaps = [] };
        status = gap_is_found;
      }
      | none ↦
          if ltb state.lastmaxcount scan.maxcount
          then record {
            conf = r;
            state = record state { gaps = gaps'; lastmaxcount = scan.maxcount };
            status = gap_got_one_press;
          }
          else record {
            conf = r;
            state = record state { gaps = gaps'; last_end = end };
            status = gap_again;
          }
    ]

-- `eps` and `aeps` are the variables of irrecord.c.
module _ (eps aeps : ℕ) where
  unfoldable pub get_gap_length : RemoteConf → GapState → Bool → Timeval → Timeval → GapCall
  unfolding count_gap
  get_gap_length r state ready start end =
      if not ready
      then record { conf = r; state = record state { gaps = [] }; status = gap_timeout }
      else if state.pressed
      then count_gap r state (add_and_merge eps aeps state.gaps (elapsed32 state.last_end start))
          end
      else record {
        conf = r;
        state = record state { pressed = true; last_end = end };
        status = gap_again;
      }

-- No button has more than one code.
unfoldable pub no_sequences : List IrNcode → Bool
no_sequences [] = true
no_sequences (c ∷ cs) = elim c.next [ [] ↦ no_sequences cs | _ ↦ false ]

unfoldable pub needs_toggle_mask : IrRemote → Bool
unfolding no_sequences
needs_toggle_mask r = is_rc6 r.conf && no_sequences r.codes

pub data ToggleStatus : Type 0 where
  tgl_timeout : ToggleStatus
  tgl_got_one_press : ToggleStatus
  tgl_not_found : ToggleStatus
  tgl_found : ToggleStatus
  tgl_again : ToggleStatus

-- `struct toggle_state`; `first` is `none` until the first code has come.
pub record ToggleState : Type 0 where
  pub retries : ℕ
  pub first : Option ℕ
  pub last : ℕ
  pub seq : ℕ
  pub repeats : ℕ
  pub found : Bool

-- What `toggle_state_init` leaves.
unfoldable pub toggle_state_init : ToggleState
toggle_state_init = record {
  retries = 30;
  first = none;
  last = 0;
  seq = 0;
  repeats = 0;
  found = false;
}

pub record ToggleCall : Type 0 where
  pub remote : IrRemote
  pub state : ToggleState
  pub status : ToggleStatus

-- The loop that tries every bit as the long one of RC-6, `left` of them; the remote has at least one.
unfoldable pub try_rc6_masks :
    (IrRemote → Option DecodeCtx) → IrRemote → ℕ → ℕ → IrRemote × Option DecodeCtx
try_rc6_masks decode r zero mask = (record r { conf = record r.conf { rc6_mask = 0 } }, none)
try_rc6_masks decode r (suc left) mask =
    let r' = record r { conf = record r.conf { rc6_mask = mask } } in
    let rest = try_rc6_masks decode r left (mask * 2 % 2 ^ 64) in
    elim (decode r') [ some c ↦ (r', some c) | none ↦ rest ]

-- `decode_func`, with the remaining gaps that it leaves in the remote.
unfoldable pub decode_press : (IrRemote → Option DecodeCtx) → IrRemote → IrRemote × Option DecodeCtx
unfolding try_rc6_masks
decode_press decode r =
    let tried =
      if is_rc6 r.conf && r.rc6_mask == 0 then try_rc6_masks decode r r.bits 1 else (r, decode r) in
    elim tried.1 [
      | none ↦ (tried.0, none)
      | some c ↦ (
        record tried.0 {
          min_remaining_gap = c.min_remaining_gap;
          max_remaining_gap = c.max_remaining_gap;
        },
        some c,
      )
    ]

-- A further press: where its code differs from the first one, those bits toggle.
unfoldable pub next_press : IrRemote → ToggleState → ℕ → ℕ → ToggleCall
next_press r state first code =
    let seq' = state.seq + 1 in
    let mask = bit_xor first code in
    let new = not state.found && not (mask == 0) in
    let marked = set_toggle_bit_mask r mask in
    record {
      remote =
          if new
          then record marked { conf = record marked.conf { min_repeat = state.repeats / seq' } }
          else r;
      state = record state {
        seq = seq';
        found = state.found || new;
        retries = state.retries - 1;
        last = code;
      };
      status = tgl_got_one_press;
    }

unfoldable pub count_press : IrRemote → ToggleState → DecodeCtx → ToggleCall
unfolding next_press
count_press r state c =
    let repeated : ToggleCall = record {
      remote = r;
      state = record state { repeats = state.repeats + 1; last = c.code };
      status = tgl_again;
    } in
    elim state.first [
      | none ↦ record {
        remote = r;
        state = record state { first = some c.code; repeats = state.repeats + 1; last = c.code };
        status = tgl_again;
      }
      | some first ↦
          if not c.repeat_flag || not (c.code == state.last)
          then next_press r state first c.code
          else repeated
    ]

-- The end of the retries.
unfoldable pub toggle_result : IrRemote → ToggleState → ToggleCall
toggle_result r state =
    if not state.found
    then record { remote = r; state = state; status = tgl_not_found }
    else record {
      remote =
          if ltb 0 state.seq
          then record r { conf = record r.conf { min_repeat = state.repeats / state.seq } }
          else r;
      state = state;
      status = tgl_found;
    }

unfoldable pub get_toggle_bit_mask :
    IrRemote → ToggleState → Bool → (IrRemote → Option DecodeCtx) → ToggleCall
unfolding decode_press count_press toggle_result
get_toggle_bit_mask r state ready decode =
    if state.retries == 0
    then toggle_result r state
    else if not ready
    then record { remote = r; state = state; status = tgl_timeout }
    else let got = decode_press decode r in
      elim got.1 [
        | some c ↦ count_press got.0 state c
        | none ↦ record {
          remote = got.0;
          state = record state { retries = state.retries - 1 };
          status = tgl_again;
        }
      ]
