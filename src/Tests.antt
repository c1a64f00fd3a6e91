-- ===== src/Tests.antt =====
-- The theorems of this library on a small remote: a header, three bits of pre data and three of
-- code, with the durations of a usual space-encoded protocol.
pub mod Config
pub mod Client
pub mod Irrecord
use lirc.Base.{
  ℕ, ◌+◌, ◌-◌, ◌^◌, ◌%◌, ◌≤◌, ◌<◌, ◌≡◌, ◌≢◌, ◌↔◌, refl, arith, true, false, not, [], ◌∷◌, none,
  some,
}
use lirc.Base.{length, take, ltb, leb, ◌&&◌, same_bytes, if◌then◌else◌}
use lirc.Base.Int.{pos, ◌-ℤ◌}
use lirc.Remote.{
  RemoteConf, IrRemote, IrNcode, Timeval, in_codes, deref, min_gap, max_gap, bit_count,
}
use lirc.Remote.Code.{Parts, gen_ir_code, gen_mask, map_code, reverse}
use lirc.Remote.Code.Laws.{joined, gen_mask-eq, gen_ir_code-eq, gen_ir_code-map_code}
use lirc.Remote.Code.Reverse.{mirrored, reverse-eq-mirrored, reverse-reverse}
use lirc.Remote.Tolerance.{aeps, expect, expect_at_least, expect_at_most, upper_limit, lower_limit}
use lirc.Remote.Tolerance.Laws.{slack, expect_iff, expect-within_limits}
use lirc.Remote.Flags.{
  is_grundig, is_serial, is_bo, is_raw, is_rcmm, is_xmp, is_rc5, is_rc6, protocol, has_flag,
  no_head_rep, const_length, is_const, is_space_first, is_biphase, has_header, has_foot, has_pre,
  has_post,
}
use lirc.Transmit.{send_buffer_init, clear_send_buffer, sync_send_buffer, wbuf_size}
use lirc.Transmit.Buffer.{pulse, space, send_events, merge, merge_all, trimmed}
use lirc.Transmit.Buffer.Merge.{AllPositive}
use lirc.Transmit.Buffer.Sync.{IsReady, sync-send_events}
use lirc.Transmit.Frame.{send_code, send_data}
use lirc.Transmit.Frame.Events.{
  code_events, data_events, header_events, optional_pulse, pre_events, bit_events, post_events,
  foot_events, toggled, one_events, zero_events, separator,
}
use lirc.Transmit.Frame.Bits.{send_data-eq}
use lirc.Transmit.Frame.Code.{send_code-eq}
use lirc.Decode.Set.{whole_press}
use lirc.Decode.Set.Press.{whole_press-eq-gen_ir_code}
use lirc.Decode.All.{write_message}
use lirc.Decode.All.Hex.{read_hex, write_message-code}
use lirc.Decode.Gap.{map_gap, map_gap-remaining}
use lirc.Remote.Context.{DecodeCtx}
use lirc.Remotes.{get_frequency_range, get_filter_parameters}
use lirc.Remotes.Range.{Admits, get_frequency_range-holds, get_filter_parameters-Admits}
use lirc.Release.{Release, register_button_press, get_release_data, get_release_time, release_gap}
use lirc.Release.Time.{micros, register_button_press-release}
use lirc.Receive.{
  Device, World, mode2, ◌>>=◌, ◌>>◌, ret, ok, get_next_rec_buffer_internal, unget_rec_buffer,
}
use lirc.Receive.Rewind.{get-unget}
use lirc.Transmit.Put.Fuel.{send_loop-ends}
use lirc.Transmit.Put.{Sending, returns, init_sim, send_loop, out_of_fuel}
use lirc.Transmit.Put.Single.{signal, init_sim-signal}

abbrev pub conf : RemoteConf
conf = record {
  name = b't' ∷ b'v' ∷ [];
  bits = 3;
  flags = 0x0010;
  eps = 30;
  aeps = 100;
  phead = 9000;
  shead = 4500;
  pthree = 0;
  sthree = 0;
  ptwo = 0;
  stwo = 0;
  pone = 560;
  sone = 1690;
  pzero = 560;
  szero = 560;
  plead = 0;
  ptrail = 560;
  pfoot = 0;
  sfoot = 0;
  prepeat = 0;
  srepeat = 0;
  pre_data_bits = 3;
  pre_data = 5;
  post_data_bits = 0;
  post_data = 0;
  pre_p = 0;
  pre_s = 0;
  post_p = 0;
  post_s = 0;
  gap = 40000;
  gap2 = 0;
  repeat_gap = 0;
  toggle_bit_mask = 0;
  suppress_repeat = 0;
  min_repeat = 0;
  min_code_repeat = 0;
  freq = 38000;
  duty_cycle = 0;
  toggle_mask = 0;
  rc6_mask = 0;
  baud = 0;
  bits_in_byte = 8;
  parity = 0;
  stop_bits = 0;
  ignore_mask = 0;
  repeat_mask = 0;
  max_total_signal_length = 70000;
  min_gap_length = 40000;
  max_gap_length = 40000;
  min_pulse_length = 560;
  max_pulse_length = 9000;
  min_space_length = 560;
  max_space_length = 4500;
}

abbrev power : IrNcode
power = record {
  name = b'o' ∷ b'n' ∷ [];
  code = 6;
  signals = none;
  next = [];
  current = none;
  transmit_state = none;
}

abbrev pub tv : IrRemote
tv = record {
  conf = conf;
  identity = 1;
  codes = power ∷ [];
  dyncodes = [];
  dyncode = 0;
  toggle_bit_mask_state = 0;
  toggle_mask_state = 0;
  repeat_countdown = 0;
  last_code = none;
  toggle_code = none;
  reps = 0;
  last_send = record { tv_sec = 0; tv_usec = 0 };
  min_remaining_gap = 0;
  max_remaining_gap = 0;
  release_detected = false;
}

abbrev sending : Sending
sending = record { remote = tv; code = power; buffer = send_buffer_init }

code_events-AllPositive : AllPositive (code_events tv 6 false)
unfolding code_events header_events optional_pulse pre_events data_events bit_events post_events
    foot_events toggled one_events zero_events is_biphase is_space_first has_header has_foot has_pre
    has_post has_flag is_rc5 is_rc6 protocol separator
code_events-AllPositive = grind arith

init_sim-signal_example :
    let ds = signal tv power.code false in
    (t : Sending) × (init_sim 1 false false sending
      ≡ returns (ltb 0 (length ds) && leb (length ds) wbuf_size) t)
    × (length ds ≤ wbuf_size → take t.buffer.wptr t.buffer.array ≡ ds)
    × (t.remote ≡ tv)
unfolding is_grundig is_serial is_bo same_bytes is_raw is_rcmm is_xmp bit_count send_buffer_init
init_sim-signal_example =
    init_sim-signal 0 false sending refl refl refl refl refl (omega arith) refl
      code_events-AllPositive

sync-send_events_example :
    IsReady
      (sync_send_buffer
        (send_events (pulse 9 ∷ space 4 ∷ pulse 5 ∷ []) (clear_send_buffer send_buffer_init)))
      (9 ∷ 4 ∷ 5 ∷ [])
unfolding send_buffer_init trimmed merge_all merge
sync-send_events_example =
    sync-send_events send_buffer_init (pulse 9 ∷ space 4 ∷ pulse 5 ∷ []) refl
      (omega arith, (omega arith, (omega arith, tt)))

send_data-eq_example :
    send_data tv 5 3 0 send_buffer_init ≡ send_events (data_events tv 3 5 3) send_buffer_init
unfolding is_rcmm is_xmp bit_count
send_data-eq_example = send_data-eq tv 5 3 0 send_buffer_init refl refl (omega arith) (omega arith)

gen_ir_code-map_code_example :
    (t : Parts) × (map_code conf 1 1 2 3 3 2 ≡ some t)
    × (gen_ir_code conf t.pre t.code t.post ≡ joined 1 2 3 1 3 2)
    × (t.pre < 2 ^ 3)
    × (t.code < 2 ^ 3)
    × (t.post < 2 ^ 0)
unfolding is_raw
gen_ir_code-map_code_example = gen_ir_code-map_code conf 1 1 2 3 3 2 refl (omega arith) refl

send_code-eq_example :
    let sent = send_events (code_events tv 6 false) send_buffer_init in
    send_code tv 6 false send_buffer_init ≡ (
      if not false && has_flag conf no_head_rep && has_flag conf const_length
      then record sent { sum = sent.sum -ℤ pos (9000 + 4500) }
      else sent)
unfolding is_rcmm is_xmp bit_count
send_code-eq_example = send_code-eq tv refl refl (omega arith) 6 false send_buffer_init

whole_press-eq-gen_ir_code_example : whole_press conf 6 ≡ gen_ir_code conf 5 6 0
unfolding is_raw has_flag
whole_press-eq-gen_ir_code_example =
    whole_press-eq-gen_ir_code conf 6 refl refl (omega arith) (omega arith) (omega arith)
      (omega arith)

write_message-code_example :
    read_hex 0 (take 16 (write_message 257 tv.name power.name (some []) 46 (pos 0)).0) ≡ 46
write_message-code_example =
    write_message-code 257 tv.name power.name (some []) 46 (pos 0) (omega arith) (omega arith)

reverse-reverse_example : reverse (reverse 6 3) 3 ≡ 6 % 2 ^ 3
reverse-reverse_example = reverse-reverse 6 3 (omega arith)

reverse-eq-mirrored_example : reverse 6 3 ≡ mirrored 6 3
reverse-eq-mirrored_example = reverse-eq-mirrored 6 3 (omega arith)

gen_mask-eq_example : gen_mask 10 ≡ 2 ^ 10 - 1
gen_mask-eq_example = gen_mask-eq 10 (omega arith)

gen_ir_code-eq_example : gen_ir_code conf 5 6 0 ≡ joined 3 3 0 5 6 0
unfolding is_raw
gen_ir_code-eq_example = gen_ir_code-eq conf 5 6 0 refl (omega arith)

-- A sequence of two codes, sent three times.
abbrev repeated : Sending
repeated = record sending {
  remote = record tv { repeat_countdown = 2 };
  code = record power { next = 3 ∷ [] };
}

send_loop-ends_example : send_loop 6 false false repeated ≢ out_of_fuel
unfolding is_xmp protocol
send_loop-ends_example = send_loop-ends 6 false false repeated refl (λ e. grind arith) (omega arith)

abbrev context : DecodeCtx
context = record {
  code = 6;
  pre = 5;
  post = 0;
  repeat_flag = false;
  max_remaining_gap = 0;
  min_remaining_gap = 0;
}

abbrev noon : Timeval
noon = record { tv_sec = 43200; tv_usec = 999000 }

map_gap-remaining_example :
    let c = map_gap 50 tv context noon noon 30000 in
    let used : ℕ = if is_const conf then 30000 else 0 in
    (c.min_remaining_gap ≡ min_gap conf - used)
    × (c.max_remaining_gap ≡ max_gap conf - used)
    × (c.min_remaining_gap ≤ c.max_remaining_gap)
map_gap-remaining_example = map_gap-remaining 50 tv context noon noon 30000

get_frequency_range-holds_example :
    ((get_frequency_range (conf ∷ [])).0 ≤ 38000) × (38000 ≤ (get_frequency_range (conf ∷ [])).1)
get_frequency_range-holds_example = get_frequency_range-holds (conf ∷ []) 0 conf refl (omega arith)

get_filter_parameters-Admits_example : Admits 50 (get_filter_parameters 50 (conf ∷ [])) conf
get_filter_parameters-Admits_example = get_filter_parameters-Admits 50 (conf ∷ []) 0 conf refl

expect_iff_example :
    (expect 50 conf (pos 600) (pos 560) ≡ true)
    ↔ ((560 ≤ 600 + slack 50 conf 560) × (600 ≤ 560 + slack 50 conf 560))
expect_iff_example = expect_iff 50 conf 600 560

expect-within_limits_example :
    (lower_limit 50 conf 560 ≤ 600)
    × (600 ≤ upper_limit 50 conf 560)
    × (expect_at_most 50 conf (pos (upper_limit 50 conf 560)) (pos 560) ≡ true)
unfolding expect aeps
expect-within_limits_example = expect-within_limits 50 conf 600 560 (omega arith) refl

abbrev idle_release : Release
idle_release = record { first = none; second = none; reps = pos 0; gap = 0; time = noon }

register_button_press-release_example :
    let s' = register_button_press 50 noon tv (in_codes 0) 46 (pos 0) idle_release in
    (get_release_data s' ≡ some (tv.name, (deref tv (in_codes 0)).name, pos 0))
    × (micros (get_release_time s') ≡ micros noon + release_gap 50 tv)
register_button_press-release_example =
    register_button_press-release 50 noon tv (in_codes 0) 46 (pos 0) idle_release

-- A device that gives no data.
abbrev silent : Device
silent = record {
  State = Unit {0};
  readdata = λ timeout s. (0, s);
  gettimeofday = λ s. (noon, s);
  read_code = λ size s. (none, s);
  rec_mode = mode2;
  code_length = 0;
  resolution = 50;
}

abbrev received : World (Unit {0})
received = record {
  rec = record {
    items = 0x01000230 ∷ 0x230 ∷ [];
    decoded = 0;
    rptr = 0;
    wptr = 2;
    too_long = false;
    is_biphase = false;
    pendingp = 0;
    pendings = 0;
    sum = pos 0;
    last_signal_time = record { tv_sec = 0; tv_usec = 0 };
    at_eof = false;
  };
  dev = tt;
  remote = tv;
  last_remote = none;
  update_mode = false;
}

get-unget_example :
    (get_next_rec_buffer_internal silent 1 1000 >>= λ d. unget_rec_buffer 1 >> ret d) received
    ≡ ok 0x01000230 received
get-unget_example = get-unget silent 0 1000 received (omega arith)
