-- ===== src/Transmit/Put.antt =====
-- `init_send_or_sim` of lib/transmit.c: a code, its repetitions and its further codes as one buffer.
-- It changes the remote (gaps, countdown, toggle state), the code (`transmit_state`) and the buffer.
pub mod Single
pub mod Sequence
pub mod Fuel
use lirc.Base.{ℕ, zero, suc, ◌+◌, ◌-◌, ◌%◌, Bool, true, false, not, ◌&&◌, ◌||◌, ltb, ◌==◌}
use lirc.Base.{
  List, [], ◌∷◌, Option, none, some, if◌then◌else◌, bit_xor, length, set, take, get_or, same_bytes,
}
use lirc.Base.Int.{ℤ, pos, pos_part, ◌+ℤ◌, ◌-ℤ◌, ltb_ℤ}
use lirc.Remote.{RemoteConf, IrRemote, IrNcode, Name, min_gap, max_gap, first_node, next_node}
use lirc.Remote.Flags.{
  has_flag, is_raw, is_xmp, is_biphase, is_const, is_grundig, is_serial, is_bo, has_header,
  has_repeat, has_repeat_gap, has_repeat_mask, has_toggle_mask, repeat_header,
}
use lirc.Transmit.{
  SendBuffer, DataPtr, null, own, signals, clear_send_buffer, send_signals, sync_send_buffer,
  bad_send_buffer, check_send_buffer, send_space, flush_send_buffer,
}
use lirc.Transmit.Frame.{send_header, send_repeat, send_code}

abbrev pub exact_gap_threshold : ℕ
exact_gap_threshold = 10000

abbrev pub lirc_eof : ℕ
lirc_eof = 0x08000000

-- "lirc".
abbrev pub lirc_name : Name
lirc_name = b'l' ∷ b'i' ∷ b'r' ∷ b'c' ∷ []

-- What the call changes.
pub record Sending : Type 0 where
  pub remote : IrRemote
  pub code : IrNcode
  pub buffer : SendBuffer

-- `fault` is an access through the null pointer; `out_of_fuel` a loop with more rounds than fuel.
pub data Outcome : Type 0 where
  returns : Bool → Sending → Outcome
  fault out_of_fuel : Outcome

-- One round from `init_send_loop` on: a `return 0`, `goto final_check`, or another round.
pub data Round : Type 0 where
  fails : Sending → Round
  checks : Sending → Round
  again : Sending → Round
  faults : Round

pub sum_onto : ℤ → List ℕ → ℤ
sum_onto s [] = s
sum_onto s (x ∷ xs) = sum_onto (s +ℤ pos x) xs

-- The code that a round sends.
pub next_code : Bool → Bool → IrRemote → IrNcode → ℕ
next_code sim repeat r c =
    let code =
      if sim
      then c.code
      else elim c.transmit_state [ none ↦ c.code | some i ↦ get_or c.next i c.code ] in
    if repeat && has_repeat_mask r.conf then bit_xor code r.repeat_mask else code

pub count_toggle : Bool → IrRemote → IrRemote
count_toggle sim r =
    let n = r.toggle_mask_state + 1 in
    if not sim && has_toggle_mask r.conf
    then record r { toggle_mask_state = if n == 4 then 2 else n }
    else r

-- A raw code goes out from its own array where the buffer is empty.
pub fill_raw : List ℕ → SendBuffer → SendBuffer
fill_raw xs b =
    if ltb 0 b.wptr
    then send_signals xs b
    else record b { data_ptr = signals xs; wptr = length xs; sum = sum_onto b.sum xs }

-- The signals of the round; `none` is the `return 0` of a raw code without signals.
pub fill : Bool → Bool → Sending → Option Sending
unfolding next_code count_toggle fill_raw
fill sim repeat s =
    let r = s.remote in
    let b = s.buffer in
    let with_header =
      if has_flag r.conf repeat_header && has_header r.conf then send_header r.conf b else b in
    let sent = send_code r (next_code sim repeat r s.code) repeat b in
    if repeat && has_repeat r.conf
    then some (record s { buffer = send_repeat r.conf with_header })
    else if not (is_raw r.conf)
    then some (record s { remote = count_toggle sim r; buffer = record sent { data_ptr = own } })
    else elim s.code.signals [ none ↦ none | some xs ↦ some (record s { buffer = fill_raw xs b }) ]

-- The time to wait after the signal; `false` where the signal is longer than the gap.
pub set_gaps : Bool → SendBuffer → IrRemote → Bool × IrRemote
set_gaps repeat b r =
    let low = min_gap r.conf in
    let high = max_gap r.conf in
    if has_repeat_gap r.conf && repeat && has_repeat r.conf
    then (true, record r { min_remaining_gap = r.repeat_gap; max_remaining_gap = r.repeat_gap })
    else if is_const r.conf
    then (if ltb_ℤ b.sum (pos low)
        then (
          true,
          record r {
            min_remaining_gap = pos_part (pos low -ℤ b.sum);
            max_remaining_gap = pos_part (pos high -ℤ b.sum);
          },
        )
        else (false, record r { min_remaining_gap = low; max_remaining_gap = high }))
    else (true, record r { min_remaining_gap = low; max_remaining_gap = high })

-- The transmit state moves to the next code of the list; XMP starts over at its end.
pub next_state : RemoteConf → IrNcode → Option ℕ
next_state r c = elim c.transmit_state [
  | none ↦ first_node c
  | some i ↦ elim (next_node c i) [
    | some j ↦ some j
    | none ↦ if is_xmp r then first_node c else none
  ]
]

pub advance : RemoteConf → IrNcode → IrNcode
unfolding next_state
advance r c = elim c.next [ [] ↦ c | _ ↦ record c { transmit_state = next_state r c } ]

abbrev pub is_some {ℓ} : {A : Type ℓ} → Option A → Bool
is_some none = false
is_some (some a) = true

pub more_to_send : IrRemote → IrNcode → Bool
more_to_send r c =
    (ltb 0 r.repeat_countdown || is_some c.transmit_state)
    && ltb r.min_remaining_gap exact_gap_threshold

-- The raw signals are copied into the buffer, so that more can follow them.
pub unroll : SendBuffer → Option SendBuffer
unroll b = elim b.data_ptr [
  | null ↦ none
  | own ↦ some b
  | signals xs ↦ some (send_signals (take b.wptr xs) (record b { data_ptr = own; wptr = 0 }))
]

-- The gap goes into the buffer as a space, and the next round follows it.
pub concatenate : Sending → Option Sending
unfolding unroll
concatenate s =
    let r = s.remote in
    let counts : Bool = elim s.code.next [ [] ↦ true | _ ↦ not (is_some s.code.transmit_state) ] in
    let r' = if counts then record r { repeat_countdown = r.repeat_countdown - 1 } else r in
    elim (unroll s.buffer) [
      | none ↦ none
      | some b ↦
          let b' = flush_send_buffer (send_space r.min_remaining_gap b) in
          some (record s { remote = r'; buffer = record b' { sum = pos 0 } })
    ]

-- The rest of a round, once its signals are in the buffer.
pub round_end : Bool → Bool → Sending → Round
unfolding set_gaps advance more_to_send concatenate
round_end sim repeat t =
    let u = record t { buffer = sync_send_buffer t.buffer } in
    let (fits, r) = set_gaps repeat u.buffer u.remote in
    let v = record u { remote = r; code = advance r.conf u.code } in
    if bad_send_buffer u.buffer
    then fails u
    else if sim
    then checks u
    else if not fits
    then fails (record u { remote = r })
    else if more_to_send v.remote v.code
    then elim (concatenate v) [ none ↦ faults | some w ↦ again w ]
    else checks v

pub send_round : Bool → Bool → Sending → Round
unfolding fill round_end
send_round sim repeat s = elim (fill sim repeat s) [
  | none ↦ fails s
  | some t ↦ round_end sim repeat t
]

-- From the label `final_check` on.
pub final_check : Sending → Outcome
final_check s = elim (check_send_buffer s.buffer) [ none ↦ fault | some ok ↦ returns ok s ]

pub send_loop : ℕ → Bool → Bool → Sending → Outcome
send_loop zero sim repeat s = out_of_fuel
send_loop (suc fuel) sim repeat s = elim (send_round sim repeat s) [
  | fails t ↦ returns false t
  | checks t ↦ final_check t
  | again t ↦ send_loop fuel sim true t
  | faults ↦ fault
]

-- The packet for the end of the input: one item, written through `data`.
pub send_eof : Sending → Outcome
unfolding final_check
send_eof s =
    let b = s.buffer in
    let item = lirc_eof + 1 in
    elim b.data_ptr [
      | null ↦ fault
      | own ↦
          final_check
            (record s { buffer = record b { array = set b.array b.wptr item; wptr = b.wptr + 1 } })
      | signals xs ↦ final_check (record s {
        buffer = record b { data_ptr = signals (set xs b.wptr item); wptr = b.wptr + 1 };
      })
    ]

-- `repeating` is `repeat_remote != NULL`: a repeat by the client is going on.
unfoldable pub init_send_or_sim : ℕ → Bool → Bool → Bool → Sending → Outcome
unfolding send_loop send_round send_eof
init_send_or_sim fuel repeating sim repeat_preset s =
    let r = s.remote in
    let b = clear_send_buffer s.buffer in
    let b' = if is_biphase r.conf then record b { is_biphase = true } else b in
    let r' = if sim || repeating then r else record r { repeat_countdown = r.min_repeat } in
    let repeat = if sim then repeat_preset else repeat_preset || repeating in
    let started = record s { remote = r'; buffer = b' } in
    if is_grundig r.conf || is_serial r.conf || is_bo r.conf
    then returns false s
    else if same_bytes r.name lirc_name
    then send_eof (record s { buffer = b })
    else send_loop fuel sim repeat started

-- `send_buffer_put` and `init_sim`.
unfoldable pub send_buffer_put : ℕ → Bool → Sending → Outcome
send_buffer_put fuel repeating s = init_send_or_sim fuel repeating false false s

unfoldable pub init_sim : ℕ → Bool → Bool → Sending → Outcome
init_sim fuel repeating repeat_preset s = init_send_or_sim fuel repeating true repeat_preset s
