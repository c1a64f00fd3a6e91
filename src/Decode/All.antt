-- ===== src/Decode/All.antt =====
-- `decode_all` and `write_message` of lib/ir_remote.c: the message for a received signal.
-- The decoder of the driver (`decode_func`) and the clock are parameters.
pub mod Hex
use lirc.Base.{ℕ, zero, suc, ◌+◌, ◌-◌, ◌*◌, ◌^◌, ◌%◌, ◌/◌, Bool, true, false, not, ◌&&◌, ◌||◌}
use lirc.Base.{if◌then◌else◌, ltb, ◌==◌, max, List, [], ◌∷◌, ◌++◌, map, length, take, set, get_or}
use lirc.Base.{Option, none, some}
use lirc.Base.Int.{ℤ, pos, pos_part, neg_part, sub_ℕ}
use lirc.Remote.{IrRemote, IrNcode, CodeRef, in_codes, in_dyncodes, ncode_eof, ncode_eof_value}
use lirc.Remote.{Timeval, Name, first_node, deref}
use lirc.Remote.Code.{Parts}
use lirc.Remote.Context.{DecodeCtx}
use lirc.Remote.Flags.{has_toggle_mask, is_xmp}
use lirc.Decode.{is_null}
use lirc.Decode.Find.{get_code}
use lirc.Decode.Set.{set_code}
use lirc.Release.{Release, register_button_press}

unfoldable pub hex_digit : ℕ → ℕ
hex_digit d = if ltb d 10 then 48 + d else 87 + d

-- The `k` low hexadecimal digits, the highest first.
unfoldable pub hex_fixed : ℕ → ℕ → List ℕ
unfolding hex_digit
hex_fixed zero n = []
hex_fixed (suc k) n = hex_fixed k (n / 16) ++ (hex_digit (n % 16) ∷ [])

-- The digits that a number below 16 ^ (k + 1) needs.
unfoldable pub digits_needed : ℕ → ℕ → ℕ
digits_needed zero n = 1
digits_needed (suc k) n = let rest = digits_needed k (n / 16) in if ltb n 16 then 1 else rest + 1

-- The text of `"%016llx %02x %s%s %s\n"`.
unfoldable pub message_text : Name → Name → Option Name → ℕ → ℤ → List ℕ
unfolding hex_fixed digits_needed
message_text remote button suffix code reps =
    let unsigned = (2 ^ 32 + pos_part reps - neg_part reps) % 2 ^ 32 in
    let tail : Name = elim suffix [ none ↦ [] | some s ↦ s ] in
    hex_fixed 16 code
    ++ (b' '
        ∷ (hex_fixed (max 2 (digits_needed 7 unsigned)) unsigned
            ++ (b' ' ∷ (button ++ (tail ++ (b' ' ∷ (remote ++ (b'\n' ∷ []))))))))

-- `snprintf`: what fits the buffer before its terminating zero, and the length of the whole text.
unfoldable pub write_message : ℕ → Name → Name → Option Name → ℕ → ℤ → List ℕ × ℕ
unfolding message_text
write_message size remote button suffix code reps =
    let text = message_text remote button suffix code reps in (take (size - 1) text, length text)

abbrev pub packet_size : ℕ
packet_size = 256

-- "0000000008000000 00 __EOF lirc\n".
abbrev pub packet_eof : List ℕ
packet_eof =
    hex_fixed 16 0x08000000
    ++ (b' ' ∷ b'0' ∷ b'0' ∷ b' ' ∷ b'_' ∷ b'_' ∷ b'E' ∷ b'O' ∷ b'F' ∷ b' ' ∷ b'l' ∷ b'i' ∷ b'r'
        ∷ b'c' ∷ b'\n' ∷ [])

-- `last_remote` and `last_decoded` hold identities of remotes; `driver` is the state of the driver.
pub record Decoder (S : Type 0) : Type 0 where
  pub remotes : List IrRemote
  pub last_remote : Option ℕ
  pub last_decoded : Option ℕ
  pub release : Release
  pub driver : S

unfoldable pub with_current : Option ℕ → IrNcode → IrNcode
with_current at c = record c { current = at }

unfoldable pub set_current : Option ℕ → CodeRef → IrRemote → IrRemote
unfolding with_current
set_current at (in_codes i) r = record r {
  codes = set r.codes i (with_current at (get_or r.codes i ncode_eof_value));
}
set_current at (in_dyncodes i) r = record r {
  dyncodes = set r.dyncodes i (with_current at (get_or r.dyncodes i ncode_eof_value));
}
set_current at ncode_eof r = r

unfoldable pub clear_current : IrRemote → IrRemote
unfolding with_current
clear_current r = record r { codes = map (with_current none) r.codes }

-- The repetitions that a message reports, none when the press is still suppressed.
unfoldable pub reported_reps : IrRemote → IrNcode → Option ℤ
reported_reps r c =
    let reps = sub_ℕ r.reps (if is_null (first_node c) then 0 else 1) in
    let n = pos_part reps in
    if ltb 0 n
    then (if ltb r.suppress_repeat n then some (pos (n - r.suppress_repeat)) else none)
    else some reps

module _ {S : Type 0} (decode_func : IrRemote → S → Option DecodeCtx × IrRemote × S)
    (gettimeofday : S → Timeval × S) (resolution : ℕ) (dyncodes : Bool) where
  -- The press goes to lib/release.c, and its message to the caller when it fits.
  unfoldable pub report :
      Timeval → IrRemote → CodeRef → ℕ → ℤ → Decoder S → Option (List ℕ) × Decoder S
  unfolding write_message
  report now r last code reps d =
      let (text, len) =
        write_message (packet_size + 1) r.name (deref r last).name (some []) code reps in
      (
        if ltb len (packet_size + 1) then some text else none,
        record d { release = register_button_press resolution now r last code reps d.release },
      )

  -- What happens once a button of the remote is known; `before` and `after` are the other remotes.
  unfoldable pub press :
      List IrRemote
      → List IrRemote
      → IrRemote
      → CodeRef
      → ℕ
      → DecodeCtx
      → Decoder S
      → Option (List ℕ) × Decoder S
  unfolding report set_current clear_current reported_reps
  press before after r ncode_eof state ctx d =
      (some packet_eof, record d { remotes = before ++ r ∷ after })
  press before after r ref state ctx d =
      let (now, s1) = gettimeofday d.driver in
      let (r1, ctx1) = set_code now d.last_decoded r ref state ctx in
      let c = deref r1 ref in
      let d1 : Decoder S = record d {
        remotes = before ++ r1 ∷ after;
        last_remote = some r.identity;
        last_decoded = some r.identity;
        driver = s1;
      } in
      let unfinished =
        has_toggle_mask r.conf && not (r1.toggle_mask_state % 2 == 0) || not (is_null c.current) in
      let last : CodeRef = elim r1.last_code [ none ↦ ref | some l ↦ l ] in
      let r2 : IrRemote =
        if is_xmp r.conf
        then set_current (first_node (deref r1 last)) last (clear_current r1)
        else clear_current r1 in
      let d2 : Decoder S = record d1 {
        remotes = map clear_current before ++ r2 ∷ map clear_current after;
      } in
      let (now', s2) = gettimeofday s1 in
      if unfinished then (none, d1) else elim (reported_reps r2 c) [
        | none ↦ (none, d2)
        | some reps ↦ report now' r2 last ctx1.code reps (record d2 { driver = s2 })
      ]

  -- The loop over the remotes, `before` those that failed.
  unfoldable pub decode_from :
      List IrRemote → List IrRemote → Decoder S → Option (List ℕ) × Decoder S
  unfolding press
  decode_from before [] d = (none, record d { remotes = before; last_remote = none })
  decode_from before (remote ∷ after) d =
      let (decoded, r, s) = decode_func remote d.driver in
      let d' : Decoder S = record d { driver = s } in
      let failed = λ (f : IrRemote). record f { toggle_mask_state = 0 } in
      let go_on = λ (f : IrRemote). decode_from (before ++ (failed f ∷ [])) after d' in
      elim decoded [
        | none ↦ go_on r
        | some ctx ↦
            let parts : Parts = record { pre = ctx.pre; code = ctx.code; post = ctx.post } in
            let (r', found) = get_code dyncodes r parts ctx.repeat_flag in
            elim found [
              | none ↦ go_on r'
              | some (ref, state) ↦ press before after r' ref state ctx d'
            ]
      ]

  -- All remotes are tried in turn, from the first one.
  unfoldable pub decode_all : Decoder S → Option (List ℕ) × Decoder S
  unfolding decode_from
  decode_all d = decode_from [] d.remotes d
