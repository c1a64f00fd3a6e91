-- ===== src/Config/Finish.antt =====
-- What `read_config_recursive` of lib/config_file.c does with each remote after the last line.
-- A shift by a negative number of bits, or by 64 and more, is undefined: it ends in `outside`.
use lirc.Base.{ℕ, ◌-◌, ◌^◌, ◌/◌, not, ◌&&◌, ◌||◌, ltb, leb, ◌==◌, if◌then◌else◌}
use lirc.Base.{bit_and, bit_or, bit_xor, List, [], ◌∷◌, map, none, some}
use lirc.Remote.{RemoteConf, IrNcode, bit_count}
use lirc.Remote.Code.{reverse, shl}
use lirc.Remote.Flags.{
  is_raw, is_serial, has_flag, has_pre, has_post, has_toggle_bit_mask, has_repeat, rc6,
  compat_reverse,
}
use lirc.Transmit.{SendBuffer}
use lirc.Config.{Draft, Outcome, done, crash, outside, ◌>>=◌}
use lirc.Config.Flags.{reverse_flag}
use lirc.Config.Lengths.{calculate_signal_lengths}

unfoldable pub reverse_code : ℕ → IrNcode → IrNcode
reverse_code bits c = record c { code = reverse c.code bits }

-- The REVERSE flag: pre data, post data and the codes are turned round once, on reading.
unfoldable pub kick_reverse : Draft → Outcome Draft
unfolding reverse_code
kick_reverse d =
    let c = d.conf in
    let flags = bit_or (bit_and c.flags (2 ^ 32 - 1 - reverse_flag)) compat_reverse in
    let conf : RemoteConf = record c {
      pre_data = if has_pre c then reverse c.pre_data c.pre_data_bits else c.pre_data;
      post_data = if has_post c then reverse c.post_data c.post_data_bits else c.post_data;
      flags = flags;
    } in
    let turned : Outcome Draft = elim d.codes [
      | none ↦ crash
      | some cs ↦ done (record d { conf = conf; codes = some (map (reverse_code c.bits) cs) })
    ] in
    if not (is_raw c) && has_flag c reverse_flag then turned else done d

-- The mask of one bit, counted from the left from 1.
unfoldable pub bit_mask : RemoteConf → ℕ → Outcome ℕ
bit_mask c toggle_bit =
    let all_bits = bit_count c in
    let shift = all_bits - toggle_bit in
    if leb toggle_bit all_bits && ltb shift 64 then done (shl 1 shift) else outside

unfoldable pub kick_rc6 : Draft → Outcome Draft
unfolding bit_mask
kick_rc6 d =
    let c = d.conf in
    if has_flag c rc6 && c.rc6_mask == 0 && ltb 0 d.toggle_bit
    then (bit_mask c d.toggle_bit >>= λ m. done (record d { conf = record c { rc6_mask = m } }))
    else done d

unfoldable pub kick_toggle_bit : Draft → Outcome Draft
unfolding bit_mask
kick_toggle_bit d =
    let c = d.conf in
    let cleared : Draft = record d { toggle_bit = 0 } in
    if ltb 0 d.toggle_bit
    then (if has_toggle_bit_mask c
        then done cleared
        else bit_mask c d.toggle_bit >>= λ m.
            done (record cleared { conf = record c { toggle_bit_mask = m } }))
    else done d

-- The code of the first item; the item that ends the array is zeroed.
abbrev first_code : List IrNcode → ℕ
first_code [] = 0
first_code (c ∷ cs) = c.code

unfoldable pub start_toggle_state : Draft → Draft
start_toggle_state d =
    let c = d.conf in
    let started = λ (cs : List IrNcode).
      let state = bit_and (first_code cs) c.toggle_bit_mask in
      let d' : Draft = record d {
        toggle_bit_mask_state = if state == 0 then 0 else bit_xor state c.toggle_bit_mask;
      } in
      d' in
    if has_toggle_bit_mask c && not (is_raw c)
    then elim d.codes [ none ↦ d | some cs ↦ started cs ]
    else d

unfoldable pub default_serial : RemoteConf → RemoteConf
default_serial c =
    let base = 1000000 / c.baud in
    let rates = ltb 0 c.baud in
    let c' : RemoteConf = record c {
      pzero = if rates && c.pzero == 0 && c.szero == 0 then base else c.pzero;
      sone = if rates && c.pone == 0 && c.sone == 0 then base else c.sone;
      bits_in_byte = if c.bits_in_byte == 0 then 8 else c.bits_in_byte;
    } in
    if is_serial c then c' else c

unfoldable pub check_min_code_repeat : RemoteConf → RemoteConf
check_min_code_repeat c =
    if ltb 0 c.min_code_repeat && (not (has_repeat c) || ltb c.min_repeat c.min_code_repeat)
    then record c { min_code_repeat = 0 }
    else c

unfoldable pub finish_remote : SendBuffer → Draft → Outcome (SendBuffer × Draft)
unfolding kick_reverse kick_rc6 kick_toggle_bit start_toggle_state default_serial
    check_min_code_repeat
finish_remote b d = kick_reverse d >>= λ d1. kick_rc6 d1 >>= λ d2. kick_toggle_bit d2 >>= λ d3.
    let d4 = start_toggle_state d3 in
    calculate_signal_lengths b (record d4 { conf = check_min_code_repeat (default_serial d4.conf) })

unfoldable pub finish_remotes : SendBuffer → List Draft → Outcome (SendBuffer × List Draft)
unfolding finish_remote
finish_remotes b [] = done (b, [])
finish_remotes b (d ∷ ds) =
    finish_remote b d >>= λ r. finish_remotes r.0 ds >>= λ rs. done (rs.0, r.1 ∷ rs.1)
