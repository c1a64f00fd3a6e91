-- ===== src/Config/Define.antt =====
-- `defineRemote` of lib/config_file.c: one line of a remote section.
use lirc.Base.{ℕ, ◌-◌, ◌*◌, ◌^◌, ◌%◌, Bool, true, false, ◌||◌, ltb, ◌==◌, if◌then◌else◌, bit_or}
use lirc.Base.{Option, none, some, get_or, drop, same_bytes}
use lirc.Base.Int.{ℤ}
use lirc.Base.Text.{bytes, same_word, upper}
use lirc.Remote.{RemoteConf, Name}
use lirc.Config.{Draft, Outcome, done, ◌>>=◌, natural}
use lirc.Config.Flags.{parse_flags}
use lirc.Config.Numbers.{Read, s_strtocode, s_strtou32, s_strtoui, s_strtoi, s_strtolirc_t}

-- The remote, the number of arguments taken, and whether `parse_error` was set.
pub record Defined : Type 0 where
  pub draft : Draft
  pub argc : ℕ
  pub failed : Bool

abbrev is : Draft → ℕ → Bool → Outcome Defined
is d argc failed = done (record { draft = d; argc = argc; failed = failed })

-- A line that is not understood: `parse_error` is set, and the remote is left alone.
abbrev pub unknown : Draft → Outcome Defined
unknown d = is d 0 true

abbrev store_nat : (ℕ → Draft) → Read ℕ → Outcome Defined
store_nat set (n, failed) = is (set n) 1 failed

abbrev store_int : (ℕ → Draft) → Read ℤ → Outcome Defined
store_int set (n, failed) = natural n >>= λ m. is (set m) 1 failed

abbrev store_pair : (ℕ → ℕ → Draft) → Name → Name → Outcome Defined
store_pair set val val2 =
    let (p, failed) = s_strtolirc_t val in
    let (s, failed2) = s_strtolirc_t val2 in
    natural p >>= λ m. natural s >>= λ n. is (set m n) 2 (failed || failed2)

pub set_gap : Draft → Name → Option Name → Outcome Defined
unfolding s_strtou32
set_gap d val val2 =
    let (gap, failed) = s_strtou32 val in
    elim val2 [
      | none ↦ is (record d { conf = record d.conf { gap = gap } }) 1 failed
      | some v ↦
          let (gap2, failed2) = s_strtou32 v in
          is (record d { conf = record d.conf { gap = gap; gap2 = gap2 } }) 2 (failed || failed2)
    ]

-- Bits in a byte, parity and stop bits, as in "8N1.5".
pub set_serial_mode : Draft → Name → Outcome Defined
unfolding s_strtoui
set_serial_mode d val =
    let digit = get_or val 0 0 in
    let letter = upper (get_or val 1 0) in
    let with_bits = λ (c : RemoteConf). record c { bits_in_byte = digit - 48 } in
    let with_conf = λ (c : RemoteConf). record d { conf = c } in
    let (stop, failed) = s_strtoui (drop 2 val) in
    let finish = λ (parity : ℕ).
      let c : RemoteConf = record (with_bits d.conf) { parity = parity } in
      if same_bytes (drop 2 val) (bytes "1.5")
      then is (with_conf (record c { stop_bits = 3 })) 1 false
      else is (with_conf (record c { stop_bits = stop * 2 % 2 ^ 32 })) 1 failed in
    if ltb digit b'5' || ltb b'9' digit
    then unknown d
    else if letter == b'N'
    then finish 0
    else if letter == b'E'
    then finish 1
    else if letter == b'O'
    then finish 2
    else unknown (with_conf (with_bits d.conf))

-- The directives of two durations.
pub define_pair : Name → Name → Name → Draft → Outcome Defined
unfolding s_strtolirc_t
define_pair key val val2 d =
    let c = d.conf in
    let with_conf = λ (c' : RemoteConf). record d { conf = c' } in
    if same_word (bytes "header") key
    then store_pair (λ p s. with_conf (record c { phead = p; shead = s })) val val2
    else if same_word (bytes "three") key
    then store_pair (λ p s. with_conf (record c { pthree = p; sthree = s })) val val2
    else if same_word (bytes "two") key
    then store_pair (λ p s. with_conf (record c { ptwo = p; stwo = s })) val val2
    else if same_word (bytes "one") key
    then store_pair (λ p s. with_conf (record c { pone = p; sone = s })) val val2
    else if same_word (bytes "zero") key
    then store_pair (λ p s. with_conf (record c { pzero = p; szero = s })) val val2
    else if same_word (bytes "foot") key
    then store_pair (λ p s. with_conf (record c { pfoot = p; sfoot = s })) val val2
    else if same_word (bytes "repeat") key
    then store_pair (λ p s. with_conf (record c { prepeat = p; srepeat = s })) val val2
    else if same_word (bytes "pre") key
    then store_pair (λ p s. with_conf (record c { pre_p = p; pre_s = s })) val val2
    else if same_word (bytes "post") key
    then store_pair (λ p s. with_conf (record c { post_p = p; post_s = s })) val val2
    else unknown d

-- The directives of one number from `toggle_bit_mask` on.
pub define_rest : Name → Name → Option Name → Draft → Outcome Defined
unfolding s_strtocode s_strtoi s_strtoui set_serial_mode define_pair
define_rest key val val2 d =
    let c = d.conf in
    let with_conf = λ (c' : RemoteConf). record d { conf = c' } in
    if same_word (bytes "toggle_bit_mask") key
    then store_nat (λ n. with_conf (record c { toggle_bit_mask = n })) (s_strtocode val)
    else if same_word (bytes "toggle_mask") key
    then store_nat (λ n. with_conf (record c { toggle_mask = n })) (s_strtocode val)
    else if same_word (bytes "rc6_mask") key
    then store_nat (λ n. with_conf (record c { rc6_mask = n })) (s_strtocode val)
    else if same_word (bytes "ignore_mask") key
    then store_nat (λ n. with_conf (record c { ignore_mask = n })) (s_strtocode val)
    else if same_word (bytes "manual_sort") key
    then store_int (λ n. record d { manual_sort = n }) (s_strtoi val)
    else if same_word (bytes "repeat_bit") key
    then store_int (λ n. record d { toggle_bit = n }) (s_strtoi val)
    else if same_word (bytes "suppress_repeat") key
    then store_int (λ n. with_conf (record c { suppress_repeat = n })) (s_strtoi val)
    else if same_word (bytes "min_repeat") key
    then store_int (λ n. with_conf (record c { min_repeat = n })) (s_strtoi val)
    else if same_word (bytes "min_code_repeat") key
    then store_int (λ n. with_conf (record c { min_code_repeat = n })) (s_strtoi val)
    else if same_word (bytes "frequency") key
    then store_nat (λ n. with_conf (record c { freq = n })) (s_strtoui val)
    else if same_word (bytes "duty_cycle") key
    then store_nat (λ n. with_conf (record c { duty_cycle = n })) (s_strtoui val)
    else if same_word (bytes "baud") key
    then store_nat (λ n. with_conf (record c { baud = n })) (s_strtoui val)
    else if same_word (bytes "serial_mode") key
    then set_serial_mode d val
    else elim val2 [ none ↦ unknown d | some v ↦ define_pair key val v d ]

-- The directives of one number up to `toggle_bit`, then the rest.
pub define_single : Name → Name → Option Name → Draft → Outcome Defined
unfolding s_strtocode s_strtoi s_strtou32 s_strtolirc_t set_gap define_rest parse_flags
define_single key val val2 d =
    let c = d.conf in
    let with_conf = λ (c' : RemoteConf). record d { conf = c' } in
    if same_word (bytes "bits") key
    then store_int (λ n. with_conf (record c { bits = n })) (s_strtoi val)
    else if same_word (bytes "flags") key
    then (let (flags, failed) = parse_flags val in
        is (with_conf (record c { flags = bit_or c.flags flags })) 1 failed)
    else if same_word (bytes "eps") key
    then store_int (λ n. with_conf (record c { eps = n })) (s_strtoi val)
    else if same_word (bytes "aeps") key
    then store_int (λ n. with_conf (record c { aeps = n })) (s_strtoi val)
    else if same_word (bytes "plead") key
    then store_int (λ n. with_conf (record c { plead = n })) (s_strtolirc_t val)
    else if same_word (bytes "ptrail") key
    then store_int (λ n. with_conf (record c { ptrail = n })) (s_strtolirc_t val)
    else if same_word (bytes "pre_data_bits") key
    then store_int (λ n. with_conf (record c { pre_data_bits = n })) (s_strtoi val)
    else if same_word (bytes "pre_data") key
    then store_nat (λ n. with_conf (record c { pre_data = n })) (s_strtocode val)
    else if same_word (bytes "post_data_bits") key
    then store_int (λ n. with_conf (record c { post_data_bits = n })) (s_strtoi val)
    else if same_word (bytes "post_data") key
    then store_nat (λ n. with_conf (record c { post_data = n })) (s_strtocode val)
    else if same_word (bytes "gap") key
    then set_gap d val val2
    else if same_word (bytes "repeat_gap") key
    then store_nat (λ n. with_conf (record c { repeat_gap = n })) (s_strtou32 val)
    else if same_word (bytes "repeat_mask") key
    then store_nat (λ n. with_conf (record c { repeat_mask = n })) (s_strtocode val)
    else if same_word (bytes "toggle_bit") key
    then store_int (λ n. record d { toggle_bit = n }) (s_strtoi val)
    else define_rest key val val2 d

-- `dynamic_codes` is the option "lircd:dynamic-codes"; every other directive stands in its `else`.
unfoldable pub define_remote : Bool → Name → Name → Option Name → Draft → Outcome Defined
unfolding define_single
define_remote dynamic_codes key val val2 d =
    if same_word (bytes "name") key
    then is (record d { named = true; conf = record d.conf { name = val } }) 1 false
    else if dynamic_codes
    then (if same_word (bytes "dyncodes_name") key
        then is (record d { dyncodes_name = some val }) 1 false
        else unknown d)
    else if same_word (bytes "driver") key
    then is (record d { driver = some val }) 1 false
    else define_single key val val2 d
