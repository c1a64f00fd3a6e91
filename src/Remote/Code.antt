-- ===== src/Remote/Code.antt =====
-- Arithmetic on the 64-bit `ir_code` (lib/ir_remote.h, lib/ir_remote.c): masks, reversal, joining
-- pre data, code and post data, and splitting what a driver received along another layout.
pub mod Laws
pub mod Reverse
use lirc.Base.{ℕ, zero, suc, ◌+◌, ◌-◌, ◌*◌, ◌/◌, ◌%◌, ◌^◌, Bool, not, ◌||◌, ltb, ◌==◌, Option, none}
use lirc.Base.{some, if◌then◌else◌, bit_and, bit_or, bit_xor}
use lirc.Remote.{RemoteConf, bit_count}
use lirc.Remote.Flags.{is_raw}

-- `x << k` and `x >> k` on an `ir_code`.
abbrev pub shl : ℕ → ℕ → ℕ
shl x k = x * 2 ^ k % 2 ^ 64

abbrev pub shr : ℕ → ℕ → ℕ
shr x k = x / 2 ^ k

unfoldable pub gen_mask : ℕ → ℕ
gen_mask zero = 0
gen_mask (suc n) = bit_or (shl (gen_mask n) 1) 1

-- `while (data)`, with the number of rounds as fuel: 64 are enough for an `ir_code`.
bits_set_loop : ℕ → ℕ → ℕ → ℕ
bits_set_loop zero data' ret = ret
bits_set_loop (suc fuel) data' ret =
    bits_set_loop fuel (data' / 2) (if bit_and data' 1 == 0 then ret else ret + 1)

unfoldable pub bits_set : ℕ → ℕ
unfolding bits_set_loop
bits_set data' = bits_set_loop 64 data' 0

-- The loop of `reverse` with `left` rounds to go, at index `i`.
pub reverse_loop : ℕ → ℕ → ℕ → ℕ → ℕ → ℕ
reverse_loop data' bits zero i c = c
reverse_loop data' bits (suc left) i c =
    let bit = if bit_and data' (shl 1 i) == 0 then 0 else 1 in
    reverse_loop data' bits left (i + 1) (bit_or c (shl bit (bits - 1 - i)))

unfoldable pub reverse : ℕ → ℕ → ℕ
unfolding reverse_loop
reverse data' bits = reverse_loop data' bits bits 0 0

-- The three parts of a code, each cut to its width (a raw code is kept whole).
unfoldable pub gen_ir_code : RemoteConf → ℕ → ℕ → ℕ → ℕ
unfolding gen_mask
gen_ir_code r pre code post =
    let all = shl (bit_and pre (gen_mask r.pre_data_bits)) r.bits in
    let all' = bit_or all (if is_raw r then code else bit_and code (gen_mask r.bits)) in
    bit_or (shl all' r.post_data_bits) (bit_and post (gen_mask r.post_data_bits))

unfoldable pub match_ir_code : RemoteConf → ℕ → ℕ → Bool
match_ir_code r a b =
    bit_or r.ignore_mask a == bit_or r.ignore_mask b
    || bit_or r.ignore_mask a == bit_or r.ignore_mask (bit_xor b r.toggle_bit_mask)

-- What `map_code` writes into the `decode_ctx_t`.
pub record Parts : Type 0 where
  pub pre : ℕ
  pub code : ℕ
  pub post : ℕ

-- `none` where the bit counts differ: the context is left alone.
unfoldable pub map_code : RemoteConf → ℕ → ℕ → ℕ → ℕ → ℕ → ℕ → Option Parts
map_code r pre_bits pre bits code post_bits post =
    if not (pre_bits + bits + post_bits == r.pre_data_bits + r.bits + r.post_data_bits)
    then none
    else let all = shl (bit_and pre (gen_mask pre_bits)) bits in
      let all' = shl (bit_or all (bit_and code (gen_mask bits))) post_bits in
      let whole = bit_or all' (bit_and post (gen_mask post_bits)) in
      let rest = shr whole r.post_data_bits in
      some (record {
        pre = bit_and (shr rest r.bits) (gen_mask r.pre_data_bits);
        code = bit_and rest (gen_mask r.bits);
        post = bit_and whole (gen_mask r.post_data_bits);
      })
