-- ===== src/Decode/Set/Press.antt =====
-- The code that `set_code` reports against the one that `get_code` compares with.
use native.Mathlib.Nat.{mod-eq_of_lt}
use lirc.Base.{ℕ, ◌+◌, ◌*◌, ◌^◌, ◌≤◌, ◌<◌, ◌≡◌, arith, false, if◌then◌else◌, bit_or, ltb}
use lirc.Base.Bits.{join-lt, zero-bit_or}
use lirc.Remote.{RemoteConf}
use lirc.Remote.Flags.{is_raw, has_pre, has_post, has_flag, compat_reverse}
use lirc.Remote.Code.{shl, gen_ir_code}
use lirc.Remote.Code.Laws.{gen_ir_code-eq, shl-bit_or}
use lirc.Decode.Set.{whole_press}

above :
    (p b x y : ℕ)
    → x < 2 ^ p
    → y < 2 ^ b
    → p + b ≤ 64
    → bit_or (if ltb 0 p then shl x b else 0) y ≡ x * 2 ^ b + y
above p b x y hx hy h = ground (arith, shl-bit_or p b x y hx hy h, zero-bit_or y)

below :
    (n q x y : ℕ)
    → x < 2 ^ n
    → y < 2 ^ q
    → n + q ≤ 64
    → (if ltb 0 q then bit_or (shl x q) y else x) ≡ x * 2 ^ q + y
below n q x y hx hy h = ground (arith, shl-bit_or n q x y hx hy h)

-- For a remote whose pre and post data and whose code fit their widths, that is not raw and does
-- not ask for the old bit order, the code that `set_code` reports is the one that `gen_ir_code`
-- puts together.
pub whole_press-eq-gen_ir_code :
    (r : RemoteConf) (code : ℕ)
    → is_raw r ≡ false
    → has_flag r compat_reverse ≡ false
    → r.pre_data < 2 ^ r.pre_data_bits
    → code < 2 ^ r.bits
    → r.post_data < 2 ^ r.post_data_bits
    → r.pre_data_bits + r.bits + r.post_data_bits ≤ 64
    → whole_press r code ≡ gen_ir_code r r.pre_data code r.post_data
unfolding whole_press has_pre has_post
whole_press-eq-gen_ir_code r code raw order pre_fits code_fits post_fits h =
    let all = r.pre_data * 2 ^ r.bits + code in
    rw
      (
        gen_ir_code-eq r r.pre_data code r.post_data raw h,
        mod-eq_of_lt pre_fits,
        mod-eq_of_lt code_fits,
        mod-eq_of_lt post_fits,
        order,
        above r.pre_data_bits r.bits r.pre_data code pre_fits code_fits (omega arith),
      )
      (below (r.pre_data_bits + r.bits) r.post_data_bits all r.post_data
        (join-lt r.pre_data_bits r.bits r.pre_data code pre_fits code_fits) post_fits h)
