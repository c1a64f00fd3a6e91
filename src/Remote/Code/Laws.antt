-- ===== src/Remote/Code/Laws.antt =====
-- Masks as powers of two, and codes as sums of fields.
use native.Mathlib.Nat.{pow-suc, one-le-pow, mod-eq_of_lt, div-add-mod}
use lirc.Base.{ℕ, zero, suc, ◌+◌, ◌-◌, ◌*◌, ◌/◌, ◌%◌, ◌^◌, ◌≤◌, ◌<◌, ◌≡◌, refl, arith, bit_and}
use lirc.Base.{bit_or, some, ==_iff, false, ◌∙◌}
use lirc.Base.Bits.{two-pow-add, two-pow-le, join-lt, mod-pow-lt, bit_or-fields, bit_and-mask}
use lirc.Remote.{RemoteConf}
use lirc.Remote.Flags.{is_raw}
use lirc.Remote.Code.{gen_mask, gen_ir_code, map_code, Parts, shl}

-- The loop of `gen_mask` gives the low `n` bits, for every width of an `ir_code`.
pub gen_mask-eq : (n : ℕ) → n ≤ 64 → gen_mask n ≡ 2 ^ n - 1
unfolding gen_mask
gen_mask-eq zero h = refl
gen_mask-eq (suc n) h = ground (
  arith,
  gen_mask-eq n,
  pow-suc 2 n,
  one-le-pow n 2,
  two-pow-le (suc n) 64 h,
  bit_or-fields 1 (2 ^ n - 1) 1,
)

-- The bits of the three parts in a row, the post data lowest.
abbrev pub joined : ℕ → ℕ → ℕ → ℕ → ℕ → ℕ → ℕ
joined p b q pre code post = (pre % 2 ^ p * 2 ^ b + code % 2 ^ b) * 2 ^ q + post % 2 ^ q

pub and-gen_mask : (n x : ℕ) → n ≤ 64 → bit_and x (gen_mask n) ≡ x % 2 ^ n
and-gen_mask n x h = rw (gen_mask-eq n h, bit_and-mask)

pub joined-lt : (p b q pre code post : ℕ) → joined p b q pre code post < 2 ^ (p + b + q)
joined-lt p b q pre code post =
    join-lt (p + b) q (pre % 2 ^ p * 2 ^ b + code % 2 ^ b) (post % 2 ^ q)
      (join-lt p b (pre % 2 ^ p) (code % 2 ^ b) (mod-pow-lt p pre) (mod-pow-lt b code))
      (mod-pow-lt q post)

-- A shift by `k` that stays within 64 bits, followed by `|` with a field of `k` bits.
pub shl-bit_or :
    (n k x y : ℕ) → x < 2 ^ n → y < 2 ^ k → n + k ≤ 64 → bit_or (shl x k) y ≡ x * 2 ^ k + y
shl-bit_or n k x y hx hy h =
    rw
      (mod-eq_of_lt {n = x * 2 ^ k} {m = 2 ^ 64}
        (omega (arith, join-lt n k x y hx hy, two-pow-le (n + k) 64 h)))
      (bit_or-fields k x y hy)

masked_join :
    (p b q pre code post : ℕ)
    → p + b + q ≤ 64
    → bit_or
        (shl (bit_or (shl (bit_and pre (gen_mask p)) b) (bit_and code (gen_mask b))) q)
        (bit_and post (gen_mask q))
      ≡ joined p b q pre code post
masked_join p b q pre code post h =
    rw
      (
        and-gen_mask p pre (omega arith),
        and-gen_mask b code (omega arith),
        and-gen_mask q post (omega arith),
        shl-bit_or p b (pre % 2 ^ p) (code % 2 ^ b) (mod-pow-lt p pre) (mod-pow-lt b code)
            (omega arith),
      )
      (shl-bit_or (p + b) q (pre % 2 ^ p * 2 ^ b + code % 2 ^ b) (post % 2 ^ q)
        (join-lt p b (pre % 2 ^ p) (code % 2 ^ b) (mod-pow-lt p pre) (mod-pow-lt b code))
        (mod-pow-lt q post) h)

-- For a protocol that is not raw `gen_ir_code` puts pre data, code and post data side by side, each
-- cut to its width, if the widths fit an `ir_code`.
pub gen_ir_code-eq :
    (r : RemoteConf) (pre code post : ℕ)
    → is_raw r ≡ false
    → r.pre_data_bits + r.bits + r.post_data_bits ≤ 64
    → gen_ir_code r pre code post ≡ joined r.pre_data_bits r.bits r.post_data_bits pre code post
unfolding gen_ir_code
gen_ir_code-eq r pre code post raw h =
    rw raw (masked_join r.pre_data_bits r.bits r.post_data_bits pre code post h)

pub div-pow-lt : (n q x : ℕ) → x < 2 ^ (n + q) → x / 2 ^ q < 2 ^ n
div-pow-lt n q x h = grind (arith, two-pow-add n q, one-le-pow q 2)

-- Cutting a number of `p + b + q` bits into three fields and joining these gives it back.
joined-split :
    (p b q x : ℕ)
    → x < 2 ^ (p + b + q)
    → joined p b q (x / 2 ^ q / 2 ^ b % 2 ^ p) (x / 2 ^ q % 2 ^ b) (x % 2 ^ q) ≡ x
joined-split p b q x h =
    let top = div-pow-lt p b (x / 2 ^ q) (div-pow-lt (p + b) q x h) in
    let low = mod-pow-lt q x in
    let mid = mod-pow-lt b (x / 2 ^ q) in
    let outer = div-add-mod x (2 ^ q) in
    let inner = div-add-mod (x / 2 ^ q) (2 ^ b) in
    simp (mod-eq_of_lt top, mod-eq_of_lt low, mod-eq_of_lt mid) (grind arith)

-- What `map_code` writes where the bit counts agree.
map_code-eq :
    (r : RemoteConf) (pre_bits pre bits code post_bits post : ℕ)
    → r.pre_data_bits + r.bits + r.post_data_bits ≤ 64
    → pre_bits + bits + post_bits ≡ r.pre_data_bits + r.bits + r.post_data_bits
    → let x = joined pre_bits bits post_bits pre code post in
      map_code r pre_bits pre bits code post_bits post
      ≡ some (record {
        pre = x / 2 ^ r.post_data_bits / 2 ^ r.bits % 2 ^ r.pre_data_bits;
        code = x / 2 ^ r.post_data_bits % 2 ^ r.bits;
        post = x % 2 ^ r.post_data_bits;
      })
unfolding map_code
map_code-eq r pre_bits pre bits code post_bits post h e = rw (
  (==_iff (pre_bits + bits + post_bits) _).1 e,
  masked_join pre_bits bits post_bits pre code post (omega arith),
  and-gen_mask r.pre_data_bits _ (omega arith),
  and-gen_mask r.bits _ (omega arith),
  and-gen_mask r.post_data_bits _ (omega arith),
)

-- `map_code` changes the layout and no bit: for a protocol that is not raw, if the widths given add
-- up to those of the remote, at most 64, it succeeds, the parts that it writes, joined along the
-- remote's widths, are the bits that it was given, and each part fits its width.
pub gen_ir_code-map_code :
    (r : RemoteConf) (pre_bits pre bits code post_bits post : ℕ)
    → is_raw r ≡ false
    → r.pre_data_bits + r.bits + r.post_data_bits ≤ 64
    → pre_bits + bits + post_bits ≡ r.pre_data_bits + r.bits + r.post_data_bits
    → (t : Parts) × (map_code r pre_bits pre bits code post_bits post ≡ some t)
      × (gen_ir_code r t.pre t.code t.post ≡ joined pre_bits bits post_bits pre code post)
      × (t.pre < 2 ^ r.pre_data_bits)
      × (t.code < 2 ^ r.bits)
      × (t.post < 2 ^ r.post_data_bits)
gen_ir_code-map_code r pre_bits pre bits code post_bits post raw h e =
    let x : ℕ = joined pre_bits bits post_bits pre code post in
    let t : Parts = record {
      pre = x / 2 ^ r.post_data_bits / 2 ^ r.bits % 2 ^ r.pre_data_bits;
      code = x / 2 ^ r.post_data_bits % 2 ^ r.bits;
      post = x % 2 ^ r.post_data_bits;
    } in
    (
      t,
      map_code-eq r pre_bits pre bits code post_bits post h e,
      gen_ir_code-eq r t.pre t.code t.post raw h
          ∙ joined-split r.pre_data_bits r.bits r.post_data_bits x
              (rw (← e) (joined-lt pre_bits bits post_bits pre code post)),
      mod-pow-lt _ _,
      mod-pow-lt _ _,
      mod-pow-lt _ _,
    )
