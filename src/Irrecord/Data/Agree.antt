-- ===== src/Irrecord/Data/Agree.antt =====
-- What the comparison of codes in `get_pre_data` of lib/irrecord.c shows: the ones at the top of the
-- mask are bits in which all codes agree.
use mathlib.Core.Path.{subst}
use native.Mathlib.Nat.{pow-suc, one-le-pow, mul-add-div_right}
use lirc.Base.{ℕ, zero, suc, ◌+◌, ◌-◌, ◌*◌, ◌/◌, ◌^◌, ◌≤◌, ◌<◌, ◌≡◌, refl, arith, ap, sym, ◌∙◌}
use lirc.Base.{List, [], ◌∷◌, ◌==◌, false, Bool-cases, inl, inr, bit_and, bit_xor}
use lirc.Base.Bits.{bit_and-bit, two-pow-add}
use lirc.Base.Digits.{bit_and-div, bit_xor-div, bit_and-ones, bit_xor-eq-zero, bit_xor-lt}
use lirc.Base.Digits.{complement-div, bit_and-le, halves}
use lirc.Remote.Code.{shl}
use lirc.Remote.Code.Laws.{div-pow-lt}
use lirc.Irrecord.Data.{Common, compare_code, compare_all, leading_ones, complement}

pub data Each (P : ℕ → Type 0) : List ℕ → Type 0 where
  no_more : Each P []
  one_more : {x : ℕ} → {xs : List ℕ} → P x → Each P xs → Each P (x ∷ xs)

-- All numbers have at most `n` bits.
abbrev pub AllFit : ℕ → List ℕ → Type 0
AllFit n = Each (λ x. x < 2 ^ n)

-- The numbers are `q` above their lowest `k` bits.
abbrev pub AllAgree : ℕ → ℕ → List ℕ → Type 0
AllAgree k q = Each (λ x. x / 2 ^ k ≡ q)

pub compare_code-fits : (c : Common) (x : ℕ) → c.mask < 2 ^ 64 → (compare_code c x).mask < 2 ^ 64
unfolding compare_code
compare_code-fits c x h = omega (arith, bit_and-le c.mask (complement (bit_xor c.last x)))

module _ (n k : ℕ) (whole : n + k ≡ 64) (some_bits : 0 < n) where
  below_top : (x : ℕ) → x < 2 ^ 64 → x / 2 ^ k < 2 ^ n
  below_top x h = div-pow-lt n k x (rw whole h)

  complement-top : (x : ℕ) → x < 2 ^ 64 → complement x / 2 ^ k ≡ 2 ^ n - 1 - x / 2 ^ k
  complement-top x h =
      subst (λ (t : ℕ). (2 ^ t - 1 - x) / 2 ^ k ≡ 2 ^ n - 1 - x / 2 ^ k) whole
        (complement-div n k x (rw whole h))

  -- Ones at the top after the comparison with one code were there before, and the code agrees.
  compare_code-top :
      (c : Common) (x : ℕ)
      → c.mask < 2 ^ 64
      → c.last < 2 ^ 64
      → x < 2 ^ 64
      → (compare_code c x).mask / 2 ^ k ≡ 2 ^ n - 1
      → (c.mask / 2 ^ k ≡ 2 ^ n - 1) × (x / 2 ^ k ≡ c.last / 2 ^ k)
  unfolding compare_code
  compare_code-top c x hm hl hx e =
      let d = bit_xor c.last x in
      let small : d < 2 ^ 64 = bit_xor-lt 64 c.last x hl hx in
      let both =
        bit_and-ones n (c.mask / 2 ^ k) (complement d / 2 ^ k) (below_top c.mask hm)
          (below_top (complement d) (omega arith))
          (sym (bit_and-div k c.mask (complement d)) ∙ e) in
      let top_zero : d / 2 ^ k ≡ 0 =
        omega (arith, both.1, complement-top d small, below_top d small) in
      (
        both.0,
        sym (
            bit_xor-eq-zero (c.last / 2 ^ k) (x / 2 ^ k) (sym (bit_xor-div k c.last x) ∙ top_zero)),
      )

  -- The same after the comparison with a list of codes.
  pub compare_all-AllAgree :
      (xs : List ℕ) (c : Common)
      → c.mask < 2 ^ 64
      → c.last < 2 ^ 64
      → AllFit 64 xs
      → (compare_all c xs).mask / 2 ^ k ≡ 2 ^ n - 1
      → AllAgree k (c.last / 2 ^ k) xs
        × (c.mask / 2 ^ k ≡ 2 ^ n - 1)
        × ((compare_all c xs).last / 2 ^ k ≡ c.last / 2 ^ k)
  unfolding compare_all
  compare_all-AllAgree [] c hm hl no_more e = (no_more, e, refl)
  compare_all-AllAgree (x ∷ xs) c hm hl (one_more hx hxs) e =
      let rest = compare_all-AllAgree xs (compare_code c x) (compare_code-fits c x hm) hx hxs e in
      let first = compare_code-top c x hm hl hx rest.1 in
      (one_more first.1 (subst (λ q. AllAgree k q xs) first.1 rest.0), first.0, rest.2 ∙ first.1)

last_bit : (m : ℕ) → (bit_and m (2 ^ 63) == 0) ≡ false → m < 2 ^ 64 → 2 ^ 63 ≤ m
last_bit m e h = ground (arith, bit_and-bit 63 m)

shl-one_top : (m : ℕ) → 2 ^ 63 ≤ m → m < 2 ^ 64 → shl m 1 ≡ (m - 2 ^ 63) * 2
shl-one_top m h k = omega arith

one_more_top :
    (c y m : ℕ)
    → c ≤ 63
    → m ≡ 2 ^ 63 + y
    → y * 2 / 2 ^ (64 - c) ≡ 2 ^ c - 1
    → m / 2 ^ (64 - suc c) ≡ 2 ^ suc c - 1
one_more_top c y m h e k =
    let w = 63 - c in
    let width : 64 - c ≡ suc w = omega arith in
    let width' : 64 - suc c ≡ w = omega arith in
    let low : y / 2 ^ w ≡ 2 ^ c - 1 =
      sym (halves (y * 2) y w (omega arith)) ∙ ap (λ t. y * 2 / 2 ^ t) (sym width) ∙ k in
    let bits : c + w ≡ 63 = omega arith in
    let top : 2 ^ c * 2 ^ w ≡ 2 ^ 63 = sym (two-pow-add c w) ∙ ap (λ (t : ℕ). 2 ^ t) bits in
    let split : m ≡ 2 ^ c * 2 ^ w + y = omega (arith, e, top) in
    rw (width', split, mul-add-div_right (one-le-pow w 2 (omega arith)) (2 ^ c) y, low)
      (omega (arith, pow-suc 2 c, one-le-pow c 2 (omega arith)))

-- The ones that the loop counts are the top of the mask.
pub leading_ones-top :
    (fuel m : ℕ)
    → fuel ≤ 64
    → m < 2 ^ 64
    → let c = leading_ones fuel m in (c ≤ fuel) × (m / 2 ^ (64 - c) ≡ 2 ^ c - 1)
unfolding leading_ones
leading_ones-top zero m hf h = (omega arith, omega arith)
leading_ones-top (suc fuel) m hf h = elim (Bool-cases (bit_and m (2 ^ 63) == 0)) [
  | inl e ↦ rw (leading_ones, e) (omega arith, omega arith)
  | inr e ↦
      let rest = leading_ones-top fuel (shl m 1) (omega arith) (omega arith) in
      rw (leading_ones, e)
        (
          omega (arith, rest.0),
          one_more_top (leading_ones fuel (shl m 1)) (m - 2 ^ 63) m (omega (arith, rest.0))
              (omega (arith, last_bit m e h)) (rw (← shl-one_top m (last_bit m e h) h) rest.1),
        )
]
