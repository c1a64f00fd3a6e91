-- ===== src/Base/Digits.antt =====
-- Bitwise operations digit by digit: what they do to the high and to the low bits.
use Prim.Native.Nat.{ℕ, zero, suc, ◌+◌, ◌-◌, ◌*◌, ◌/◌, ◌%◌, ◌^◌, ◌≤◌, ◌<◌}
use Prim.Native.Nat.{bit_and, bit_or, bit_xor, bit_and-bitwise}
use mathlib.Core.Path.{◌≡◌, refl, ap, ◌∙◌}
use native.Mathlib.Nat.{
  pow-suc, one-le-pow, le_refl, div-div-eq-div-mul, div-one, add-zero, add-suc, mod-one,
  mod-eq_of_lt, div-add-mod', mul-add-mod_self_right,
}
use native.Mathlib.Omega.{arith}
use lirc.Base.Bits.{and_digit, or_digit, xor_digit, differ_binary, two-pow-suc, mod-pow-lt}

-- The fuel `n` bounds the number.
xor_twice_below : (n a m : ℕ) → a ≤ n → m ≤ n → bit_xor (bit_xor a m) m ≡ a
xor_twice_below zero zero zero h k = refl
xor_twice_below zero zero (suc m) h k = absurd (omega arith)
xor_twice_below zero (suc a) m h k = absurd (omega arith)
xor_twice_below (suc n) a m h k =
    let half = xor_twice_below n (a / 2) (m / 2) (omega arith) (omega arith) in
    let x = bit_xor a m in
    let d = xor_digit a m in
    let e = xor_digit x m in
    let p = differ_binary (a % 2) (m % 2) (omega arith) (omega arith) in
    let q = differ_binary (x % 2) (m % 2) (omega arith) (omega arith) in
    let high : x / 2 ≡ bit_xor (a / 2) (m / 2) = omega (arith, d, p) in
    omega (arith, d, e, p, q, half, ap (λ (t : ℕ). bit_xor t (m / 2)) high)

pub halves : (x y k : ℕ) → x / 2 ≡ y → x / 2 ^ suc k ≡ y / 2 ^ k
halves x y k e = rw (← e, div-div-eq-div-mul) (ap (λ (t : ℕ). x / t) (omega (arith, pow-suc 2 k)))

pub bit_and-div : (k a b : ℕ) → bit_and a b / 2 ^ k ≡ bit_and (a / 2 ^ k) (b / 2 ^ k)
bit_and-div zero a b = simp div-one refl
bit_and-div (suc k) a b =
    rw
      (
        halves (bit_and a b) (bit_and (a / 2) (b / 2)) k (omega (arith, and_digit a b)),
        halves a (a / 2) k refl,
        halves b (b / 2) k refl,
      )
      (bit_and-div k (a / 2) (b / 2))

pub bit_xor-div : (k a b : ℕ) → bit_xor a b / 2 ^ k ≡ bit_xor (a / 2 ^ k) (b / 2 ^ k)
bit_xor-div zero a b = simp div-one refl
bit_xor-div (suc k) a b =
    rw
      (
        halves (bit_xor a b) (bit_xor (a / 2) (b / 2)) k (
            omega
              (arith, xor_digit a b, differ_binary (a % 2) (b % 2) (omega arith) (omega arith))),
        halves a (a / 2) k refl,
        halves b (b / 2) k refl,
      )
      (bit_xor-div k (a / 2) (b / 2))

pub bit_xor-twice : (a m : ℕ) → bit_xor (bit_xor a m) m ≡ a
bit_xor-twice a m = xor_twice_below (a + m) a m (omega arith) (omega arith)

-- Numbers whose bits never differ are equal.
xor_zero_below_eq : (n a b : ℕ) → a ≤ n → b ≤ n → bit_xor a b ≡ 0 → a ≡ b
xor_zero_below_eq zero a b h k e = omega arith
xor_zero_below_eq (suc n) a b h k e =
    let d = xor_digit a b in
    let p = differ_binary (a % 2) (b % 2) (omega arith) (omega arith) in
    let half =
      xor_zero_below_eq n (a / 2) (b / 2) (omega arith) (omega arith) (omega (arith, d, e)) in
    omega (arith, d, e, p, half)

pub bit_xor-eq-zero : (a b : ℕ) → bit_xor a b ≡ 0 → a ≡ b
bit_xor-eq-zero a b e = xor_zero_below_eq (a + b) a b (omega arith) (omega arith) e

-- All ones in `a & b` are ones of both.
pub bit_and-ones :
    (n a b : ℕ)
    → a < 2 ^ n
    → b < 2 ^ n
    → bit_and a b ≡ 2 ^ n - 1
    → (a ≡ 2 ^ n - 1) × (b ≡ 2 ^ n - 1)
bit_and-ones zero a b h k e = (omega arith, omega arith)
bit_and-ones (suc n) a b h k e =
    let d = and_digit a b in
    let p = pow-suc 2 n in
    let q = one-le-pow n 2 (omega arith) in
    let half =
      bit_and-ones n (a / 2) (b / 2) (omega (arith, p)) (omega (arith, p))
        (omega (arith, d, e, p, q)) in
    (omega (arith, d, e, p, q, half.0), omega (arith, d, e, p, q, half.1))

-- `~x` above the lowest `k` bits.
pub complement-div :
    (n k x : ℕ) → x < 2 ^ (n + k) → (2 ^ (n + k) - 1 - x) / 2 ^ k ≡ 2 ^ n - 1 - x / 2 ^ k
complement-div n zero x h = simp (add-zero, div-one) refl
complement-div n (suc k) x h =
    let whole : 2 ^ (n + suc k) ≡ 2 ^ (n + k) * 2 = rw add-suc (pow-suc 2 (n + k)) in
    let low : x / 2 < 2 ^ (n + k) = omega (arith, whole, h) in
    rw
      (
        halves (2 ^ (n + suc k) - 1 - x) (2 ^ (n + k) - 1 - x / 2) k (omega (arith, whole, h)),
        halves x (x / 2) k refl,
      )
      (complement-div n k (x / 2) low)

pub bit_xor-lt : (n a b : ℕ) → a < 2 ^ n → b < 2 ^ n → bit_xor a b < 2 ^ n
bit_xor-lt zero a b h k =
    let a0 : a ≡ 0 = omega arith in let b0 : b ≡ 0 = omega arith in rw (a0, b0) (omega arith)
bit_xor-lt (suc n) a b h k = omega (
  arith,
  pow-suc 2 n,
  bit_xor-lt n (a / 2) (b / 2) (omega (arith, pow-suc 2 n)) (omega (arith, pow-suc 2 n)),
  xor_digit a b,
  differ_binary (a % 2) (b % 2) (omega arith) (omega arith),
)

-- A low field and a high one have no bit in common.
low_and_high : (c r q : ℕ) → r < 2 ^ c → bit_and r (q * 2 ^ c) ≡ 0
low_and_high zero r q h = let z : r ≡ 0 = omega arith in rw z (bit_and-bitwise 0 (q * 1))
low_and_high (suc c) r q h = omega (
  arith,
  two-pow-suc q c,
  pow-suc 2 c,
  and_digit r (q * 2 ^ suc c),
  low_and_high c (r / 2) q (omega (arith, pow-suc 2 c)),
  ap (λ (t : ℕ). bit_and (r / 2) t) (half_of (q * 2 ^ suc c) (q * 2 ^ c) (two-pow-suc q c)),
)
  where
    half_of : (x y : ℕ) → x ≡ y * 2 → x / 2 ≡ y
    half_of x y e = omega (arith, e)

mod-halve : (b x : ℕ) → x % 2 ^ suc b ≡ x / 2 % 2 ^ b * 2 + x % 2
mod-halve b x =
    let low = x / 2 % 2 ^ b * 2 + x % 2 in
    let q = x / 2 / 2 ^ b in
    let small : low < 2 ^ suc b = omega (arith, mod-pow-lt b (x / 2), pow-suc 2 b) in
    let parts : x ≡ q * 2 ^ suc b + low =
      omega (arith, two-pow-suc q b, div-add-mod' (x / 2) (2 ^ b)) in
    ap (λ t. t % 2 ^ suc b) parts ∙ mul-add-mod_self_right q (2 ^ suc b) low ∙ mod-eq_of_lt small

-- What `&` leaves of a number of `t` bits, with a mask whose lower `b` ones are all that it has
-- within these.
pub bit_and-low :
    (b t x q : ℕ) → b ≤ t → x < 2 ^ t → bit_and x (q * 2 ^ t + (2 ^ b - 1)) ≡ x % 2 ^ b
bit_and-low zero t x q l h = rw (add-zero, mod-one) (low_and_high t x q h)
bit_and-low (suc b) zero x q l h = absurd (omega arith)
bit_and-low (suc b) (suc t) x q l h =
    let m = q * 2 ^ suc t + (2 ^ suc b - 1) in
    let p = pow-suc 2 b in
    let s = pow-suc 2 t in
    let o = one-le-pow b 2 (omega arith) in
    let w = two-pow-suc q t in
    let half : m / 2 ≡ q * 2 ^ t + (2 ^ b - 1) = omega (arith, p, s, o, w) in
    let odd : m % 2 ≡ 1 = omega (arith, p, s, o, w) in
    omega (
      arith,
      mod-halve b x,
      and_digit x m,
      ap (λ (y : ℕ). bit_and (x / 2) y) half,
      odd,
      bit_and-low b t (x / 2) q (omega arith) (omega (arith, s)),
    )

and_below : (n a b : ℕ) → a ≤ n → bit_and a b ≤ a
and_below zero a b h = let z : a ≡ 0 = omega arith in rw z (omega (arith, bit_and-bitwise 0 b))
and_below (suc n) a b h = omega (arith, and_digit a b, and_below n (a / 2) (b / 2) (omega arith))

pub bit_and-le : (a b : ℕ) → bit_and a b ≤ a
bit_and-le a b = and_below a a b (le_refl a)

or_comm_below : (n a b : ℕ) → a ≤ n → b ≤ n → bit_or a b ≡ bit_or b a
or_comm_below zero a b h k =
    let x : a ≡ 0 = omega arith in let y : b ≡ 0 = omega arith in rw (x, y) refl
or_comm_below (suc n) a b h k =
    omega (
      arith,
      or_digit a b,
      or_digit b a,
      or_comm_below n (a / 2) (b / 2) (omega arith) (omega arith),
    )

pub bit_or_comm : (a b : ℕ) → bit_or a b ≡ bit_or b a
bit_or_comm a b = or_comm_below (a + b) a b (omega arith) (omega arith)
