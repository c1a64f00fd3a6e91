-- ===== src/Remote/Code/Reverse.antt =====
-- `reverse` of lib/ir_remote.h against a recursion on the bits, and as an involution.
use native.Mathlib.Nat.{
  pow-suc, one-le-pow, div-add-mod', mod-eq_of_lt, mul-add-mod_self_right, div-div-eq-div-mul,
}
use lirc.Base.{
  ℕ, zero, suc, ◌+◌, ◌-◌, ◌*◌, ◌/◌, ◌%◌, ◌^◌, ◌≤◌, ◌<◌, ◌≡◌, refl, arith, bit_and, bit_or,
}
use lirc.Base.{if◌then◌else◌, ◌==◌, ap, ◌∙◌}
use lirc.Base.Bits.{
  bit_and-bit, bit_or-fields, two-pow-le, two-pow-suc, two-pow-add, join-lt, mod-pow-lt,
}
use lirc.Remote.Code.{reverse, reverse_loop, shl}

-- The `n` low bits in the opposite order: the lowest one comes out on top.
unfoldable pub mirrored : ℕ → ℕ → ℕ
mirrored x zero = 0
mirrored x (suc n) = x % 2 * 2 ^ n + mirrored (x / 2) n

pub mirrored-lt : (x n : ℕ) → mirrored x n < 2 ^ n
unfolding mirrored
mirrored-lt x zero = omega arith
mirrored-lt x (suc n) = grind (arith, mirrored-lt (x / 2) n, pow-suc 2 n)

-- The same from the other end: the highest bit comes out lowest.
pub mirrored-snoc : (x n : ℕ) → mirrored x (suc n) ≡ mirrored x n * 2 + x / 2 ^ n % 2
unfolding mirrored
mirrored-snoc x zero = omega arith
mirrored-snoc x (suc n) = ground (
  arith,
  mirrored-snoc (x / 2) n,
  two-pow-suc (x % 2) n,
  pow-suc 2 n,
  div-div-eq-div-mul x 2 (2 ^ n),
)

pub shl-one : (i : ℕ) → i < 64 → shl 1 i ≡ 2 ^ i
shl-one i h = grind (arith, two-pow-le (suc i) 64 h, pow-suc 2 i, one-le-pow i 2)

binary_mul : (b t : ℕ) → b < 2 → 0 < t → (if b * t == 0 then 0 else 1) ≡ b
binary_mul zero t h k = ground arith
binary_mul (suc zero) t h k = ground arith
binary_mul (suc (suc b)) t h k = absurd (omega arith)

-- `(data & (1 << i)) ? 1 : 0`.
pub read_bit : (x i : ℕ) → i < 64 → (if bit_and x (shl 1 i) == 0 then 0 else 1) ≡ x / 2 ^ i % 2
read_bit x i h =
    rw (shl-one i h, bit_and-bit)
      (binary_mul (x / 2 ^ i % 2) (2 ^ i) (omega arith) (one-le-pow i 2 (omega arith)))

shl_bit : (b left : ℕ) → b < 2 → left < 64 → shl b left ≡ b * 2 ^ left
shl_bit zero left h k = omega arith
shl_bit (suc zero) left h k = rw (shl-one left k) (omega arith)
shl_bit (suc (suc b)) left h k = absurd (omega arith)

bit-mul-lt : (b left : ℕ) → b < 2 → b * 2 ^ left < 2 ^ suc left
bit-mul-lt b left h = grind (arith, pow-suc 2 left, one-le-pow left 2)

-- One round sets the bit that it reads, below those that stand in `c`.
reverse_round :
    (x i left q : ℕ)
    → i + suc left ≤ 64
    → bit_or (q * 2 ^ suc left) (shl (if bit_and x (shl 1 i) == 0 then 0 else 1) left)
      ≡ (q * 2 + x / 2 ^ i % 2) * 2 ^ left
reverse_round x i left q k =
    let b = x / 2 ^ i % 2 in
    let small : b < 2 = omega arith in
    rw
      (
        read_bit x i (omega arith),
        shl_bit b left small (omega arith),
        bit_or-fields (suc left) q (b * 2 ^ left) (bit-mul-lt b left small),
      )
      (omega (arith, two-pow-suc q left))

halve_again : (x i : ℕ) → x / 2 ^ i / 2 ≡ x / 2 ^ (i + 1)
halve_again x i = rw (div-div-eq-div-mul, ← pow-suc 2 i) (ap (λ k. x / 2 ^ k) (omega arith))

reverse_loop-eq :
    (x bits left i q : ℕ)
    → i + left ≡ bits
    → bits ≤ 64
    → reverse_loop x bits left i (q * 2 ^ left) ≡ q * 2 ^ left + mirrored (x / 2 ^ i) left
unfolding reverse_loop mirrored
reverse_loop-eq x bits zero i q e h = omega arith
reverse_loop-eq x bits (suc left) i q e h =
    let width : bits - 1 - i ≡ left = omega arith in
    rw (width, reverse_round x i left q (omega arith))
      (omega (
        arith,
        reverse_loop-eq x bits left (i + 1) (q * 2 + x / 2 ^ i % 2) (omega arith) h,
        two-pow-suc q left,
        ap (λ y. mirrored y left) (halve_again x i),
      ))

-- The loop reverses: for at most 64 bits `reverse` is the recursion on the bits.
pub reverse-eq-mirrored : (x n : ℕ) → n ≤ 64 → reverse x n ≡ mirrored x n
unfolding reverse
reverse-eq-mirrored x n h = ground (arith, reverse_loop-eq x n n 0 0)

mirrored-suc : (x n : ℕ) → mirrored x (suc n) ≡ x % 2 * 2 ^ n + mirrored (x / 2) n
unfolding mirrored
mirrored-suc x n = refl

mod-pow-suc : (x n : ℕ) → x % 2 ^ suc n ≡ x / 2 ^ n % 2 * 2 ^ n + x % 2 ^ n
mod-pow-suc x n =
    let q = x / 2 ^ n in
    let low = q % 2 * 2 ^ n + x % 2 ^ n in
    let small : low < 2 ^ suc n = omega (
      arith,
      join-lt 1 n (q % 2) (x % 2 ^ n) (omega arith) (mod-pow-lt n x),
      pow-suc 2 n,
      two-pow-add 1 n,
    ) in
    let parts : x ≡ q / 2 * 2 ^ suc n + low = omega (
      arith,
      two-pow-suc (q / 2) n,
      div-add-mod' x (2 ^ n),
      ap (λ t. t * 2 ^ n) (div-add-mod' q 2),
    ) in
    ap (λ t. t % 2 ^ suc n) parts
    ∙ mul-add-mod_self_right (q / 2) (2 ^ suc n) low
    ∙ mod-eq_of_lt small

mirrored-mirrored : (x n : ℕ) → mirrored (mirrored x n) n ≡ x % 2 ^ n
mirrored-mirrored x zero = unfold mirrored in omega arith
mirrored-mirrored x (suc n) = ground (
  arith,
  mirrored-snoc x n,
  mirrored-suc (mirrored x n * 2 + x / 2 ^ n % 2) n,
  mirrored-mirrored x n,
  mod-pow-suc x n,
)

-- Reversing twice with the same width of at most 64 bits gives the low bits of the code back.
pub reverse-reverse : (x n : ℕ) → n ≤ 64 → reverse (reverse x n) n ≡ x % 2 ^ n
reverse-reverse x n h =
    rw (reverse-eq-mirrored x n h, reverse-eq-mirrored (mirrored x n) n h) (mirrored-mirrored x n)
