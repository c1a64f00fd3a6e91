-- ===== src/Base/Bits.antt =====
-- Bit fields as arithmetic, at every width: `&` with a low mask is a remainder, `|` of disjoint
-- fields is a sum, and `&` with one bit reads that bit.
use Prim.Native.Nat.{ℕ, zero, suc, ◌+◌, ◌-◌, ◌*◌, ◌/◌, ◌%◌, ◌^◌, ◌≤◌, ◌<◌, min, max}
use Prim.Native.Nat.{bit_and, bit_or, bit_xor, digits, differ}
use Prim.Native.Nat.{bit_and-bitwise, bit_or-bitwise, bit_xor-bitwise}
use mathlib.Core.Path.{◌≡◌, refl, ap}
use native.Mathlib.Nat.{pow-suc, one-le-pow, le_refl, add-zero, add-suc, pow-le-pow_right}
use native.Mathlib.Omega.{arith}

module _ (z : ℕ → ℕ) (f : ℕ → ℕ → ℕ) where
  -- The recursion on digits gives one result with any fuel that bounds the number.
  digits_any_fuel : (a n m b : ℕ) → a ≤ n → a ≤ m → digits z f n a b ≡ digits z f m a b
  digits_any_fuel zero zero zero b p q = refl
  digits_any_fuel zero zero (suc m) b p q = refl
  digits_any_fuel zero (suc n) zero b p q = refl
  digits_any_fuel zero (suc n) (suc m) b p q = refl
  digits_any_fuel (suc a) zero m b p q = elim p [ ]
  digits_any_fuel (suc a) (suc n) zero b p q = elim q [ ]
  digits_any_fuel (suc a) (suc n) (suc m) b p q =
      ap (λ t. t * 2 + f (suc a % 2) (b % 2))
        (digits_any_fuel (suc a / 2) n m (b / 2) (omega arith) (omega arith))

pub and_digit : (a b : ℕ) → bit_and a b ≡ bit_and (a / 2) (b / 2) * 2 + min (a % 2) (b % 2)
and_digit zero b = omega (arith, bit_and-bitwise 0 b, bit_and-bitwise 0 (b / 2))
and_digit (suc a) b = omega (
  arith,
  bit_and-bitwise (suc a) b,
  bit_and-bitwise (suc a / 2) (b / 2),
  digits_any_fuel (λ _. 0) min (suc a / 2) a (suc a / 2) (b / 2) (omega arith) (le_refl _),
)

pub or_digit : (a b : ℕ) → bit_or a b ≡ bit_or (a / 2) (b / 2) * 2 + max (a % 2) (b % 2)
or_digit zero b = omega (arith, bit_or-bitwise 0 b, bit_or-bitwise 0 (b / 2))
or_digit (suc a) b = omega (
  arith,
  bit_or-bitwise (suc a) b,
  bit_or-bitwise (suc a / 2) (b / 2),
  digits_any_fuel (λ y. y) max (suc a / 2) a (suc a / 2) (b / 2) (omega arith) (le_refl _),
)

differ_zero : (y : ℕ) → differ 0 y ≡ y
differ_zero y = refl

pub xor_digit : (a b : ℕ) → bit_xor a b ≡ bit_xor (a / 2) (b / 2) * 2 + differ (a % 2) (b % 2)
xor_digit zero b =
    omega (arith, bit_xor-bitwise 0 b, bit_xor-bitwise 0 (b / 2), differ_zero (b % 2))
xor_digit (suc a) b = omega (
  arith,
  bit_xor-bitwise (suc a) b,
  bit_xor-bitwise (suc a / 2) (b / 2),
  digits_any_fuel (λ y. y) differ (suc a / 2) a (suc a / 2) (b / 2) (omega arith) (le_refl _),
)

-- The fuel `n` bounds the number that is halved.
or_zero_below : (n a : ℕ) → a ≤ n → bit_or a 0 ≡ a
or_zero_below n zero h = omega (arith, bit_or-bitwise 0 0)
or_zero_below zero (suc a) h = elim h [ ]
or_zero_below (suc n) (suc a) h =
    omega (arith, or_digit (suc a) 0, or_zero_below n (suc a / 2) (omega arith))

and_zero_below : (n a : ℕ) → a ≤ n → bit_and a 0 ≡ 0
and_zero_below n zero h = omega (arith, bit_and-bitwise 0 0)
and_zero_below zero (suc a) h = elim h [ ]
and_zero_below (suc n) (suc a) h =
    omega (arith, and_digit (suc a) 0, and_zero_below n (suc a / 2) (omega arith))

pub differ_binary : (x y : ℕ) → x < 2 → y < 2 → differ x y ≡ (x + y) % 2
differ_binary zero y h k = omega arith
differ_binary (suc zero) zero h k = refl
differ_binary (suc zero) (suc zero) h k = refl
differ_binary (suc zero) (suc (suc y)) h k = absurd (omega arith)
differ_binary (suc (suc x)) y h k = absurd (omega arith)

xor_zero_below : (n a : ℕ) → a ≤ n → bit_xor a 0 ≡ a
xor_zero_below n zero h = omega (arith, bit_xor-bitwise 0 0)
xor_zero_below zero (suc a) h = elim h [ ]
xor_zero_below (suc n) (suc a) h = ground (
  arith,
  xor_digit (suc a) 0,
  xor_zero_below n (suc a / 2) (omega arith),
  differ_binary (suc a % 2) 0,
)

pub bit_or-zero : (a : ℕ) → bit_or a 0 ≡ a
bit_or-zero a = or_zero_below a a (le_refl a)

pub bit_and-zero : (a : ℕ) → bit_and a 0 ≡ 0
bit_and-zero a = and_zero_below a a (le_refl a)

pub bit_xor-zero : (a : ℕ) → bit_xor a 0 ≡ a
bit_xor-zero a = xor_zero_below a a (le_refl a)

pub zero-bit_or : (a : ℕ) → bit_or 0 a ≡ a
zero-bit_or a = bit_or-bitwise 0 a

pub two-pow-suc : (q k : ℕ) → q * 2 ^ suc k ≡ q * 2 ^ k * 2
two-pow-suc q k = omega (arith, ap (λ (t : ℕ). q * t) (pow-suc 2 k))

-- A field above `k` bits and one within them do not overlap.
pub bit_or-fields : (k q r : ℕ) → r < 2 ^ k → bit_or (q * 2 ^ k) r ≡ q * 2 ^ k + r
bit_or-fields zero q r h = ground (arith, bit_or-zero q)
bit_or-fields (suc k) q r h =
    ground
      (arith, two-pow-suc q k, pow-suc 2 k, or_digit (q * 2 ^ suc k) r, bit_or-fields k q (r / 2))

and_low_field : (k q r : ℕ) → r < 2 ^ k → bit_and (q * 2 ^ k + r) (2 ^ k - 1) ≡ r
and_low_field zero q r h = ground (arith, bit_and-zero (q * 1 + r))
and_low_field (suc k) q r h = ground (
  arith,
  two-pow-suc q k,
  pow-suc 2 k,
  and_digit (q * 2 ^ suc k + r) (2 ^ suc k - 1),
  and_low_field k q (r / 2),
  one-le-pow k 2,
)

and_one_bit : (k q r : ℕ) → r < 2 ^ k → bit_and (q * 2 ^ k + r) (2 ^ k) ≡ q % 2 * 2 ^ k
and_one_bit zero q r h = ground (arith, and_digit (q * 1 + r) 1, bit_and-zero ((q * 1 + r) / 2))
and_one_bit (suc k) q r h = ground (
  arith,
  two-pow-suc q k,
  two-pow-suc (q % 2) k,
  pow-suc 2 k,
  and_digit (q * 2 ^ suc k + r) (2 ^ suc k),
  and_one_bit k q (r / 2),
)

-- `x & (2 ^ k - 1)`.
pub bit_and-mask : (k x : ℕ) → bit_and x (2 ^ k - 1) ≡ x % 2 ^ k
bit_and-mask k x = ground (arith, one-le-pow k 2, and_low_field k (x / 2 ^ k) (x % 2 ^ k))

-- `x & (1 << k)`.
pub bit_and-bit : (k x : ℕ) → bit_and x (2 ^ k) ≡ x / 2 ^ k % 2 * 2 ^ k
bit_and-bit k x = ground (arith, one-le-pow k 2, and_one_bit k (x / 2 ^ k) (x % 2 ^ k))

pub two-pow-add : (a b : ℕ) → 2 ^ (a + b) ≡ 2 ^ a * 2 ^ b
two-pow-add a zero = rw add-zero (omega arith)
two-pow-add a (suc b) = rw add-suc (grind (arith, pow-suc 2 (a + b), pow-suc 2 b, two-pow-add a b))

pub two-pow-le : (a b : ℕ) → a ≤ b → 2 ^ a ≤ 2 ^ b
two-pow-le a b h = pow-le-pow_right (omega arith) h

-- A number of `p` bits above one of `b` bits has `p + b` bits.
pub join-lt : (p b x y : ℕ) → x < 2 ^ p → y < 2 ^ b → x * 2 ^ b + y < 2 ^ (p + b)
join-lt p b x y hx hy = rw two-pow-add (grind arith)

pub mod-pow-lt : (n x : ℕ) → x % 2 ^ n < 2 ^ n
mod-pow-lt n x = grind (arith, one-le-pow n 2)

-- `x ^ 1` flips the lowest bit.
pub bit_xor-one : (x : ℕ) → bit_xor x 1 ≡ x / 2 * 2 + (x % 2 + 1) % 2
bit_xor-one x =
    ground (arith, xor_digit x 1, xor_zero_below (x / 2) (x / 2), differ_binary (x % 2) 1)

-- `x & 1`, and `x & ~1` on 64 bits.
pub bit_and-one : (x : ℕ) → bit_and x 1 ≡ x % 2
bit_and-one x = ground (arith, and_digit x 1, bit_and-zero (x / 2))

pub bit_and-clear : (x : ℕ) → x < 2 ^ 64 → bit_and x (2 ^ 64 - 2) ≡ x / 2 * 2
bit_and-clear x h = ground (arith, and_digit x (2 ^ 64 - 2), bit_and-mask 63 (x / 2))

-- `x | 1`, where the lowest bit is clear.
pub bit_or-one : (x : ℕ) → bit_or (x * 2) 1 ≡ x * 2 + 1
bit_or-one x = bit_or-fields 1 x 1 (omega arith)

one_bit_and : (k q r : ℕ) → r < 2 ^ k → bit_and (2 ^ k) (q * 2 ^ k + r) ≡ q % 2 * 2 ^ k
one_bit_and zero q r h =
    ground (arith, and_digit 1 (q * 1 + r), bit_and-bitwise 0 ((q * 1 + r) / 2))
one_bit_and (suc k) q r h = ground (
  arith,
  two-pow-suc q k,
  two-pow-suc (q % 2) k,
  pow-suc 2 k,
  and_digit (2 ^ suc k) (q * 2 ^ suc k + r),
  one_bit_and k q (r / 2),
)

-- `(1 << k) & x`.
pub bit-bit_and : (k x : ℕ) → bit_and (2 ^ k) x ≡ x / 2 ^ k % 2 * 2 ^ k
bit-bit_and k x = ground (arith, one-le-pow k 2, one_bit_and k (x / 2 ^ k) (x % 2 ^ k))
