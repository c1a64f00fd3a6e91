-- ===== src/Config/Numbers/Print/ReadBack.antt =====
-- The numbers of lib/config_file.c read what lib/dump_config.c printed.
use native.Mathlib.Nat.{pow-le-pow_right}
use mathlib.Core.Bool.{false≢true}
use mathlib.Core.Path.{subst}
use lirc.Base.{
  ℕ, suc, ◌-◌, ◌%◌, ◌^◌, ◌≤◌, ◌<◌, ◌≡◌, refl, ap, sym, ◌∙◌, arith, leb, ◌==◌, drop, ◌||◌, ◌&&◌,
}
use lirc.Base.{if◌then◌else◌, true, false, List, [], ◌∷◌, ◌⊎◌, inl, inr, max}
use lirc.Config.Numbers.{
  read_digits, starts, Scan, base_of, is_empty, scan_unsigned, scan_number, skip_space,
  unsigned_value, s_strtocode, s_strtou32,
}
use lirc.Config.Numbers.Print.{
  print_digit, digits, digit_count, print_decimal, print_hex, first-digit, digit_count_range,
  read_digits-print, starts-print,
}

abbrev printed : ℕ → Scan
printed n = record { negative = false; value = n; rest = [] }

scan_unsigned_own :
    (val t s : List ℕ) (v : ℕ)
    → (if base_of t == 16 then drop 2 t else t) ≡ s
    → starts (base_of t) s ≡ true
    → read_digits (base_of t) 0 s ≡ (v, [])
    → scan_unsigned val false t ≡ printed v
unfolding scan_unsigned
scan_unsigned_own val t s v body first all = rw (body, first, all, if◌then◌else◌) refl

scan_unsigned_lem :
    (val t s : List ℕ) (base v : ℕ)
    → base_of t ≡ base
    → (if base == 16 then drop 2 t else t) ≡ s
    → starts base s ≡ true
    → read_digits base 0 s ≡ (v, [])
    → scan_unsigned val false t ≡ printed v
scan_unsigned_lem val t s base v b =
    subst
      (λ x.
        (if x == 16 then drop 2 t else t) ≡ s
        → starts x s ≡ true
        → read_digits x 0 s ≡ (v, [])
        → scan_unsigned val false t ≡ printed v)
      b (scan_unsigned_own val t s v)

base_of-hex : (s : List ℕ) → starts 16 s ≡ true → base_of (48 ∷ 120 ∷ s) ≡ 16
base_of-hex s e = rw (e, if◌then◌else◌) refl

drop-two : (a b : ℕ) (s : List ℕ) → drop 2 (a ∷ b ∷ s) ≡ s
drop-two a b s = refl

scan_hex : (k n : ℕ) → n < 16 ^ suc k → scan_number (48 ∷ 120 ∷ digits 16 (suc k) n) ≡ printed n
unfolding scan_number skip_space
scan_hex k n h =
    let s = digits 16 (suc k) n in
    let first : starts 16 s ≡ true = starts-print 16 k n (omega arith) (omega arith) in
    scan_unsigned_lem (48 ∷ 120 ∷ s) (48 ∷ 120 ∷ s) s 16 n (base_of-hex s first) (drop-two 48 120 s)
      first (read_digits-print 16 k n (omega arith) (omega arith) h)

scan_number-first :
    (c : ℕ) (s : List ℕ)
    → 49 ≤ c
    → c ≤ 57
    → scan_number (c ∷ s) ≡ scan_unsigned (c ∷ s) false (c ∷ s)
unfolding scan_number skip_space
scan_number-first c s low high =
    let blank : (c == 32 || leb 9 c && leb c 13) ≡ false = ground arith in
    let minus : (c == 45) ≡ false = ground arith in
    let plus : (c == 43) ≡ false = ground arith in
    rw (skip_space, blank, minus, plus, if◌then◌else◌) refl

base_of-decimal : (c : ℕ) (s : List ℕ) → 49 ≤ c → base_of (c ∷ s) ≡ 10
base_of-decimal c s low =
    let zero_digit : (c == 48) ≡ false = ground arith in rw (zero_digit, if◌then◌else◌) refl

scan_zero : scan_number (digits 10 1 0) ≡ printed 0
unfolding scan_number skip_space scan_unsigned read_digits digits
scan_zero = refl

scan_decimal :
    (k n : ℕ)
    → n < 10 ^ suc k
    → (((k ≡ 0) × (n ≡ 0)) ⊎ (10 ^ k ≤ n))
    → scan_number (digits 10 (suc k) n) ≡ printed n
scan_decimal k n h (inl (z, e)) =
    subst (λ x. scan_number (digits 10 (suc x) n) ≡ printed n) (sym z)
      (subst (λ x. scan_number (digits 10 1 x) ≡ printed x) (sym e) scan_zero)
scan_decimal k n h (inr low) =
    let (d, s, e, one, ten) = first-digit 10 k n (omega arith) low h in
    let c = print_digit d in
    let low_c : 49 ≤ c = ground arith in
    let high_c : c ≤ 57 = ground arith in
    ap scan_number e
    ∙ scan_number-first c s low_c high_c
    ∙ scan_unsigned_lem (c ∷ s) (c ∷ s) (c ∷ s) 10 n (base_of-decimal c s low_c) refl
        (subst (λ u. starts 10 u ≡ true) e (starts-print 10 k n (omega arith) (omega arith)))
        (subst (λ u. read_digits 10 0 u ≡ (n, [])) e
          (read_digits-print 10 k n (omega arith) (omega arith) h))

s_strtou32-printed :
    (val : List ℕ) (n : ℕ)
    → is_empty val ≡ false
    → n < 2 ^ 64
    → scan_number val ≡ printed n
    → s_strtou32 val ≡ (n % 2 ^ 32, false)
unfolding s_strtou32 unsigned_value
s_strtou32-printed val n some h e =
    let fits : leb (2 ^ 64) n ≡ false = ground arith in rw (e, some, fits, if◌then◌else◌) refl

s_strtocode-printed :
    (val : List ℕ) (n : ℕ)
    → is_empty val ≡ false
    → n < 2 ^ 64
    → scan_number val ≡ printed n
    → s_strtocode val ≡ (n, false)
unfolding s_strtocode unsigned_value
s_strtocode-printed val n some h e =
    let fits : leb (2 ^ 64) n ≡ false = ground arith in rw (e, some, fits, if◌then◌else◌) refl

is_empty-starts : (base : ℕ) (s : List ℕ) → starts base s ≡ true → is_empty s ≡ false
is_empty-starts base [] e = absurd (false≢true e)
is_empty-starts base (c ∷ s) e = refl

print_decimal-digits :
    (n : ℕ)
    → n < 2 ^ 64
    → (j : ℕ) × (print_decimal n ≡ digits 10 (suc j) n)
      × (scan_number (print_decimal n) ≡ printed n)
unfolding print_decimal
print_decimal-digits n h =
    let (j, e, high, low) = digit_count_range 10 19 n (omega arith) (omega arith) in
    let same : digits 10 (digit_count 10 19 n) n ≡ digits 10 (suc j) n =
      ap (λ k. digits 10 k n) e in
    (j, same, ap scan_number same ∙ scan_decimal j n high low)

-- A number below 2^64 printed in decimal is read back modulo 2^32, and never refused.
pub s_strtou32-print_decimal :
    (n : ℕ) → n < 2 ^ 64 → s_strtou32 (print_decimal n) ≡ (n % 2 ^ 32, false)
s_strtou32-print_decimal n h =
    let (j, e, scanned) = print_decimal-digits n h in
    let some =
      is_empty-starts 10 (print_decimal n)
        (ap (starts 10) e ∙ starts-print 10 j n (omega arith) (omega arith)) in
    s_strtou32-printed (print_decimal n) n some h scanned

pub print_hex-digits :
    (width n : ℕ)
    → n < 2 ^ 64
    → (j : ℕ) × (print_hex width n ≡ digits 16 (suc j) n) × (n < 16 ^ suc j)
unfolding print_hex
print_hex-digits width n h =
    let (j, e, high, low) = digit_count_range 16 15 n (omega arith) (omega arith) in
    let k = max width (suc j) - 1 in
    let enough : suc j ≤ suc k = omega arith in
    let same : max width (digit_count 16 15 n) ≡ suc k = omega (arith, e) in
    (
      k,
      ap (λ m. digits 16 m n) same,
      omega (arith, high, pow-le-pow_right {n = 16} (omega arith) enough),
    )

-- A code printed in hexadecimal with at least `width` digits is read back.
pub s_strtocode-print_hex :
    (width n : ℕ) → n < 2 ^ 64 → s_strtocode (48 ∷ 120 ∷ print_hex width n) ≡ (n, false)
s_strtocode-print_hex width n h =
    let (j, e, high) = print_hex-digits width n h in
    s_strtocode-printed (48 ∷ 120 ∷ print_hex width n) n refl h
      (ap (λ s. scan_number (48 ∷ 120 ∷ s)) e ∙ scan_hex j n high)
