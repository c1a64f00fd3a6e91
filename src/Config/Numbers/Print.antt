-- ===== src/Config/Numbers/Print.antt =====
-- The numbers that `printf` prints for lib/dump_config.c, and the digits that lib/config_file.c reads.
pub mod ReadBack
use native.Mathlib.Nat.{
  pow-suc, pow-zero, mod-eq_of_lt, div-add-mod', mod-lt, zero-mul, pow-le-pow_right,
}
use mathlib.Core.List.{append_assoc, append-nil}
use mathlib.Core.Bool.{false≢true}
use mathlib.Core.Path.{subst}
use lirc.Base.{
  ℕ, zero, suc, ◌+◌, ◌-◌, ◌*◌, ◌/◌, ◌%◌, ◌^◌, ◌≤◌, ◌<◌, ◌≡◌, refl, ap, sym, ◌∙◌, arith, ltb, leb,
  ◌==◌, drop, ◌||◌, ◌&&◌,
}
use lirc.Base.{
  if◌then◌else◌, true, false, List, [], ◌∷◌, ◌++◌, ◌⊎◌, inl, inr, lt→ltb, ltb→lt, Bool-cases, max,
}
use lirc.Config.Numbers.{
  digit_value, read_digits, starts, Scan, base_of, is_empty, scan_unsigned, scan_number, skip_space,
  unsigned_value, s_strtocode, s_strtou32,
}

-- `X` and `u` print digits in capitals.
abbrev pub print_digit : ℕ → ℕ
print_digit d = if ltb d 10 then 48 + d else 55 + d

-- The `k` low digits, the highest first.
unfoldable pub digits : ℕ → ℕ → ℕ → List ℕ
digits base zero n = []
digits base (suc k) n = digits base k (n / base) ++ (print_digit (n % base) ∷ [])

-- The digits that a number needs, at most `k` + 1.
unfoldable pub digit_count : ℕ → ℕ → ℕ → ℕ
digit_count base zero n = 1
digit_count base (suc k) n =
    let rest = digit_count base k (n / base) in if ltb n base then 1 else rest + 1

-- `%u`: the number in decimal, without leading zeros. 20 digits are enough for 64 bits.
unfoldable pub print_decimal : ℕ → List ℕ
unfolding digits digit_count
print_decimal n = digits 10 (digit_count 10 19 n) n

-- `%0*llX` with at least `width` digits.
unfoldable pub print_hex : ℕ → ℕ → List ℕ
unfolding digits digit_count
print_hex width n = digits 16 (max width (digit_count 16 15 n)) n

digit_value-print_digit : (d : ℕ) → d < 16 → digit_value (print_digit d) ≡ d
digit_value-print_digit d h = ground arith

quotient-lt : (base k n : ℕ) → 2 ≤ base → n < base ^ suc k → n / base < base ^ k
quotient-lt base k n b h = grind (arith, pow-suc base k, div-add-mod' n base)

below-base : (base n : ℕ) → 2 ≤ base → n % base < base
below-base base n b = mod-lt n (omega arith)

read_step :
    (base acc c : ℕ) (rest : List ℕ)
    → ltb (digit_value c) base ≡ true
    → read_digits base acc (c ∷ rest) ≡ read_digits base (acc * base + digit_value c) rest
unfolding read_digits
read_step base acc c rest e = rw (read_digits, e) refl

read_one :
    (base acc d : ℕ) (rest : List ℕ)
    → base ≤ 16
    → d < base
    → read_digits base acc (print_digit d ∷ rest) ≡ read_digits base (acc * base + d) rest
unfolding read_digits
read_one base acc d rest b h =
    let v : digit_value (print_digit d) ≡ d = digit_value-print_digit d (omega arith) in
    read_step base acc (print_digit d) rest (ap (λ x. ltb x base) v ∙ lt→ltb d base h)
    ∙ ap (λ x. read_digits base (acc * base + x) rest) v

-- The digits of a number are read back, whatever follows them.
read_digits-digits :
    (base k n acc : ℕ) (rest : List ℕ)
    → 2 ≤ base
    → base ≤ 16
    → n < base ^ k
    → read_digits base acc (digits base k n ++ rest) ≡ read_digits base (acc * base ^ k + n) rest
unfolding digits
read_digits-digits base zero n acc rest l b h =
    ap (λ a. read_digits base a rest)
      (omega (arith, pow-zero base, ap (λ (t : ℕ). acc * t) (pow-zero base)))
read_digits-digits base (suc k) n acc rest l b h =
    let q = n / base in
    let r = n % base in
    let small : q < base ^ k = quotient-lt base k n l h in
    let whole : q * base + r ≡ n = div-add-mod' n base in
    ap (read_digits base acc) (append_assoc (digits base k q) (print_digit r ∷ []) rest)
    ∙ read_digits-digits base k q acc (print_digit r ∷ rest) l b small
    ∙ read_one base (acc * base ^ k + q) r rest b (below-base base n l)
    ∙ ap (λ a. read_digits base a rest) (grind (arith, pow-suc base k))

starts-digits :
    (base k n : ℕ) (rest : List ℕ)
    → 2 ≤ base
    → base ≤ 16
    → starts base (digits base (suc k) n ++ rest) ≡ true
unfolding digits
starts-digits base zero n rest l b =
    rw (digit_value-print_digit (n % base) (omega (arith, below-base base n l)))
      (lt→ltb (n % base) base (below-base base n l))
starts-digits base (suc k) n rest l b =
    ap (starts base)
      (append_assoc (digits base (suc k) (n / base)) (print_digit (n % base) ∷ []) rest)
    ∙ starts-digits base k (n / base) (print_digit (n % base) ∷ rest) l b

-- The first digit of a number that needs all its digits is not 0.
pub first-digit :
    (base k n : ℕ)
    → 2 ≤ base
    → base ^ k ≤ n
    → n < base ^ suc k
    → (d : ℕ) × (s : List ℕ) × (digits base (suc k) n ≡ print_digit d ∷ s) × (1 ≤ d) × (d < base)
unfolding digits
first-digit base zero n l low high =
    let e : n % base ≡ n = mod-eq_of_lt (grind (arith, pow-suc base 0, pow-zero base)) in
    (n % base, [], refl, omega (arith, pow-zero base), below-base base n l)
first-digit base (suc k) n l low high =
    let low' : base ^ k ≤ n / base =
      grind (arith, pow-suc base k, div-add-mod' n base, below-base base n l) in
    let (d, s, e, pos_d, d_lt) =
      first-digit base k (n / base) l low' (quotient-lt base (suc k) n l high) in
    (
      d,
      s ++ (print_digit (n % base) ∷ []),
      ap (λ t. t ++ (print_digit (n % base) ∷ [])) e,
      pos_d,
      d_lt,
    )

above-div : (base p n : ℕ) → 2 ≤ base → n / base < p → n < p * base
above-div base p n l h = grind (arith, div-add-mod' n base, below-base base n l)

below-div : (base p n : ℕ) → p ≤ n / base → p * base ≤ n
below-div base p n h = grind (arith, div-add-mod' n base)

ltb-ge : (a b : ℕ) → ltb a b ≡ false → b ≤ a
ltb-ge a b e = ground arith

pub digit_count_range :
    (base k n : ℕ)
    → 2 ≤ base
    → n < base ^ suc k
    → (j : ℕ) × (digit_count base k n ≡ suc j)
      × (n < base ^ suc j)
      × (((j ≡ 0) × (n ≡ 0)) ⊎ (base ^ j ≤ n))
unfolding digit_count
digit_count_range base zero n l h = (0, refl, h, ground (arith, pow-zero base))
digit_count_range base (suc k) n l h = elim (Bool-cases (ltb n base)) [
  | inl e ↦ (
    0,
    rw (e, if◌then◌else◌) refl,
    grind (arith, pow-suc base 0, pow-zero base, ltb→lt n base e),
    ground (arith, pow-zero base),
  )
  | inr e ↦
      let (j, c, high, low) =
        digit_count_range base k (n / base) l (quotient-lt base (suc k) n l h) in
      (
        suc j,
        rw (e, if◌then◌else◌) (ground (arith, c)),
        omega (arith, above-div base (base ^ suc j) n l high, pow-suc base (suc j)),
        inr (elim low [
          | inl z ↦
              absurd (grind (arith, z.1, div-add-mod' n base, below-base base n l, ltb-ge n base e))
          | inr w ↦ omega (arith, below-div base (base ^ j) n w, pow-suc base j)
        ]),
      )
]

pub read_digits-print :
    (base k n : ℕ)
    → 2 ≤ base
    → base ≤ 16
    → n < base ^ suc k
    → read_digits base 0 (digits base (suc k) n) ≡ (n, [])
unfolding read_digits
read_digits-print base k n l b h =
    let s = digits base (suc k) n in
    ap (read_digits base 0) (sym (append-nil s))
    ∙ read_digits-digits base (suc k) n 0 [] l b h
    ∙ ap (λ a. read_digits base a []) (omega (arith, zero-mul (base ^ suc k)))

pub starts-print :
    (base k n : ℕ) → 2 ≤ base → base ≤ 16 → starts base (digits base (suc k) n) ≡ true
starts-print base k n l b =
    let s = digits base (suc k) n in
    ap (starts base) (sym (append-nil s)) ∙ starts-digits base k n [] l b
