-- ===== src/Config/Numbers.antt =====
-- The numbers of a configuration: `s_strtocode` to `s_strtolirc_t` of lib/config_file.c.
-- `strtoull`, `strtoul` and `strtol` of the C library are written out for base 0 and a 64-bit `long`.
pub mod Print
use lirc.Base.{ℕ, ◌+◌, ◌-◌, ◌*◌, ◌^◌, ◌%◌, Bool, true, false, not, ◌&&◌, ◌||◌, ltb, leb, ◌==◌}
use lirc.Base.{if◌then◌else◌, List, [], ◌∷◌, drop}
use lirc.Base.Int.{ℤ, pos, negsuc, pos_part, neg_part, sub_ℕ, to_int32}
use lirc.Base.Text.{lower}

-- `isspace`.
abbrev is_space : ℕ → Bool
is_space c = c == 32 || leb 9 c && leb c 13

pub skip_space : List ℕ → List ℕ
skip_space [] = []
skip_space (c ∷ s) = elim (is_space c) [ true ↦ skip_space s | false ↦ c ∷ s ]

-- The value of a character as a digit; 99 for any other.
abbrev pub digit_value : ℕ → ℕ
digit_value c =
    let l = lower c in
    if leb 48 c && leb c 57 then c - 48 else if leb 97 l && leb l 122 then l - 87 else 99

-- The digits at the front, added to `acc`, and what follows them.
unfoldable pub read_digits : ℕ → ℕ → List ℕ → ℕ × List ℕ
read_digits base acc [] = (acc, [])
read_digits base acc (c ∷ s) = elim (ltb (digit_value c) base) [
  | true ↦ read_digits base (acc * base + digit_value c) s
  | false ↦ (acc, c ∷ s)
]

abbrev pub starts : ℕ → List ℕ → Bool
starts base [] = false
starts base (c ∷ s) = ltb (digit_value c) base

-- What was scanned: sign, absolute value, and the rest of the text (`endptr`).
pub record Scan : Type 0 where
  pub negative : Bool
  pub value : ℕ
  pub rest : List ℕ

-- `0x` and a hexadecimal digit.
abbrev pub is_hex : List ℕ → Bool
is_hex [] = false
is_hex (x ∷ s) = lower x == 120 && starts 16 s

abbrev pub base_of : List ℕ → ℕ
base_of [] = 10
base_of (c ∷ s) = if c == 48 then if is_hex s then 16 else 8 else 10

-- The text after the sign; without a digit nothing is scanned, and `endptr` is `val`.
pub scan_unsigned : List ℕ → Bool → List ℕ → Scan
unfolding read_digits
scan_unsigned val negative s =
    let base = base_of s in
    let body = if base == 16 then drop 2 s else s in
    let (value, rest) = read_digits base 0 body in
    if starts base body
    then record { negative = negative; value = value; rest = rest }
    else record { negative = false; value = 0; rest = val }

abbrev pub scan_signed : List ℕ → List ℕ → Scan
scan_signed val [] = scan_unsigned val false []
scan_signed val (c ∷ s) =
    if c == b'-'
    then scan_unsigned val true s
    else if c == b'+'
    then scan_unsigned val false s
    else scan_unsigned val false (c ∷ s)

unfoldable pub scan_number : List ℕ → Scan
unfolding scan_unsigned skip_space
scan_number val = scan_signed val (skip_space val)

-- `strtoull` and `strtoul`: the value, and whether `errno` is `ERANGE`.
unfoldable pub unsigned_value : Scan → ℕ × Bool
unsigned_value n =
    if leb (2 ^ 64) n.value
    then (2 ^ 64 - 1, true)
    else if n.negative
    then ((2 ^ 64 - n.value) % 2 ^ 64, false)
    else (n.value, false)

-- `strtol`.
unfoldable pub signed_value : Scan → ℤ
signed_value n =
    if n.negative
    then (if leb n.value (2 ^ 63) then sub_ℕ 0 n.value else sub_ℕ 0 (2 ^ 63))
    else if ltb n.value (2 ^ 63)
    then pos n.value
    else pos (2 ^ 63 - 1)

abbrev pub is_empty : List ℕ → Bool
is_empty [] = true
is_empty (c ∷ s) = false

-- `*val` is set and `*endptr` is not: the whole text is a number.
abbrev pub whole : List ℕ → Scan → Bool
whole val n = not (is_empty val) && is_empty n.rest

-- A number and whether `parse_error` was set; the number is then 0.
abbrev pub Read : Type 0 → Type 0
Read A = A × Bool

unfoldable pub s_strtocode : List ℕ → Read ℕ
unfolding scan_number unsigned_value
s_strtocode val =
    let n = scan_number val in
    let (code, overflow) = unsigned_value n in
    if overflow || not (whole val n) then (0, true) else (code, false)

-- `uint32_t n`: the comparison of `n` with its own conversion never fails.
unfoldable pub s_strtou32 : List ℕ → Read ℕ
unfolding scan_number unsigned_value
s_strtou32 val =
    let n = scan_number val in
    if whole val n then ((unsigned_value n).0 % 2 ^ 32, false) else (0, true)

unfoldable pub s_strtoui : List ℕ → Read ℕ
unfolding s_strtou32
s_strtoui val = s_strtou32 val

abbrev same_ℤ : ℤ → ℤ → Bool
same_ℤ a b = pos_part a + neg_part b == pos_part b + neg_part a

unfoldable pub s_strtoi : List ℕ → Read ℤ
unfolding scan_number signed_value
s_strtoi val =
    let n = scan_number val in
    let v = signed_value n in
    if whole val n && same_ℤ v (to_int32 v) then (to_int32 v, false) else (pos 0, true)

-- A negative duration is logged, and kept.
unfoldable pub s_strtolirc_t : List ℕ → Read ℤ
unfolding s_strtou32
s_strtolirc_t val =
    let (n, failed) = s_strtou32 val in if failed then (pos 0, true) else (to_int32 (pos n), false)
