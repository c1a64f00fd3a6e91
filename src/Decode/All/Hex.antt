-- ===== src/Decode/All/Hex.antt =====
-- The code can be read back from the message that `write_message` formats.
use native.Mathlib.Nat.{pow-suc}
use lirc.Base.{ℕ, zero, suc, ◌+◌, ◌-◌, ◌*◌, ◌/◌, ◌%◌, ◌^◌, ◌≤◌, ◌<◌, ◌≡◌, refl, ap, arith, ltb}
use lirc.Base.{if◌then◌else◌, List, [], ◌∷◌, ◌++◌, take, length, length-append, Option}
use lirc.Base.Int.{ℤ}
use lirc.Remote.{Name}
use lirc.Decode.All.{hex_digit, hex_fixed, message_text, write_message}

-- The value of a hexadecimal digit.
abbrev digit_value : ℕ → ℕ
digit_value d = if ltb d 58 then d - 48 else d - 87

-- Reads a number in base 16, the highest digit first.
unfoldable pub read_hex : ℕ → List ℕ → ℕ
read_hex acc [] = acc
read_hex acc (d ∷ ds) = read_hex (acc * 16 + digit_value d) ds

read_hex-append :
    (acc : ℕ) (xs : List ℕ) (d : ℕ)
    → read_hex acc (xs ++ (d ∷ [])) ≡ read_hex acc xs * 16 + digit_value d
unfolding read_hex
read_hex-append acc [] d = refl
read_hex-append acc (x ∷ xs) d = read_hex-append (acc * 16 + digit_value x) xs d

digit_value-hex_digit : (d : ℕ) → d < 16 → digit_value (hex_digit d) ≡ d
unfolding hex_digit
digit_value-hex_digit d h = ground arith

length-hex_fixed : (k n : ℕ) → length (hex_fixed k n) ≡ k
unfolding hex_fixed
length-hex_fixed zero n = refl
length-hex_fixed (suc k) n = ground (
  arith,
  length-append (hex_fixed k (n / 16)) (hex_digit (n % 16) ∷ []),
  length-hex_fixed k (n / 16),
)

pub read_hex-hex_fixed : (k n : ℕ) → n < 16 ^ k → read_hex 0 (hex_fixed k n) ≡ n
unfolding hex_fixed read_hex
read_hex-hex_fixed zero n h = omega arith
read_hex-hex_fixed (suc k) n h =
    rw
      (
        read_hex-append 0 (hex_fixed k (n / 16)) (hex_digit (n % 16)),
        digit_value-hex_digit (n % 16) (omega arith),
        read_hex-hex_fixed k (n / 16) (omega (arith, pow-suc 16 k)),
      )
      (omega arith)

take-append : (xs ys : List ℕ) → take (length xs) (xs ++ ys) ≡ xs
take-append [] ys = refl
take-append (x ∷ xs) ys = ap (λ t. x ∷ t) (take-append xs ys)

take-take : (a b : ℕ) (xs : List ℕ) → a ≤ b → take a (take b xs) ≡ take a xs
take-take zero b xs h = refl
take-take (suc a) zero xs h = absurd (omega arith)
take-take (suc a) (suc b) [] h = refl
take-take (suc a) (suc b) (x ∷ xs) h = ap (λ t. x ∷ t) (take-take a b xs (omega arith))

-- In a buffer of at least 17 bytes, the first 16 characters of the message that `write_message`
-- writes are the code in base 16, for every 64-bit code.
pub write_message-code :
    (size : ℕ) (remote button : Name) (suffix : Option Name) (code : ℕ) (reps : ℤ)
    → 17 ≤ size
    → code < 2 ^ 64
    → read_hex 0 (take 16 (write_message size remote button suffix code reps).0) ≡ code
unfolding write_message message_text
write_message-code size remote button suffix code reps room h =
    rw (take-take 16 (size - 1) (message_text remote button suffix code reps) (omega arith))
      (read_hex-hex_fixed 16 code h)
