-- ===== src/Config/Dump/LineText.antt =====
-- The text of a line with the codes of a button: its words and its characters.
use mathlib.Core.List.{append_assoc, append-nil}
use mathlib.Core.Path.{subst}
use lirc.Base.{ℕ, zero, suc, ◌+◌, ◌-◌, ◌/◌, ◌%◌, ◌^◌, ◌<◌, ◌≡◌, refl, ap, sym, ◌∙◌, arith}
use lirc.Base.{Bool, true, false, ◌==◌, List, [], ◌∷◌, ◌++◌, map}
use lirc.Base.{none, length, max}
use lirc.Base.Text.{bytes, is_blank, same_word, words}
use lirc.Base.Text.Words.{Each, Each-append, words-blanks, words-word, words-last}
use lirc.Remote.{IrNcode, Name}
use lirc.Config.Array.{VoidArray, add_void_array}
use lirc.Config.Dump.{spaces, pad_right, fprint_nodes, code_text, newline}
use lirc.Config.Numbers.Print.{print_digit, digits, digit_count, print_hex}
use lirc.Config.Numbers.Print.ReadBack.{print_hex-digits}

-- The word for one code.
abbrev pub node : ℕ → ℕ → List ℕ
node width v = b'0' ∷ b'x' ∷ print_hex width v

-- What is read of a code: no timings, and no state.
abbrev pub plain : IrNcode → IrNcode
plain c = record {
  name = c.name;
  code = c.code;
  signals = none;
  next = c.next;
  current = none;
  transmit_state = none;
}

abbrev pub add_codes : VoidArray IrNcode → List IrNcode → VoidArray IrNcode
add_codes ar [] = ar
add_codes ar (c ∷ cs) = add_codes (add_void_array ar (plain c)) cs

-- All numbers fit 64 bits.
abbrev pub AllCodes : List ℕ → Type 0
AllCodes [] = Unit {0}
AllCodes (v ∷ vs) = (v < 2 ^ 64) × AllCodes vs

-- A name that can stand in a `codes` section: not empty, without blanks, zeros and newlines, and
-- none of the words with a meaning there.
abbrev pub IsButtonName : Name → Type 0
IsButtonName [] = ⊥
IsButtonName (c ∷ w) =
    Each is_blank false (c ∷ w)
    × Each (λ x. x == 0) false (c ∷ w)
    × Each (λ x. x == b'\n') false (c ∷ w)
    × (same_word (bytes "include") (c ∷ w) ≡ false)
    × (same_word (bytes "begin") (c ∷ w) ≡ false)
    × (same_word (bytes "end") (c ∷ w) ≡ false)

-- No character of a number satisfies the test.
abbrev Spares : (ℕ → Bool) → Type 0
Spares test = (d : ℕ) → d < 16 → test (print_digit d) ≡ false

Each-digits : (test : ℕ → Bool) (k n : ℕ) → Spares test → Each test false (digits 16 k n)
unfolding digits
Each-digits test zero n h = tt
Each-digits test (suc k) n h =
    Each-append test false (digits 16 k (n / 16)) (print_digit (n % 16) ∷ [])
      (Each-digits test k (n / 16) h) (h (n % 16) (omega arith), tt)

Each-print_hex : (test : ℕ → Bool) (width n : ℕ) → Spares test → Each test false (print_hex width n)
unfolding print_hex
Each-print_hex test width n h = Each-digits test (max width (digit_count 16 15 n)) n h

blank-digits : Spares is_blank
blank-digits d h = ground arith

zero-digits : Spares (λ c. c == 0)
zero-digits d h = ground arith

newline-digits : Spares (λ c. c == b'\n')
newline-digits d h = ground arith

Each-nodes :
    (test : ℕ → Bool) (width : ℕ) (vs : List ℕ)
    → Spares test
    → test b' ' ≡ false
    → test b'0' ≡ false
    → test b'x' ≡ false
    → Each test false (fprint_nodes width vs)
unfolding fprint_nodes
Each-nodes test width [] h a b c = tt
Each-nodes test width (v ∷ vs) h a b c =
    let rest =
      Each-append test false (print_hex width v) (fprint_nodes width vs)
        (Each-print_hex test width v h) (Each-nodes test width vs h a b c) in
    (a, (b, (c, rest)))

blank-node : (width v : ℕ) → Each is_blank false (node width v)
blank-node width v = (refl, (refl, Each-print_hex is_blank width v blank-digits))

Each-spaces : (test : ℕ → Bool) (b : Bool) (n : ℕ) → test b' ' ≡ b → Each test b (spaces n)
unfolding spaces
Each-spaces test b zero h = tt
Each-spaces test b (suc n) h = (h, Each-spaces test b n h)

-- The words of the printed codes.
words-nodes : (width : ℕ) (vs : List ℕ) → words (fprint_nodes width vs) ≡ map (node width) vs
unfolding fprint_nodes words
words-nodes width [] = refl
words-nodes width (v ∷ []) =
    words-blanks (b' ' ∷ []) (node width v ++ []) (refl, tt)
    ∙ ap words (append-nil (node width v))
    ∙ words-last b'0' (b'x' ∷ print_hex width v) (blank-node width v)
words-nodes width (v ∷ v' ∷ vs) =
    let rest = node width v' ++ fprint_nodes width vs in
    words-blanks (b' ' ∷ []) (node width v ++ (b' ' ∷ rest)) (refl, tt)
    ∙ words-word b'0' (b'x' ∷ print_hex width v) b' ' rest (blank-node width v) refl
    ∙ ap (λ ws. node width v ∷ ws)
        (sym (words-blanks (b' ' ∷ []) rest (refl, tt)) ∙ words-nodes width (v' ∷ vs))

-- A text that ends with a digit.
abbrev pub Ends : List ℕ → Type 0
Ends s = (u : List ℕ) × (d : ℕ) × (s ≡ u ++ (print_digit d ∷ []))

Ends-append : (s t : List ℕ) → Ends t → Ends (s ++ t)
Ends-append s t (u, d, e) =
    (s ++ u, d, ap (λ x. s ++ x) e ∙ sym (append_assoc s u (print_digit d ∷ [])))

Ends-print_hex : (width n : ℕ) → n < 2 ^ 64 → Ends (print_hex width n)
unfolding digits
Ends-print_hex width n h =
    let (j, e, high) = print_hex-digits width n h in (digits 16 j (n / 16), n % 16, e)

Ends-nodes : (width v : ℕ) (vs : List ℕ) → AllCodes (v ∷ vs) → Ends (fprint_nodes width (v ∷ vs))
unfolding fprint_nodes
Ends-nodes width v [] h =
    Ends-append (b' ' ∷ b'0' ∷ b'x' ∷ []) (print_hex width v ++ [])
      (subst Ends (sym (append-nil (print_hex width v))) (Ends-print_hex width v h.0))
Ends-nodes width v (v' ∷ vs) h =
    Ends-append (b' ' ∷ node width v) (fprint_nodes width (v' ∷ vs)) (Ends-nodes width v' vs h.1)

-- The line of a button without its newline.
abbrev pub line_body : ℕ → IrNcode → List ℕ
line_body bits c =
    spaces 10 ++ (pad_right 24 c.name ++ fprint_nodes ((bits + 3) / 4) (c.code ∷ c.next))

pub code_text-line : (bits : ℕ) (c : IrNcode) → code_text bits c ≡ line_body bits c ++ newline
unfolding code_text
code_text-line bits c =
    let nodes = fprint_nodes ((bits + 3) / 4) (c.code ∷ c.next) in
    ap (λ t. spaces 10 ++ t) (sym (append_assoc (pad_right 24 c.name) nodes newline))
    ∙ sym (append_assoc (spaces 10) (pad_right 24 c.name ++ nodes) newline)

spaces-cons : (n : ℕ) (t : List ℕ) → spaces n ++ (b' ' ∷ t) ≡ b' ' ∷ (spaces n ++ t)
unfolding spaces
spaces-cons zero t = refl
spaces-cons (suc n) t = ap (λ u. b' ' ∷ u) (spaces-cons n t)

words-name :
    (c : ℕ) (w t : List ℕ) (k : ℕ)
    → Each is_blank false (c ∷ w)
    → words ((c ∷ w ++ spaces k) ++ (b' ' ∷ t)) ≡ (c ∷ w) ∷ words (b' ' ∷ t)
words-name c w t k h =
    ap words (append_assoc (c ∷ w) (spaces k) (b' ' ∷ t) ∙ ap (λ u. c ∷ w ++ u) (spaces-cons k t))
    ∙ words-word c w b' ' (spaces k ++ t) h refl
    ∙ ap (λ ws. (c ∷ w) ∷ ws)
        (words-blanks (spaces k) t (Each-spaces is_blank true k refl)
          ∙ sym (words-blanks (b' ' ∷ []) t (refl, tt)))

pub words-padded :
    (width : ℕ) (s : Name) (v : ℕ) (vs : List ℕ)
    → IsButtonName s
    → words (spaces 10 ++ (pad_right 24 s ++ fprint_nodes width (v ∷ vs)))
      ≡ s ∷ map (node width) (v ∷ vs)
unfolding fprint_nodes
words-padded width [] v vs h = absurd h
words-padded width (x ∷ w) v vs h =
    let nodes = fprint_nodes width (v ∷ vs) in
    words-blanks (spaces 10) (pad_right 24 (x ∷ w) ++ nodes) (Each-spaces is_blank true 10 refl)
    ∙ words-name x w (node width v ++ fprint_nodes width vs) (24 - length (x ∷ w)) h.0
    ∙ ap (λ ws. (x ∷ w) ∷ ws) (words-nodes width (v ∷ vs))

pub Ends-line_body : (bits : ℕ) (c : IrNcode) → AllCodes (c.code ∷ c.next) → Ends (line_body bits c)
Ends-line_body bits c k =
    let nodes = fprint_nodes ((bits + 3) / 4) (c.code ∷ c.next) in
    Ends-append (spaces 10) (pad_right 24 c.name ++ nodes)
      (Ends-append (pad_right 24 c.name) nodes (Ends-nodes ((bits + 3) / 4) c.code c.next k))

-- A test that no character of the name satisfies, nor one of the others.
Each-line_body :
    (test : ℕ → Bool) (bits : ℕ) (c : IrNcode)
    → Each test false c.name
    → Spares test
    → test b' ' ≡ false
    → test b'0' ≡ false
    → test b'x' ≡ false
    → Each test false (line_body bits c)
Each-line_body test bits c h d s z x =
    let width = (bits + 3) / 4 in
    let nodes = Each-nodes test width (c.code ∷ c.next) d s z x in
    let padded =
      Each-append test false c.name (spaces (24 - length c.name)) h (Each-spaces test false _ s) in
    Each-append test false (spaces 10) (pad_right 24 c.name ++ fprint_nodes width (c.code ∷ c.next))
      (Each-spaces test false 10 s)
      (Each-append test false (pad_right 24 c.name) (fprint_nodes width (c.code ∷ c.next)) padded
        nodes)

name-zeros : (s : Name) → IsButtonName s → Each (λ x. x == 0) false s
name-zeros [] h = tt
name-zeros (x ∷ w) h = h.1

name-newlines : (s : Name) → IsButtonName s → Each (λ x. x == b'\n') false s
name-newlines [] h = tt
name-newlines (x ∷ w) h = h.2

pub no_zeros :
    (bits : ℕ) (c : IrNcode) → IsButtonName c.name → Each (λ x. x == 0) false (line_body bits c)
no_zeros bits c h =
    Each-line_body (λ x. x == 0) bits c (name-zeros c.name h) zero-digits refl refl refl

pub no_newlines :
    (bits : ℕ) (c : IrNcode) → IsButtonName c.name → Each (λ x. x == b'\n') false (line_body bits c)
no_newlines bits c h =
    Each-line_body (λ x. x == b'\n') bits c (name-newlines c.name h) newline-digits refl refl refl
