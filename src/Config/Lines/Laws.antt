-- ===== src/Config/Lines/Laws.antt =====
-- What `fgets` does with a text, and the test for long lines.
use lirc.Base.{ℕ, suc, ◌+◌, ◌-◌, ◌<◌, ◌≤◌, ◌≡◌, refl, ap, sym, ◌∙◌, arith, true, false, ◌||◌, ◌==◌}
use lirc.Base.{
  List, [], ◌∷◌, ◌++◌, length, length-append, if◌then◌else◌, get_or, take, ltb, Bool-cases, inl,
  inr,
}
use mathlib.Core.Bool.{and-false}
use mathlib.Core.List.{append_assoc, append-nil}
use lirc.Base.Text.{flush}
use lirc.Config.Lines.{line_len, chunks, fgets_all, is_too_long, c_string, strip_line}
use lirc.Base.Text.Words.{Each}

-- All lines in a row.
abbrev pub joined_lines : List (List ℕ) → List ℕ
joined_lines [] = []
joined_lines (l ∷ ls) = l ++ joined_lines ls

abbrev pub EachBelow : ℕ → List (List ℕ) → Type 0
EachBelow n [] = Unit {0}
EachBelow n (l ∷ ls) = (length l < n) × EachBelow n ls

joined-flush : (w : List ℕ) → joined_lines (flush w) ≡ w
joined-flush [] = refl
joined-flush (c ∷ w) = ap (λ t. c ∷ t) (append-nil w)

chunks-joined : (size left : ℕ) (w s : List ℕ) → joined_lines (chunks size left w s) ≡ w ++ s
unfolding chunks
chunks-joined size left w [] = joined-flush w ∙ sym (append-nil w)
chunks-joined size left w (c ∷ s) = elim (Bool-cases (c == b'\n' || left == 0)) [
  | inl e ↦ rw (chunks, e) (rw (chunks-joined size (size - 2) [] s) (append_assoc w (c ∷ []) s))
  | inr e ↦
      rw (chunks, e) (chunks-joined size (left - 1) (w ++ (c ∷ [])) s ∙ append_assoc w (c ∷ []) s)
]

chunks-EachBelow :
    (size left : ℕ) (w s : List ℕ)
    → 2 ≤ size
    → length w + left + 1 < size
    → EachBelow size (chunks size left w s)
unfolding chunks
chunks-EachBelow size left [] [] h k = tt
chunks-EachBelow size left (x ∷ w) [] h k = (omega arith, tt)
chunks-EachBelow size left w (c ∷ s) h k = elim (Bool-cases (c == b'\n' || left == 0)) [
  | inl e ↦
      rw (chunks, e)
        (
          omega (arith, length-append w (c ∷ [])),
          chunks-EachBelow size (size - 2) [] s h (omega arith),
        )
  | inr e ↦
      rw (chunks, e)
        (chunks-EachBelow size (left - 1) (w ++ (c ∷ [])) s h
          (ground (arith, length-append w (c ∷ []))))
]

not-is_too_long : (l : List ℕ) → length l < line_len → is_too_long l ≡ false
unfolding is_too_long
not-is_too_long l h = ground arith

-- No line is ever reported as too long.
abbrev pub NoneTooLong : List (List ℕ) → Type 0
NoneTooLong [] = Unit {0}
NoneTooLong (l ∷ ls) = (is_too_long l ≡ false) × NoneTooLong ls

below-NoneTooLong : (ls : List (List ℕ)) → EachBelow line_len ls → NoneTooLong ls
below-NoneTooLong [] h = tt
below-NoneTooLong (l ∷ ls) h = (not-is_too_long l h.0, below-NoneTooLong ls h.1)

-- The lines that `fgets` returns are the text, cut into pieces that fit the buffer; but the buffer is
-- then never full as the test for long lines expects it, and no line is ever reported as too long.
pub fgets_all_lem :
    (text : List ℕ)
    → (joined_lines (fgets_all line_len text) ≡ text)
      × EachBelow line_len (fgets_all line_len text)
      × NoneTooLong (fgets_all line_len text)
unfolding fgets_all
fgets_all_lem text =
    let short : EachBelow line_len (fgets_all line_len text) =
      chunks-EachBelow line_len 4094 [] text (omega arith) (omega arith) in
    (chunks-joined line_len 4094 [] text, short, below-NoneTooLong _ short)

-- A line that fits is returned with its newline.
chunks-line :
    (size left : ℕ) (w s t : List ℕ)
    → Each (λ c. c == b'\n') false s
    → length s ≤ left
    → chunks size left w (s ++ (b'\n' ∷ t))
      ≡ (w ++ (s ++ (b'\n' ∷ []))) ∷ chunks size (size - 2) [] t
unfolding chunks
chunks-line size left w [] t h k = refl
chunks-line size left w (c ∷ s) t h k =
    let room : (left == 0) ≡ false = ground arith in
    rw (chunks, h.0, room)
      (chunks-line size (left - 1) (w ++ (c ∷ [])) s t h.1 (omega arith)
        ∙ ap (λ u. u ∷ chunks size (size - 2) [] t) (append_assoc w (c ∷ []) (s ++ (b'\n' ∷ []))))

pub fgets_all-line :
    (s t : List ℕ)
    → Each (λ c. c == b'\n') false s
    → length s + 2 ≤ line_len
    → fgets_all line_len (s ++ (b'\n' ∷ t)) ≡ (s ++ (b'\n' ∷ [])) ∷ fgets_all line_len t
unfolding fgets_all
fgets_all-line s t h k = chunks-line line_len (line_len - 2) [] s t h (omega arith)

pub c_string-text : (s : List ℕ) → Each (λ c. c == 0) false s → c_string s ≡ s
unfolding c_string
c_string-text [] h = refl
c_string-text (c ∷ s) h = rw (c_string, h.0) (ap (λ t. c ∷ t) (c_string-text s h.1))

get_or-append : (s t : List ℕ) (i : ℕ) → get_or (s ++ t) (length s + i) 0 ≡ get_or t i 0
get_or-append [] t i = let e : 0 + i ≡ i = omega arith in ap (λ j. get_or t j 0) e
get_or-append (c ∷ s) t i =
    let e : length (c ∷ s) + i ≡ suc (length s + i) = omega arith in
    ap (λ j. get_or (c ∷ (s ++ t)) j 0) e ∙ get_or-append s t i

take-append : (s t : List ℕ) → take (length s) (s ++ t) ≡ s
take-append [] t = refl
take-append (c ∷ s) t = ap (λ u. c ∷ u) (take-append s t)

get_or-at : (s t : List ℕ) (i j : ℕ) → j ≡ length s + i → get_or (s ++ t) j 0 ≡ get_or t i 0
get_or-at s t i j e = ap (λ k. get_or (s ++ t) k 0) e ∙ get_or-append s t i

-- The newline is cut, and is what tells that the line is whole.
pub strip_line-line :
    (s : List ℕ) (c : ℕ)
    → (c == b'\r') ≡ false
    → let line = s ++ (c ∷ b'\n' ∷ []) in
      (strip_line line ≡ s ++ (c ∷ [])) × (is_too_long line ≡ false)
unfolding strip_line is_too_long
strip_line-line s c h =
    let line = s ++ (c ∷ b'\n' ∷ []) in
    let len : length line ≡ length s + 2 = omega (arith, length-append s (c ∷ b'\n' ∷ [])) in
    let before : get_or line (length line - 2) 0 ≡ c =
      get_or-at s (c ∷ b'\n' ∷ []) 0 _ (omega (arith, len)) in
    let last : get_or line (length line - 1) 0 ≡ b'\n' =
      get_or-at s (c ∷ b'\n' ∷ []) 1 _ (omega (arith, len)) in
    let one : ltb 0 (length line) ≡ true = ground (arith, len) in
    let two : ltb 1 (length line) ≡ true = ground (arith, len) in
    let cut : length line - 1 ≡ length (s ++ (c ∷ [])) =
      omega (arith, len, length-append s (c ∷ [])) in
    let whole : s ++ (c ∷ b'\n' ∷ []) ≡ (s ++ (c ∷ [])) ++ (b'\n' ∷ []) =
      sym (append_assoc s (c ∷ []) (b'\n' ∷ [])) in
    (
      rw (two, before, h, one, last, if◌then◌else◌, cut)
          (ap (take (length (s ++ (c ∷ [])))) whole ∙ take-append (s ++ (c ∷ [])) (b'\n' ∷ [])),
      rw (last, and-false (length line == line_len)) refl,
    )
