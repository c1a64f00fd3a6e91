-- ===== src/Base/Text/Words.antt =====
-- What `words` finds in a line that is laid out with blanks.
use Prim.Native.Nat.{ℕ}
use mathlib.Core.Bool.{Bool, true, false}
use mathlib.Core.List.{List, [], ◌∷◌, ◌++◌, append_assoc, append-nil}
use mathlib.Core.Path.{◌≡◌, refl, sym, ap, ◌∙◌}
use lirc.Base.Text.{is_blank, words_from, words}

-- A test gives the same on every character.
abbrev pub Each : (ℕ → Bool) → Bool → List ℕ → Type 0
Each test b [] = Unit {0}
Each test b (c ∷ s) = (test c ≡ b) × Each test b s

pub Each-append :
    (test : ℕ → Bool) (b : Bool) (s t : List ℕ)
    → Each test b s
    → Each test b t
    → Each test b (s ++ t)
Each-append test b [] t h k = k
Each-append test b (c ∷ s) t h k = (h.0, Each-append test b s t h.1 k)

-- Characters that are not blank go on with the word.
words_from-append :
    (w s t : List ℕ) → Each is_blank false s → words_from w (s ++ t) ≡ words_from (w ++ s) t
unfolding words_from
words_from-append w [] t h = ap (λ v. words_from v t) (sym (append-nil w))
words_from-append w (c ∷ s) t h =
    rw (words_from, h.0)
      (words_from-append (w ++ (c ∷ [])) s t h.1
        ∙ ap (λ v. words_from v t) (append_assoc w (c ∷ []) s))

-- Each is_blanks before a word are dropped.
pub words-blanks : (s t : List ℕ) → Each is_blank true s → words (s ++ t) ≡ words t
unfolding words words_from
words-blanks [] t h = refl
words-blanks (c ∷ s) t h = rw (words_from, h.0) (words-blanks s t h.1)

-- A word and a blank after it.
pub words-word :
    (c : ℕ) (w : List ℕ) (b : ℕ) (t : List ℕ)
    → Each is_blank false (c ∷ w)
    → is_blank b ≡ true
    → words (c ∷ w ++ (b ∷ t)) ≡ (c ∷ w) ∷ words t
unfolding words words_from
words-word c w b t h k = words_from-append [] (c ∷ w) (b ∷ t) h ∙ rw (words_from, k) refl

-- A word at the end.
pub words-last : (c : ℕ) (w : List ℕ) → Each is_blank false (c ∷ w) → words (c ∷ w) ≡ (c ∷ w) ∷ []
unfolding words words_from
words-last c w h = ap words (sym (append-nil (c ∷ w))) ∙ words_from-append [] (c ∷ w) [] h
