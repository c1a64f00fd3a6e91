-- ===== src/Irrecord/Capture/Filled.antt =====
-- Which histograms of lib/irrecord.c hold an item, and the analysis that relies on it.
use mathlib.Core.Option.{some-injective}
use lirc.Base.{ℕ, zero, suc, ◌<◌, ◌≡◌, refl, arith, sym}
use lirc.Base.{List, [], ◌∷◌, some, Bool, true, false, ◌==◌, length}
use lirc.Base.{Bool-cases, inl, inr, if◌then◌else◌}
use lirc.Irrecord.{Lengths}
use lirc.Irrecord.Histogram.{MaxLength, get_max_length, unlink_length, add_length, merge_outer}
use lirc.Irrecord.Histogram.{merge_lengths, add_and_merge, in_bounds}
use lirc.Irrecord.Histogram.Most.{get_max_length-AllAtMost}
use lirc.Irrecord.Analyse.{Run, settled, endless, Analysed, with_max, dominates, leads_left}

-- The run does not follow a null pointer, and what it returns has a property.
pub data Safe {A : Type 0} (Q : A → Type 0) : Run A → Type 0 where
  safe_settled : {a : A} → Q a → Safe Q (settled a)
  safe_endless : Safe Q endless

abbrev pub Filled : List Lengths → Type 0
Filled ls = 0 < length ls

pub if-Safe :
    {A : Type 0} (Q : A → Type 0) (b : Bool) (x y : Run A)
    → (b ≡ true → Safe Q x)
    → (b ≡ false → Safe Q y)
    → Safe Q (if b then x else y)
if-Safe Q true x y f g = f refl
if-Safe Q false x y f g = g refl

pub get_max_length-Filled :
    (ls : List Lengths) (m : MaxLength) → get_max_length ls ≡ some m → Filled ls
unfolding get_max_length
get_max_length-Filled [] m e = absurd cc
get_max_length-Filled (l ∷ ls) m e = omega arith

pub with_max-Safe :
    (Q : Analysed → Type 0) (ls : List Lengths) (k : MaxLength → Run Analysed)
    → Filled ls
    → ((m : MaxLength) → get_max_length ls ≡ some m → Safe Q (k m))
    → Safe Q (with_max ls k)
unfolding with_max
with_max-Safe Q [] k h f = absurd (omega arith)
with_max-Safe Q (l ∷ ls) k h f =
    let m = get_max_length-AllAtMost l ls in rw (with_max, m.1) (f m.0 m.1)

add_length-Filled : (ls : List Lengths) (d : ℕ) → Filled (add_length ls d)
unfolding add_length
add_length-Filled [] d = omega arith
add_length-Filled (l ∷ ls) d = elim (Bool-cases (in_bounds l d)) [
  | inl e ↦ rw (add_length, e) (omega arith)
  | inr e ↦ rw (add_length, e) (omega arith)
]

merge_lengths-Filled :
    (eps aeps : ℕ) (ls : List Lengths) → Filled ls → Filled (merge_lengths eps aeps ls)
unfolding merge_lengths merge_outer
merge_lengths-Filled eps aeps [] h = h
merge_lengths-Filled eps aeps (l ∷ ls) h = omega arith

pub add_and_merge-Filled :
    (eps aeps : ℕ) (ls : List Lengths) (d : ℕ) → Filled (add_and_merge eps aeps ls d)
unfolding add_and_merge
add_and_merge-Filled eps aeps ls d =
    merge_lengths-Filled eps aeps (add_length ls d) (add_length-Filled ls d)

dominates_alone :
    (a : Lengths) → dominates (record { position = 0; item = a; total = a.count }) 90 ≡ true
unfolding dominates
dominates_alone a = ground arith

unlink_two : (a b : Lengths) (ls : List Lengths) (p : ℕ) → Filled (unlink_length (a ∷ b ∷ ls) p)
unfolding unlink_length
unlink_two a b ls zero = omega arith
unlink_two a b ls (suc p) = omega arith

-- An item that does not hold nine tenths of a histogram is not its only one.
pub unlink_length-Filled :
    (ls : List Lengths) (m : MaxLength)
    → get_max_length ls ≡ some m
    → dominates m 90 ≡ false
    → Filled (unlink_length ls m.position)
unfolding get_max_length
unlink_length-Filled [] m e d = absurd cc
unlink_length-Filled (a ∷ []) m e d =
    let alone : MaxLength = record { position = 0; item = a; total = a.count } in
    let is_m : m ≡ alone = sym (some-injective alone m e) in
    let does : dominates m 90 ≡ true = rw is_m (dominates_alone a) in absurd cc
unlink_length-Filled (a ∷ b ∷ ls) m e d = unlink_two a b ls m.position

keep_head :
    (ls : List Lengths) (p : ℕ) → Filled ls → Filled (if p == 0 then ls else unlink_length ls p)
unfolding unlink_length
keep_head [] p h = absurd (omega arith)
keep_head (l ∷ ls) zero h = h
keep_head (l ∷ ls) (suc p) h = rw (suc_not_zero p) (omega arith)
  where
    suc_not_zero : (n : ℕ) → (suc n == 0) ≡ false
    suc_not_zero n = ground arith

-- Unlinking an item that is not the head leaves the head.
pub leads_left-Filled : (ls : List Lengths) (m : MaxLength) → Filled ls → Filled (leads_left ls m)
unfolding leads_left
leads_left-Filled ls m h = keep_head ls m.position h
