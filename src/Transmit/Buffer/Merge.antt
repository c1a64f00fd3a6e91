-- ===== src/Transmit/Buffer/Merge.antt =====
-- `merge` at the end of a signal: the last item grows, or a new one follows it.
use lirc.Base.{ℕ, ◌<◌, ◌+◌, ◌%◌, ◌≤◌, ◌≡◌, List, [], ◌∷◌, ◌++◌, arith, refl, ap, length}
use lirc.Transmit.Buffer.{Event, pulse, space, duration, merge, merge_all, trimmed}

-- An item at an even position is a pulse, one at an odd position a space.
pub merge-pulse_pulse :
    (xs : List ℕ) (p d : ℕ)
    → length xs % 2 ≡ 0
    → merge (xs ++ (p ∷ [])) (pulse d) ≡ xs ++ ((p + d) ∷ [])
unfolding merge
merge-pulse_pulse [] p d h = refl
merge-pulse_pulse (x ∷ []) p d h = absurd (omega arith)
merge-pulse_pulse (x ∷ y ∷ []) p d h = refl
merge-pulse_pulse (x ∷ y ∷ z ∷ r) p d h =
    ap (λ t. x ∷ y ∷ t) (merge-pulse_pulse (z ∷ r) p d (omega arith))

pub merge-pulse_space :
    (xs : List ℕ) (p d : ℕ)
    → length xs % 2 ≡ 0
    → merge (xs ++ (p ∷ [])) (space d) ≡ xs ++ (p ∷ d ∷ [])
unfolding merge
merge-pulse_space [] p d h = refl
merge-pulse_space (x ∷ []) p d h = absurd (omega arith)
merge-pulse_space (x ∷ y ∷ []) p d h = refl
merge-pulse_space (x ∷ y ∷ z ∷ r) p d h =
    ap (λ t. x ∷ y ∷ t) (merge-pulse_space (z ∷ r) p d (omega arith))

pub merge-space_space :
    (xs : List ℕ) (s d : ℕ)
    → length xs % 2 ≡ 1
    → merge (xs ++ (s ∷ [])) (space d) ≡ xs ++ ((s + d) ∷ [])
unfolding merge
merge-space_space [] s d h = absurd (omega arith)
merge-space_space (x ∷ []) s d h = refl
merge-space_space (x ∷ y ∷ []) s d h = absurd (omega arith)
merge-space_space (x ∷ y ∷ z ∷ r) s d h =
    ap (λ t. x ∷ y ∷ t) (merge-space_space (z ∷ r) s d (omega arith))

pub merge-space_pulse :
    (xs : List ℕ) (s d : ℕ)
    → length xs % 2 ≡ 1
    → merge (xs ++ (s ∷ [])) (pulse d) ≡ xs ++ (s ∷ d ∷ [])
unfolding merge
merge-space_pulse [] s d h = absurd (omega arith)
merge-space_pulse (x ∷ []) s d h = refl
merge-space_pulse (x ∷ y ∷ []) s d h = absurd (omega arith)
merge-space_pulse (x ∷ y ∷ z ∷ r) s d h =
    ap (λ t. x ∷ y ∷ t) (merge-space_pulse (z ∷ r) s d (omega arith))

pub length-merge : (xs : List ℕ) (e : Event) → length xs ≤ length (merge xs e)
unfolding merge
length-merge [] e = omega arith
length-merge (x ∷ []) (pulse d) = omega arith
length-merge (x ∷ []) (space d) = omega arith
length-merge (x ∷ y ∷ []) (pulse d) = omega arith
length-merge (x ∷ y ∷ []) (space d) = omega arith
length-merge (x ∷ y ∷ z ∷ r) e = omega (arith, length-merge (z ∷ r) e)

-- Every item of a signal is positive.
abbrev pub AllAbove : List ℕ → Type 0
AllAbove [] = Unit
AllAbove (x ∷ xs) = (0 < x) × AllAbove xs

merge-AllAbove : (xs : List ℕ) (e : Event) → AllAbove xs → 0 < duration e → AllAbove (merge xs e)
unfolding merge
merge-AllAbove [] (pulse d) p h = omega arith
merge-AllAbove [] (space d) p h = tt
merge-AllAbove (x ∷ []) (pulse d) p h = omega arith
merge-AllAbove (x ∷ []) (space d) p h = omega arith
merge-AllAbove (x ∷ y ∷ []) (pulse d) p h = omega arith
merge-AllAbove (x ∷ y ∷ []) (space d) p h = omega arith
merge-AllAbove (x ∷ y ∷ z ∷ r) e p h = (p.0, (p.1.0, merge-AllAbove (z ∷ r) e p.1.1 h))

-- Every duration is positive.
abbrev pub AllPositive : List Event → Type 0
AllPositive [] = Unit
AllPositive (e ∷ es) = (0 < duration e) × AllPositive es

pub merge_all-AllAbove :
    (es : List Event) (xs : List ℕ) → AllAbove xs → AllPositive es → AllAbove (merge_all xs es)
unfolding merge_all
merge_all-AllAbove [] xs p q = p
merge_all-AllAbove (e ∷ es) xs p q =
    merge_all-AllAbove es (merge xs e) (merge-AllAbove xs e p q.0) q.1

pub trimmed-AllAbove : (xs : List ℕ) → AllAbove xs → AllAbove (trimmed xs)
unfolding trimmed
trimmed-AllAbove [] p = tt
trimmed-AllAbove (x ∷ []) p = p
trimmed-AllAbove (x ∷ y ∷ []) p = (p.0, tt)
trimmed-AllAbove (x ∷ y ∷ z ∷ r) p = (p.0, (p.1.0, trimmed-AllAbove (z ∷ r) p.1.1))
