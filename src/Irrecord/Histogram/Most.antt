-- ===== src/Irrecord/Histogram/Most.antt =====
-- What `get_max_length` of lib/irrecord.c finds, and the list with the item found at its front.
use mathlib.Core.List.{Perm}
use mathlib.Core.List.Perm
use mathlib.Core.Option.{some-injective}
use lirc.Base.{ℕ, zero, suc, ◌+◌, ◌≤◌, ◌<◌, ◌≡◌, refl, arith, List, [], ◌∷◌, some}
use lirc.Base.{get_elem?, ◌⊎◌, inl, inr, Bool-cases, ltb, ap, sym, ◌∙◌}
use lirc.Irrecord.{Lengths}
use lirc.Irrecord.Histogram.{MaxLength, get_max_length, get_max_length_loop, scan_one}
use lirc.Irrecord.Histogram.{unlink_length}
use lirc.Irrecord.Histogram.Items.{total_count}

pub data AllAtMost (n : ℕ) : List Lengths → Type 0 where
  none_left : AllAtMost n []
  one_more :
      {l : Lengths} → {ls : List Lengths} → l.count ≤ n → AllAtMost n ls → AllAtMost n (l ∷ ls)

-- A round keeps what is best, or takes the item at its position.
abbrev KeepsBest : ℕ → Lengths → MaxLength → MaxLength → Type 0
KeepsBest i scan m r =
    ((r.position ≡ m.position) × (r.item ≡ m.item) × (scan.count ≤ m.item.count))
    ⊎ ((r.position ≡ i) × (r.item ≡ scan) × (m.item.count < scan.count))

scan_one-total :
    (i : ℕ) (scan : Lengths) (m : MaxLength) → (scan_one i scan m).total ≡ m.total + scan.count
unfolding scan_one
scan_one-total i scan m = ground arith

scan_one-KeepsBest :
    (i : ℕ) (scan : Lengths) (m : MaxLength) → KeepsBest i scan m (scan_one i scan m)
unfolding scan_one
scan_one-KeepsBest i scan m = elim (Bool-cases (ltb m.item.count scan.count)) [
  | inl e ↦ inr (simp e refl, simp e refl, ground arith)
  | inr e ↦ inl (simp e refl, simp e refl, ground arith)
]

-- The item at a position of what is left to scan, or the one that was best before.
abbrev FoundFrom : List Lengths → ℕ → MaxLength → MaxLength → Type 0
FoundFrom rest i m r =
    ((r.position ≡ m.position) × (r.item ≡ m.item))
    ⊎ ((j : ℕ) × (r.position ≡ i + j) × (get_elem? rest j ≡ some r.item))

get_max_length_loop-total :
    (rest : List Lengths) (i : ℕ) (m : MaxLength)
    → (get_max_length_loop rest i m).total ≡ m.total + total_count rest
unfolding get_max_length_loop
get_max_length_loop-total [] i m = omega arith
get_max_length_loop-total (scan ∷ rest) i m =
    omega
      (arith, get_max_length_loop-total rest (i + 1) (scan_one i scan m), scan_one-total i scan m)

get_max_length_loop-AllAtMost :
    (rest : List Lengths) (i : ℕ) (m : MaxLength)
    → let r = get_max_length_loop rest i m in
      (m.item.count ≤ r.item.count) × AllAtMost r.item.count rest
unfolding get_max_length_loop
get_max_length_loop-AllAtMost [] i m = (omega arith, none_left)
get_max_length_loop-AllAtMost (scan ∷ rest) i m =
    let r = get_max_length_loop-AllAtMost rest (i + 1) (scan_one i scan m) in
    elim (scan_one-KeepsBest i scan m) [
      | inl k ↦
          let c = ap (λ (x : Lengths). x.count) k.1 in
          (omega (arith, r.0, c), one_more (omega (arith, r.0, c, k.2)) r.1)
      | inr k ↦
          let c = ap (λ (x : Lengths). x.count) k.1 in
          (omega (arith, r.0, c, k.2), one_more (omega (arith, r.0, c)) r.1)
    ]

get_max_length_loop-FoundFrom :
    (rest : List Lengths) (i : ℕ) (m : MaxLength)
    → FoundFrom rest i m (get_max_length_loop rest i m)
unfolding get_max_length_loop
get_max_length_loop-FoundFrom [] i m = inl (refl, refl)
get_max_length_loop-FoundFrom (scan ∷ rest) i m =
    elim (get_max_length_loop-FoundFrom rest (i + 1) (scan_one i scan m)) [
      | inr found ↦ inr (suc found.0, omega (arith, found.1), found.2)
      | inl same ↦ elim (scan_one-KeepsBest i scan m) [
        | inl k ↦ inl (same.0 ∙ k.0, same.1 ∙ k.1)
        | inr k ↦ inr (0, omega (arith, same.0, k.0), ap some (sym (same.1 ∙ k.1)))
      ]
    ]

-- Taking out the item at a position and putting it at the front, as `get_scheme` does, only changes
-- the order.
unlink_length-Perm :
    (ls : List Lengths) (i : ℕ) (x : Lengths)
    → get_elem? ls i ≡ some x
    → Perm (x ∷ unlink_length ls i) ls
unfolding unlink_length
unlink_length-Perm [] i x e = absurd cc
unlink_length-Perm (l ∷ ls) zero x e =
    let head : x ≡ l = sym (some-injective l x e) in rw head (Perm.refl _)
unlink_length-Perm (l ∷ ls) (suc i) x e =
    Perm.trans (Perm.swap l x (unlink_length ls i)) (Perm.cons l (unlink_length-Perm ls i x e))

-- `get_max_length` of a list that is not empty returns one of its items, with the position where it
-- stands, no item has a higher count, and the sum that it writes is that of all counts. Unlinking
-- that item and putting it at the front only changes the order of the list.
pub get_max_length-AllAtMost :
    (first : Lengths) (rest : List Lengths)
    → (m : MaxLength) × (get_max_length (first ∷ rest) ≡ some m)
      × (get_elem? (first ∷ rest) m.position ≡ some m.item)
      × AllAtMost m.item.count (first ∷ rest)
      × (m.total ≡ total_count (first ∷ rest))
      × Perm (m.item ∷ unlink_length (first ∷ rest) m.position) (first ∷ rest)
unfolding get_max_length
get_max_length-AllAtMost first rest =
    let start : MaxLength = record { position = 0; item = first; total = first.count } in
    let most = get_max_length_loop-AllAtMost rest 1 start in
    let m : MaxLength = get_max_length_loop rest 1 start in
    let there : get_elem? (first ∷ rest) m.position ≡ some m.item =
      elim (get_max_length_loop-FoundFrom rest 1 start) [
        | inl same ↦ rw same.0 (ap some (sym same.1))
        | inr found ↦
            let place : (get_max_length_loop rest 1 start).position ≡ suc found.0 =
              omega (arith, found.1) in
            rw place found.2
      ] in
    (
      m,
      refl,
      there,
      one_more most.0 most.1,
      get_max_length_loop-total rest 1 start,
      unlink_length-Perm (first ∷ rest) m.position m.item there,
    )
