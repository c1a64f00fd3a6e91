-- ===== src/Config/Sort/Laws.antt =====
-- The order of the remotes.
use mathlib.Core.List.{Perm, perm_middle, append-nil}
use mathlib.Core.List.Perm
use mathlib.Core.Path.{subst}
use lirc.Base.{
  ℕ, ◌≤◌, ◌≡◌, refl, arith, Bool, true, false, not, List, [], ◌∷◌, ◌++◌, ◌&&◌, if◌then◌else◌, some,
  none, ◌⊎◌, Bool-cases, inl, inr,
}
use lirc.Base.Int.{ℤ, pos, negsuc}
use lirc.Remote.{bit_count}
use lirc.Remote.Flags.{is_raw}
use lirc.Config.{Draft}
use lirc.Config.Sort.{
  code_count, compare_sizes, remote_bits_cmp, not_after, insert_remote, sort_loop, any_manual,
  sort_by_bit_count,
}

-- The first of two remotes decodes no slower: it is not raw while the other is, or both are of one
-- kind and it has no more codes or bits.
abbrev pub IsFaster : Bool → Bool → ℕ → ℕ → ℕ → ℕ → Type 0
IsFaster true true codes1 codes2 bits1 bits2 = codes1 ≤ codes2
IsFaster true false codes1 codes2 bits1 bits2 = ⊥
IsFaster false true codes1 codes2 bits1 bits2 = Unit {0}
IsFaster false false codes1 codes2 bits1 bits2 = bits1 ≤ bits2

abbrev pub Faster : Draft → Draft → Type 0
Faster a b =
    IsFaster (is_raw a.conf) (is_raw b.conf) (code_count a) (code_count b) (bit_count a.conf)
      (bit_count b.conf)

abbrev cmp : Bool → Bool → ℕ → ℕ → ℕ → ℕ → ℤ
cmp raw1 raw2 m n i j =
    if not raw1 && raw2
    then negsuc 0
    else if raw1 && not raw2
    then pos 1
    else if raw1 && raw2
    then compare_sizes m n
    else compare_sizes i j

sizes_le : (m n : ℕ) → not_after (compare_sizes m n) ≡ true → m ≤ n
sizes_le m n h = ground arith

sizes_ge : (m n : ℕ) → not_after (compare_sizes m n) ≡ false → n ≤ m
sizes_ge m n h = ground arith

cmp-IsFaster :
    (x y : Bool) (m n i j : ℕ) → not_after (cmp x y m n i j) ≡ true → IsFaster x y m n i j
cmp-IsFaster true true m n i j h = sizes_le m n h
cmp-IsFaster true false m n i j h = cc
cmp-IsFaster false true m n i j h = tt
cmp-IsFaster false false m n i j h = sizes_le i j h

cmp-slower : (x y : Bool) (m n i j : ℕ) → not_after (cmp x y m n i j) ≡ false → IsFaster y x n m j i
cmp-slower true true m n i j h = sizes_ge m n h
cmp-slower true false m n i j h = tt
cmp-slower false true m n i j h = cc
cmp-slower false false m n i j h = sizes_ge i j h

IsFaster-trans :
    (x y z : Bool) (m n o i j k : ℕ)
    → IsFaster x y m n i j
    → IsFaster y z n o j k
    → IsFaster x z m o i k
IsFaster-trans true true true m n o i j k p q = omega arith
IsFaster-trans true true false m n o i j k p q = q
IsFaster-trans true false z m n o i j k p q = absurd p
IsFaster-trans false y true m n o i j k p q = tt
IsFaster-trans false true false m n o i j k p q = absurd q
IsFaster-trans false false false m n o i j k p q = omega arith

Faster-trans : (a b c : Draft) → Faster a b → Faster b c → Faster a c
Faster-trans a b c p q =
    IsFaster-trans (is_raw a.conf) (is_raw b.conf) (is_raw c.conf) _ _ _ _ _ _ p q

remote_bits_cmp-Faster : (a b : Draft) → not_after (remote_bits_cmp a b) ≡ true → Faster a b
unfolding remote_bits_cmp
remote_bits_cmp-Faster a b h = cmp-IsFaster (is_raw a.conf) (is_raw b.conf) _ _ _ _ h

remote_bits_cmp-Slower : (a b : Draft) → not_after (remote_bits_cmp a b) ≡ false → Faster b a
unfolding remote_bits_cmp
remote_bits_cmp-Slower a b h = cmp-slower (is_raw a.conf) (is_raw b.conf) _ _ _ _ h

-- Each remote decodes no slower than those behind it.
abbrev pub AllFaster : Draft → List Draft → Type 0
AllFaster a [] = Unit {0}
AllFaster a (b ∷ bs) = Faster a b × AllFaster a bs

abbrev pub IsSorted : List Draft → Type 0
IsSorted [] = Unit {0}
IsSorted (a ∷ as_) = AllFaster a as_ × IsSorted as_

AllFaster-trans : (a b : Draft) (bs : List Draft) → Faster a b → AllFaster b bs → AllFaster a bs
AllFaster-trans a b [] p h = tt
AllFaster-trans a b (c ∷ cs) p h = (Faster-trans a b c p h.0, AllFaster-trans a b cs p h.1)

insert-AllFaster :
    (a d : Draft) (ds : List Draft) → Faster a d → AllFaster a ds → AllFaster a (insert_remote d ds)
unfolding insert_remote
insert-AllFaster a d [] p h = (p, tt)
insert-AllFaster a d (s ∷ ss) p h = elim (Bool-cases (not_after (remote_bits_cmp s d))) [
  | inl e ↦ rw (insert_remote, e) (h.0, insert-AllFaster a d ss p h.1)
  | inr e ↦ rw (insert_remote, e) (p, h)
]

insert-IsSorted : (d : Draft) (ds : List Draft) → IsSorted ds → IsSorted (insert_remote d ds)
unfolding insert_remote
insert-IsSorted d [] h = (tt, tt)
insert-IsSorted d (s ∷ ss) h = elim (Bool-cases (not_after (remote_bits_cmp s d))) [
  | inl e ↦
      rw (insert_remote, e)
        (insert-AllFaster s d ss (remote_bits_cmp-Faster s d e) h.0, insert-IsSorted d ss h.1)
  | inr e ↦
      let p : Faster d s = remote_bits_cmp-Slower s d e in
      rw (insert_remote, e) ((p, AllFaster-trans d s ss p h.0), h)
]

insert-Perm : (d : Draft) (ds : List Draft) → Perm (insert_remote d ds) (d ∷ ds)
unfolding insert_remote
insert-Perm d [] = Perm.refl (d ∷ [])
insert-Perm d (s ∷ ss) = elim (Bool-cases (not_after (remote_bits_cmp s d))) [
  | inl e ↦ rw (insert_remote, e) (Perm.trans (Perm.cons s (insert-Perm d ss)) (Perm.swap d s ss))
  | inr e ↦ rw (insert_remote, e) (Perm.refl (d ∷ s ∷ ss))
]

sort_loop-IsSorted : (ds top : List Draft) → IsSorted top → IsSorted (sort_loop top ds)
unfolding sort_loop
sort_loop-IsSorted [] top h = h
sort_loop-IsSorted (d ∷ ds) top h =
    sort_loop-IsSorted ds (insert_remote d top) (insert-IsSorted d top h)

sort_loop-Perm : (ds top : List Draft) → Perm (sort_loop top ds) (ds ++ top)
unfolding sort_loop
sort_loop-Perm [] top = Perm.refl top
sort_loop-Perm (d ∷ ds) top =
    Perm.trans (sort_loop-Perm ds (insert_remote d top))
      (Perm.trans (Perm.append_left ds (insert-Perm d top)) (perm_middle ds top))

-- Sorting keeps the remotes of a list, and orders them by the time that they take to decode unless
-- one of them has `manual_sort` set; then the list stays as it is. The list of a failed reading
-- becomes the empty list.
pub sort_by_bit_count_lem :
    (ds : List Draft)
    → Perm (sort_by_bit_count (some ds)) ds
      × (((any_manual ds ≡ true) × (sort_by_bit_count (some ds) ≡ ds))
          ⊎ ((any_manual ds ≡ false) × IsSorted (sort_by_bit_count (some ds))))
      × (sort_by_bit_count none ≡ [])
unfolding sort_by_bit_count
sort_by_bit_count_lem ds = elim (Bool-cases (any_manual ds)) [
  | inl e ↦ rw (e, if◌then◌else◌) (Perm.refl ds, inl (refl, refl), refl)
  | inr e ↦
      let same = subst (λ l. Perm (sort_loop [] ds) l) (append-nil ds) (sort_loop-Perm ds []) in
      rw (e, if◌then◌else◌) (same, inr (refl, sort_loop-IsSorted ds [] tt), refl)
]
