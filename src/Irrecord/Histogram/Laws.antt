-- ===== src/Irrecord/Histogram/Laws.antt =====
-- The histograms of lib/irrecord.c as a summary of the durations that they were made from.
use native.Mathlib.Nat.{mod-eq_of_lt}
use lirc.Base.{ℕ, zero, suc, ◌+◌, ◌≤◌, ◌<◌, ◌≡◌, refl, arith}
use lirc.Base.{List, [], ◌∷◌, ap, inl, inr, Bool-cases, length}
use lirc.Irrecord.{Lengths}
use lirc.Irrecord.Histogram.{add_length}
use lirc.Irrecord.Histogram.{
  are_near, merge_two, merge_inner, merge_outer, merge_lengths, add_and_merge,
}
use lirc.Irrecord.Histogram.{word32}
use lirc.Irrecord.Histogram.Items.{IsSummary, AllSummaries, no_item, one_item, total_count}
use lirc.Irrecord.Histogram.Items.{total_sum, merge_two-IsSummary, add_length-AllSummaries}
use lirc.Irrecord.Histogram.Items.{add_length-totals}

module _ (eps aeps : ℕ) where
  -- The inner loop of `merge_lengths` keeps the totals and the summaries.
  merge_inner-totals :
      (l : Lengths) (ls : List Lengths)
      → l.sum + total_sum ls < word32
      → let r = merge_inner eps aeps l ls in
        (r.0.count + total_count r.1 ≡ l.count + total_count ls)
        × (r.0.sum + total_sum r.1 ≡ l.sum + total_sum ls)
        × (length r.1 ≤ length ls)
  unfolding merge_inner merge_two
  merge_inner-totals l [] k = (refl, refl, omega arith)
  merge_inner-totals l (x ∷ xs) k = elim (Bool-cases (are_near eps aeps l x)) [
    | inl e ↦
        let whole = mod-eq_of_lt {n = l.sum + x.sum} {m = word32} (omega arith) in
        let rest = merge_inner-totals (merge_two l x) xs (rw whole (omega arith)) in
        simp (merge_inner, e)
          (omega (arith, rest.0), omega (arith, rest.1, whole), omega (arith, rest.2))
    | inr e ↦
        let rest = merge_inner-totals l xs (omega arith) in
        simp (merge_inner, e) (omega (arith, rest.0), omega (arith, rest.1), omega (arith, rest.2))
  ]

  merge_inner-AllSummaries :
      (l : Lengths) (ls : List Lengths)
      → l.sum + total_sum ls < word32
      → IsSummary l
      → AllSummaries ls
      → let r = merge_inner eps aeps l ls in IsSummary r.0 × AllSummaries r.1
  unfolding merge_inner merge_two
  merge_inner-AllSummaries l [] k h no_item = (h, no_item)
  merge_inner-AllSummaries l (x ∷ xs) k h (one_item j js) =
      elim (Bool-cases (are_near eps aeps l x)) [
        | inl e ↦
            let whole = mod-eq_of_lt {n = l.sum + x.sum} {m = word32} (omega arith) in
            simp (merge_inner, e)
              (merge_inner-AllSummaries (merge_two l x) xs (rw whole (omega arith))
                (merge_two-IsSummary l x (omega arith) h j) js)
        | inr e ↦
            let rest = merge_inner-AllSummaries l xs (omega arith) h js in
            simp (merge_inner, e) (rest.0, one_item j rest.1)
      ]

  merge_outer-totals :
      (fuel : ℕ) (ls : List Lengths)
      → total_sum ls < word32
      → (total_count (merge_outer eps aeps fuel ls) ≡ total_count ls)
        × (total_sum (merge_outer eps aeps fuel ls) ≡ total_sum ls)
  unfolding merge_outer
  merge_outer-totals zero ls k = (refl, refl)
  merge_outer-totals (suc fuel) [] k = (refl, refl)
  merge_outer-totals (suc fuel) (l ∷ ls) k =
      let first = merge_inner-totals l ls k in
      let rest = merge_outer-totals fuel (merge_inner eps aeps l ls).1 (omega (arith, first.1)) in
      (omega (arith, first.0, rest.0), omega (arith, first.1, rest.1))

  merge_outer-AllSummaries :
      (fuel : ℕ) (ls : List Lengths)
      → total_sum ls < word32
      → AllSummaries ls
      → AllSummaries (merge_outer eps aeps fuel ls)
  unfolding merge_outer
  merge_outer-AllSummaries zero ls k h = h
  merge_outer-AllSummaries (suc fuel) [] k h = no_item
  merge_outer-AllSummaries (suc fuel) (l ∷ ls) k (one_item h hs) =
      let first = merge_inner-AllSummaries l ls k h hs in
      let left = merge_inner-totals l ls k in
      one_item first.0 (
        merge_outer-AllSummaries fuel (merge_inner eps aeps l ls).1 (omega (arith, left.1)) first.1)

  -- With at least as many rounds as items the outer loop has come to the end of the list.
  merge_outer_any_fuel :
      (n m : ℕ) (ls : List Lengths)
      → total_sum ls < word32
      → length ls ≤ n
      → length ls ≤ m
      → merge_outer eps aeps n ls ≡ merge_outer eps aeps m ls
  unfolding merge_outer
  merge_outer_any_fuel zero zero ls k p q = refl
  merge_outer_any_fuel zero (suc m) [] k p q = refl
  merge_outer_any_fuel zero (suc m) (l ∷ ls) k p q = absurd (omega arith)
  merge_outer_any_fuel (suc n) zero [] k p q = refl
  merge_outer_any_fuel (suc n) zero (l ∷ ls) k p q = absurd (omega arith)
  merge_outer_any_fuel (suc n) (suc m) [] k p q = refl
  merge_outer_any_fuel (suc n) (suc m) (l ∷ ls) k p q =
      let first = merge_inner-totals l ls k in
      let r = merge_inner eps aeps l ls in
      ap (λ t. r.0 ∷ t)
        (merge_outer_any_fuel n m r.1 (omega (arith, first.1)) (omega (arith, first.2))
          (omega (arith, first.2)))

  -- `merge_lengths` does not run out of rounds: if the sum of all durations is below 2 ^ 32, it is
  -- the inner loop for the first item, then all of `merge_lengths` for the items that are left.
  pub merge_lengths-cons :
      (l : Lengths) (ls : List Lengths)
      → l.sum + total_sum ls < word32
      → let r = merge_inner eps aeps l ls in
        merge_lengths eps aeps (l ∷ ls) ≡ r.0 ∷ merge_lengths eps aeps r.1
  unfolding merge_lengths merge_outer
  merge_lengths-cons l ls k =
      let first = merge_inner-totals l ls k in
      let r = merge_inner eps aeps l ls in
      ap (λ t. r.0 ∷ t)
        (merge_outer_any_fuel (length ls) (length r.1) r.1 (omega (arith, first.1)) first.2
          (omega arith))

  -- One list after `add_length` and `merge_lengths` for each of a sequence of durations.
  abbrev pub record_all : List Lengths → List ℕ → List Lengths
  record_all ls [] = ls
  record_all ls (d ∷ ds) = record_all (add_and_merge eps aeps ls d) ds

  abbrev pub sum_of : List ℕ → ℕ
  sum_of [] = 0
  sum_of (d ∷ ds) = d + sum_of ds

  add_and_merge-totals :
      (ls : List Lengths) (d : ℕ)
      → total_sum ls + d < word32
      → (total_count (add_and_merge eps aeps ls d) ≡ total_count ls + 1)
        × (total_sum (add_and_merge eps aeps ls d) ≡ total_sum ls + d)
  unfolding add_and_merge merge_lengths
  add_and_merge-totals ls d k =
      let added = add_length-totals ls d in
      let merged =
        merge_outer-totals (length (add_length ls d)) (add_length ls d) (omega (arith, added.1)) in
      (omega (arith, added.0, merged.0), omega (arith, added.1, merged.1))

  pub add_and_merge-AllSummaries :
      (ls : List Lengths) (d : ℕ)
      → total_sum ls + d < word32
      → AllSummaries ls
      → AllSummaries (add_and_merge eps aeps ls d)
  unfolding add_and_merge merge_lengths
  add_and_merge-AllSummaries ls d k h =
      merge_outer-AllSummaries (length (add_length ls d)) (add_length ls d)
        (omega (arith, (add_length-totals ls d).1)) (add_length-AllSummaries ls d h)

  -- A histogram sums up what it was made from: after any sequence of durations with a sum below
  -- 2 ^ 32, each given to `add_length` and followed by `merge_lengths`, to a list of summaries, the
  -- counts and the sums of all items have grown by the number and by the sum of the durations, and
  -- every item is a summary: it is not empty, its bounds enclose its shortest and its longest
  -- duration, and its sum fits these.
  pub record_all-AllSummaries :
      (ls : List Lengths) (ds : List ℕ)
      → total_sum ls + sum_of ds < word32
      → AllSummaries ls
      → (total_count (record_all ls ds) ≡ total_count ls + length ds)
        × (total_sum (record_all ls ds) ≡ total_sum ls + sum_of ds)
        × AllSummaries (record_all ls ds)
  record_all-AllSummaries ls [] k h = (omega arith, omega arith, h)
  record_all-AllSummaries ls (d ∷ ds) k h =
      let one = add_and_merge-totals ls d (omega arith) in
      let rest =
        record_all-AllSummaries (add_and_merge eps aeps ls d) ds (omega (arith, one.1))
          (add_and_merge-AllSummaries ls d (omega arith) h) in
      (omega (arith, one.0, rest.0), omega (arith, one.1, rest.1), rest.2)
