-- ===== src/Irrecord/Histogram/Items.antt =====
-- One item of a histogram of lib/irrecord.c as a summary of its durations, and `add_length`.
use native.Mathlib.Nat.{mod-eq_of_lt}
use lirc.Base.{ℕ, ◌+◌, ◌*◌, ◌/◌, ◌≤◌, ◌<◌, min, max, ◌≡◌, refl, arith}
use lirc.Base.{◌==◌, List, [], ◌∷◌, true, false, inl, inr, Bool-cases}
use lirc.Irrecord.{Lengths}
use lirc.Irrecord.Histogram.{calc_signal, new_length, in_bounds, count_in, add_length}
use lirc.Irrecord.Histogram.{merge_two}
use lirc.Irrecord.Histogram.{word32}

-- What an item says of its durations: at least one, all between `min` and `max`, these within the
-- bounds, and the sum between that of as many shortest and of as many longest ones.
pub record IsSummary (l : Lengths) : Type 0 where
  pub some_count : 0 < l.count
  pub low_bound : l.lower_bound ≤ l.min
  pub high_bound : l.max ≤ l.upper_bound
  pub low_sum : l.count * l.min ≤ l.sum
  pub high_sum : l.sum ≤ l.count * l.max

pub data AllSummaries : List Lengths → Type 0 where
  no_item : AllSummaries []
  one_item :
      {l : Lengths} → {ls : List Lengths} → IsSummary l → AllSummaries ls → AllSummaries (l ∷ ls)

abbrev pub total_count : List Lengths → ℕ
total_count [] = 0
total_count (l ∷ ls) = l.count + total_count ls

abbrev pub total_sum : List Lengths → ℕ
total_sum [] = 0
total_sum (l ∷ ls) = l.sum + total_sum ls

new_length-IsSummary : (d : ℕ) → IsSummary (new_length d)
unfolding new_length
new_length-IsSummary d = record {
  some_count = omega arith;
  low_bound = omega arith;
  high_bound = omega arith;
  low_sum = omega arith;
  high_sum = omega arith;
}

module _ (c m d s : ℕ) where
  one_more_above : c * m ≤ s → (c + 1) * min m d ≤ s + d
  one_more_above h = grind arith

  one_more_below : s ≤ c * m → s + d ≤ (c + 1) * max m d
  one_more_below h = grind arith

module _ (c k m n s t : ℕ) where
  both_above : c * m ≤ s → k * n ≤ t → (c + k) * min m n ≤ s + t
  both_above h j = grind arith

  both_below : s ≤ c * m → t ≤ k * n → s + t ≤ (c + k) * max m n
  both_below h j = grind arith

count_in-IsSummary :
    (l : Lengths) (d : ℕ) → in_bounds l d ≡ true → IsSummary l → IsSummary (count_in l d)
unfolding in_bounds count_in
count_in-IsSummary l d e h = record {
  some_count = omega arith;
  low_bound = ground (arith, h.low_bound);
  high_bound = ground (arith, h.high_bound);
  low_sum = one_more_above l.count l.min d l.sum h.low_sum;
  high_sum = one_more_below l.count l.max d l.sum h.high_sum;
}

pub merge_two-IsSummary :
    (l x : Lengths) → l.sum + x.sum < word32 → IsSummary l → IsSummary x → IsSummary (merge_two l x)
unfolding merge_two
merge_two-IsSummary l x k h j =
    let whole = mod-eq_of_lt {n = l.sum + x.sum} {m = word32} k in
    record {
      some_count = omega (arith, h.some_count);
      low_bound = omega (arith, h.low_bound, j.low_bound);
      high_bound = omega (arith, h.high_bound, j.high_bound);
      low_sum = rw whole (both_above l.count x.count l.min x.min l.sum x.sum h.low_sum j.low_sum);
      high_sum =
          rw whole (both_below l.count x.count l.max x.max l.sum x.sum h.high_sum j.high_sum);
    }

pub add_length-AllSummaries :
    (ls : List Lengths) (d : ℕ) → AllSummaries ls → AllSummaries (add_length ls d)
unfolding add_length
add_length-AllSummaries [] d h = one_item (new_length-IsSummary d) no_item
add_length-AllSummaries (l ∷ ls) d (one_item h k) = elim (Bool-cases (in_bounds l d)) [
  | inl e ↦ rw (add_length, e) (one_item (count_in-IsSummary l d e h) k)
  | inr e ↦ rw (add_length, e) (one_item h (add_length-AllSummaries ls d k))
]

pub add_length-totals :
    (ls : List Lengths) (d : ℕ)
    → (total_count (add_length ls d) ≡ total_count ls + 1)
      × (total_sum (add_length ls d) ≡ total_sum ls + d)
unfolding add_length new_length count_in
add_length-totals [] d = (refl, omega arith)
add_length-totals (l ∷ ls) d =
    let rest = add_length-totals ls d in
    elim (Bool-cases (in_bounds l d)) [
      | inl e ↦ rw (add_length, e) (omega arith, omega arith)
      | inr e ↦ rw (add_length, e) (omega (arith, rest.0), omega (arith, rest.1))
    ]

module _ (c m s : ℕ) where
  average_above : 0 < c → c * m ≤ s → m ≤ s / c
  average_above p h = grind arith

  average_below : 0 < c → s ≤ c * m → s / c ≤ m
  average_below p h = grind arith

-- `calc_signal` of a summary lies between its shortest and its longest duration.
pub calc_signal-within :
    (l : Lengths) → IsSummary l → (l.min ≤ calc_signal l) × (calc_signal l ≤ l.max)
unfolding calc_signal
calc_signal-within l h =
    let positive : (l.count == 0) ≡ false = ground (arith, h.some_count) in
    rw positive (
      average_above l.count l.min l.sum h.some_count h.low_sum,
      average_below l.count l.max l.sum h.some_count h.high_sum,
    )
