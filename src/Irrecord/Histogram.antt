-- ===== src/Irrecord/Histogram.antt =====
-- The histograms of lib/irrecord.c: `new_length`, `add_length`, `merge_lengths`, `get_max_length`,
-- `unlink_length` and `calc_signal`. A list of `struct lengths` is a list, a pointer into it a
-- position; memory is taken to suffice. The sums of durations are taken to stay within an `int`.
pub mod Items
pub mod Laws
pub mod Most
use lirc.Base.{ℕ, zero, suc, ◌+◌, ◌-◌, ◌*◌, ◌/◌, ◌%◌, ◌^◌, min, max, List, [], ◌∷◌, Option}
use lirc.Base.{none, some, Bool, true, false, ◌&&◌, ◌||◌, ltb, leb, ◌==◌, if◌then◌else◌, length}
use lirc.Irrecord.{Lengths}

unfoldable pub calc_signal : Lengths → ℕ
calc_signal l = if l.count == 0 then 0 else l.sum / l.count

unfoldable pub new_length : ℕ → Lengths
new_length d = record {
  count = 1;
  sum = d;
  upper_bound = d / 100 * 100 + 99;
  lower_bound = d / 100 * 100;
  min = d;
  max = d;
}

-- The interval of an item holds a duration.
unfoldable pub in_bounds : Lengths → ℕ → Bool
in_bounds l d = leb l.lower_bound d && leb d l.upper_bound

-- An item with one more duration.
unfoldable pub count_in : Lengths → ℕ → Lengths
count_in l d = record l {
  count = l.count + 1;
  sum = l.sum + d;
  min = min l.min d;
  max = max l.max d;
}

unfoldable pub add_length : List Lengths → ℕ → List Lengths
unfolding new_length in_bounds count_in
add_length [] d = new_length d ∷ []
add_length (l ∷ ls) d = elim (in_bounds l d) [
  | true ↦ count_in l d ∷ ls
  | false ↦ l ∷ add_length ls d
]

abbrev pub word32 : ℕ
word32 = 2 ^ 32

-- What `merge_lengths` makes of two items.
unfoldable pub merge_two : Lengths → Lengths → Lengths
merge_two l inner = record {
  count = l.count + inner.count;
  sum = (l.sum + inner.sum) % word32;
  upper_bound = max l.upper_bound inner.upper_bound;
  lower_bound = min l.lower_bound inner.lower_bound;
  min = min l.min inner.min;
  max = max l.max inner.max;
}

-- The average of two items together: the sum is taken as a `uint32_t`.
abbrev joint_average : Lengths → Lengths → ℕ
joint_average l inner = (l.sum + inner.sum) % word32 / (l.count + inner.count)

-- `eps` and `aeps` are the variables of irrecord.c, 30 and 100 at the start.
module _ (eps aeps : ℕ) where
  -- All durations of an item are near an average. `100 - eps` and the products are `unsigned`.
  unfoldable pub near_absolute : ℕ → Lengths → Bool
  near_absolute average l = leb l.max (average + aeps) && leb average (l.min + aeps)

  unfoldable pub near_relative : ℕ → Lengths → Bool
  near_relative average l =
      leb l.max (average * (100 + eps) % word32)
      && leb (average * ((100 + word32 - eps) % word32) % word32) l.min

  -- The condition under which `merge_lengths` makes one item of two.
  unfoldable pub are_near : Lengths → Lengths → Bool
  unfolding near_absolute near_relative
  are_near l inner =
      let average = joint_average l inner in
      near_absolute average l && near_absolute average inner
      || near_relative average l && near_relative average inner

  -- The inner loop: `l` takes the items that are near it, the others stay behind it.
  unfoldable pub merge_inner : Lengths → List Lengths → Lengths × List Lengths
  unfolding are_near merge_two
  merge_inner l [] = (l, [])
  merge_inner l (inner ∷ rest) = elim (are_near l inner) [
    | true ↦ merge_inner (merge_two l inner) rest
    | false ↦ let r = merge_inner l rest in (r.0, inner ∷ r.1)
  ]

  -- The outer loop, with the number of items as fuel.
  unfoldable pub merge_outer : ℕ → List Lengths → List Lengths
  unfolding merge_inner
  merge_outer zero ls = ls
  merge_outer (suc fuel) [] = []
  merge_outer (suc fuel) (l ∷ ls) = let r = merge_inner l ls in r.0 ∷ merge_outer fuel r.1

  unfoldable pub merge_lengths : List Lengths → List Lengths
  unfolding merge_outer
  merge_lengths ls = merge_outer (length ls) ls

  -- The two calls that irrecord.c makes for each duration.
  unfoldable pub add_and_merge : List Lengths → ℕ → List Lengths
  unfolding add_length merge_lengths
  add_and_merge ls d = merge_lengths (add_length ls d)

-- What `get_max_length` returns and writes: the position of the item, the item, and the sum.
pub record MaxLength : Type 0 where
  pub position : ℕ
  pub item : Lengths
  pub total : ℕ

-- One round: the item at position `i` counts, and takes over if its count is higher.
unfoldable pub scan_one : ℕ → Lengths → MaxLength → MaxLength
scan_one i scan m =
    let m' = record m { total = m.total + scan.count } in
    if ltb m.item.count scan.count then record m' { position = i; item = scan } else m'

-- The loop, with the items from position `i` on to scan.
unfoldable pub get_max_length_loop : List Lengths → ℕ → MaxLength → MaxLength
unfolding scan_one
get_max_length_loop [] i m = m
get_max_length_loop (scan ∷ rest) i m = get_max_length_loop rest (i + 1) (scan_one i scan m)

unfoldable pub get_max_length : List Lengths → Option MaxLength
unfolding get_max_length_loop
get_max_length [] = none
get_max_length (first ∷ rest) =
    some (get_max_length_loop rest 1 (record { position = 0; item = first; total = first.count }))

-- The list without the item at a position.
unfoldable pub unlink_length : List Lengths → ℕ → List Lengths
unlink_length [] i = []
unlink_length (l ∷ ls) zero = ls
unlink_length (l ∷ ls) (suc i) = l ∷ unlink_length ls i
