-- ===== src/Remotes/Range.antt =====
-- Properties of the ranges that lib/ir_remote.c computes over all remotes.
use lirc.Base.{ℕ, zero, suc, ◌≤◌, ◌≡◌, ◌≢◌, ap, sym, arith, List, [], ◌∷◌, get_elem?, none, some}
use lirc.Remote.{RemoteConf}
use lirc.Remote.Tolerance.{upper_limit, lower_limit}
use lirc.Remotes.{
  range_loop, get_frequency_range, Filter, widen, filter_loop, get_filter_parameters,
}

range_loop-grows :
    (lo hi : ℕ) (rs : List RemoteConf)
    → ((range_loop lo hi rs).0 ≤ lo) × (hi ≤ (range_loop lo hi rs).1)
unfolding range_loop
range_loop-grows lo hi [] = (omega arith, omega arith)
range_loop-grows lo hi (r ∷ rs) =
    ground (
      arith,
      range_loop-grows lo hi rs,
      range_loop-grows lo r.freq rs,
      range_loop-grows r.freq hi rs,
    )

-- A property of the remote in a `some`.
of_some : {B : Type 0} {x r : RemoteConf} (f : RemoteConf → B) → some x ≡ some r → f x ≡ f r
of_some {x = x} f p = ap (λ o. elim o [ none ↦ f x | some y ↦ f y ]) p

range_loop-holds :
    (lo hi : ℕ) (rs : List RemoteConf) (i : ℕ) {r : RemoteConf}
    → lo ≤ hi
    → get_elem? rs i ≡ some r
    → r.freq ≢ 0
    → ((range_loop lo hi rs).0 ≤ r.freq) × (r.freq ≤ (range_loop lo hi rs).1)
unfolding range_loop
range_loop-holds lo hi [] i h at positive = grind arith
range_loop-holds lo hi (x ∷ rs) zero h at positive = ground (
  arith,
  of_some (λ y. y.freq) at,
  range_loop-grows lo hi rs,
  range_loop-grows lo x.freq rs,
  range_loop-grows x.freq hi rs,
)
range_loop-holds lo hi (x ∷ rs) (suc i) h at positive = grind (
  arith,
  range_loop-holds lo hi rs i h at positive,
  λ (l : lo ≤ x.freq). range_loop-holds lo x.freq rs i l at positive,
  λ (l : x.freq ≤ hi). range_loop-holds x.freq hi rs i l at positive,
)

-- The frequency of every remote that has one lies in the range that `get_frequency_range` reports.
pub get_frequency_range-holds :
    (rs : List RemoteConf) (i : ℕ) (r : RemoteConf)
    → get_elem? rs i ≡ some r
    → r.freq ≢ 0
    → ((get_frequency_range rs).0 ≤ r.freq) × (r.freq ≤ (get_frequency_range rs).1)
unfolding get_frequency_range
get_frequency_range-holds [] i r at positive = grind arith
get_frequency_range-holds (x ∷ rs) zero r at positive =
    ground (arith, of_some (λ y. y.freq) at, range_loop-grows x.freq x.freq rs)
get_frequency_range-holds (x ∷ rs) (suc i) r at positive =
    range_loop-holds x.freq x.freq rs i (omega arith) at positive

-- The filter of the durations lets through what a remote sends, as far as the four bounds on gaps
-- and pulses and the upper bound of spaces go. `min_space_length` bounds the other way.
pub record Admits (resolution : ℕ) (f : Filter) (r : RemoteConf) : Type 0 where
  pub gaps : upper_limit resolution r r.max_gap_length ≤ f.max_gap_length
  pub long_pulses : upper_limit resolution r r.max_pulse_length ≤ f.max_pulse_length
  pub long_spaces : upper_limit resolution r r.max_space_length ≤ f.max_space_length
  pub short_pulses : f.min_pulse_length ≤ lower_limit resolution r r.min_pulse_length
  pub short_spaces : lower_limit resolution r r.min_space_length ≤ f.min_space_length

lower_limit-positive : (resolution : ℕ) (r : RemoteConf) (v : ℕ) → 1 ≤ lower_limit resolution r v
unfolding lower_limit
lower_limit-positive resolution r v = ground arith

widen-Admits :
    (resolution : ℕ) (f : Filter) (r : RemoteConf) → Admits resolution (widen resolution f r) r
unfolding widen
widen-Admits resolution f r = record {
  gaps = ground arith;
  long_pulses = ground arith;
  long_spaces = ground arith;
  short_pulses = ground arith;
  short_spaces = ground arith;
}

widen-keeps :
    (resolution : ℕ) (f : Filter) (x r : RemoteConf)
    → 1 ≤ f.min_pulse_length
    → Admits resolution f r
    → Admits resolution (widen resolution f x) r
unfolding widen
widen-keeps resolution f x r positive a = record {
  gaps = ground (arith, a.gaps);
  long_pulses = ground (arith, a.long_pulses);
  long_spaces = ground (arith, a.long_spaces);
  short_pulses = ground (arith, a.short_pulses);
  short_spaces = ground (arith, a.short_spaces);
}

widen-positive :
    (resolution : ℕ) (f : Filter) (x : RemoteConf) → 1 ≤ (widen resolution f x).min_pulse_length
unfolding widen
widen-positive resolution f x = ground (arith, lower_limit-positive resolution x x.min_pulse_length)

filter_loop-keeps :
    (resolution : ℕ) (f : Filter) (rs : List RemoteConf) (r : RemoteConf)
    → 1 ≤ f.min_pulse_length
    → Admits resolution f r
    → Admits resolution (filter_loop resolution f rs) r
unfolding filter_loop
filter_loop-keeps resolution f [] r positive a = a
filter_loop-keeps resolution f (x ∷ rs) r positive a =
    filter_loop-keeps resolution (widen resolution f x) rs r (widen-positive resolution f x)
      (widen-keeps resolution f x r positive a)

filter_loop-Admits :
    (resolution : ℕ) (f : Filter) (rs : List RemoteConf) (i : ℕ) (r : RemoteConf)
    → get_elem? rs i ≡ some r
    → Admits resolution (filter_loop resolution f rs) r
unfolding filter_loop
filter_loop-Admits resolution f [] i r at = grind arith
filter_loop-Admits resolution f (x ∷ rs) zero r at = rw (sym (of_some (λ y. y) at)) (
    filter_loop-keeps resolution (widen resolution f x) rs x (widen-positive resolution f x)
      (widen-Admits resolution f x))
filter_loop-Admits resolution f (x ∷ rs) (suc i) r at =
    filter_loop-Admits resolution (widen resolution f x) rs i r at

-- For every remote, the filter that `get_filter_parameters` reports has upper bounds for its gaps,
-- pulses and spaces with their tolerance, and a lower bound for its pulses; but `min_space_length`
-- bounds the lower limit of its shortest space from above, not from below.
pub get_filter_parameters-Admits :
    (resolution : ℕ) (rs : List RemoteConf) (i : ℕ) (r : RemoteConf)
    → get_elem? rs i ≡ some r
    → Admits resolution (get_filter_parameters resolution rs) r
unfolding get_filter_parameters
get_filter_parameters-Admits resolution rs i r at = filter_loop-Admits resolution _ rs i r at
