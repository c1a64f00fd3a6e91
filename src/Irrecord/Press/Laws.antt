-- ===== src/Irrecord/Press/Laws.antt =====
-- The histogram of gaps in `get_gap_length` of lib/irrecord.c: what its loop finds, and how it grows.
use mathlib.Core.Option.{some-injective}
use mathlib.Core.Path.{subst}
use lirc.Base.{
  max, ℕ, zero, suc, ◌+◌, ◌/◌, ◌≤◌, ◌<◌, ◌≡◌, ◌⊎◌, refl, ap, arith, List, [], ◌∷◌, ◌++◌, none, some,
}
use lirc.Base.{Bool, true, false, inl, inr, ltb, if◌then◌else◌, ltb→lt, get_elem?, ◌==◌}
use lirc.Irrecord.{Lengths}
use lirc.Irrecord.Histogram.{add_and_merge, calc_signal}
use lirc.Irrecord.Histogram.Items.{IsSummary, AllSummaries, no_item, one_item}
use lirc.Irrecord.Histogram.Laws.{record_all, sum_of}
use lirc.Irrecord.Histogram.Most.{AllAtMost, none_left, one_more}
use lirc.Irrecord.Capture.{samples}
use lirc.Irrecord.Capture.Gap.{scan_gap, GapScan}

found_by :
    (b : Bool) (x y : GapScan) (l : Lengths)
    → (if b then x else y).found ≡ some l
    → ((b ≡ true) × (x.found ≡ some l)) ⊎ (y.found ≡ some l)
found_by true x y l e = inl (refl, e)
found_by false x y l e = inr e

not_found_by :
    (b : Bool) (x y : GapScan)
    → (if b then x else y).found ≡ none
    → ((b ≡ true) × (x.found ≡ none)) ⊎ ((b ≡ false) × (y.found ≡ none))
not_found_by true x y e = inl (refl, e)
not_found_by false x y e = inr (refl, e)

pub scan_gap-found :
    (ls : List Lengths) (n : ℕ) (l : Lengths)
    → (scan_gap ls n).found ≡ some l
    → (i : ℕ) × (get_elem? ls i ≡ some l) × (samples < l.count)
unfolding scan_gap
scan_gap-found [] n l e = absurd cc
scan_gap-found (x ∷ xs) n l e = elim (found_by (ltb samples x.count) _ _ l e) [
  | inl k ↦
      let same : x ≡ l = some-injective x l k.1 in
      (0, ap some same, subst (λ y. samples < y.count) same (ltb→lt samples x.count k.0))
  | inr k ↦ let (i, at, often) = scan_gap-found xs (max n x.count) l k in (suc i, at, often)
]

pub scan_gap-none :
    (ls : List Lengths) (n : ℕ) → (scan_gap ls n).found ≡ none → AllAtMost samples ls
unfolding scan_gap
scan_gap-none [] n e = none_left
scan_gap-none (x ∷ xs) n e = elim (not_found_by (ltb samples x.count) _ _ e) [
  | inl k ↦ absurd cc
  | inr k ↦
      let few : x.count ≤ samples = ground arith in
      one_more few (scan_gap-none xs (max n x.count) k.1)
]

pub IsSummary-get :
    (ls : List Lengths) (i : ℕ) (l : Lengths)
    → AllSummaries ls
    → get_elem? ls i ≡ some l
    → IsSummary l
IsSummary-get [] i l no_item e = absurd cc
IsSummary-get (x ∷ xs) zero l (one_item h hs) e = subst IsSummary (some-injective x l e) h
IsSummary-get (x ∷ xs) (suc i) l (one_item h hs) e = IsSummary-get xs i l hs e

pub calc_signal-eq : (l : Lengths) → IsSummary l → calc_signal l ≡ l.sum / l.count
unfolding calc_signal
calc_signal-eq l h =
    let positive : (l.count == 0) ≡ false = ground (arith, h.some_count) in
    rw (positive, if◌then◌else◌) refl

module _ (eps aeps : ℕ) where
  pub record_all-append :
      (ls : List Lengths) (ds es : List ℕ)
      → record_all eps aeps ls (ds ++ es) ≡ record_all eps aeps (record_all eps aeps ls ds) es
  record_all-append ls [] es = refl
  record_all-append ls (d ∷ ds) es = record_all-append (add_and_merge eps aeps ls d) ds es

  pub sum_of-append :
      (ds : List ℕ) (d : ℕ) → sum_of eps aeps (ds ++ d ∷ []) ≡ sum_of eps aeps ds + d
  sum_of-append [] d = omega arith
  sum_of-append (e ∷ ds) d = omega (arith, sum_of-append ds d)
