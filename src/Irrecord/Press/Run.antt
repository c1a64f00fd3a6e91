-- ===== src/Irrecord/Press/Run.antt =====
-- Runs of `get_gap_length` of lib/irrecord.c from the start, and the gap that is found, against the
-- gaps between presses that the run has measured.
use lirc.Base.{
  ℕ, ◌+◌, ◌/◌, ◌^◌, ◌≤◌, ◌<◌, ◌≡◌, ◌≢◌, ◌⊎◌, refl, ap, sym, ◌∙◌, arith, List, [], ◌∷◌, ◌++◌, none,
  some,
}
use lirc.Base.{
  true, false, inl, inr, ltb, if◌then◌else◌, length, get_elem?, Bool-cases, Option-cases,
}
use lirc.Remote.{RemoteConf, Timeval}
use lirc.Irrecord.{Lengths}
use lirc.Irrecord.Histogram.{add_and_merge}
use lirc.Irrecord.Histogram.Items.{AllSummaries, no_item, total_count, calc_signal-within}
use lirc.Irrecord.Histogram.Laws.{record_all, sum_of, record_all-AllSummaries}
use lirc.Irrecord.Histogram.Most.{AllAtMost}
use lirc.Irrecord.Capture.{samples}
use lirc.Irrecord.Capture.Gap.{scan_gap}
use lirc.Irrecord.Press.{
  GapState, GapCall, gap_is_found, gap_state_init, count_gap, get_gap_length, elapsed32,
}
use lirc.Irrecord.Press.Laws.{
  scan_gap-found, scan_gap-none, IsSummary-get, calc_signal-eq, record_all-append, sum_of-append,
}

-- The gap is the average of an item that counts more than `SAMPLES` of the gaps.
pub record FindsGap (gaps : List Lengths) (r : RemoteConf) (c : GapCall) : Type 0 where
  pub position : ℕ
  pub item : Lengths
  pub in_histogram : get_elem? gaps position ≡ some item
  pub often : samples < item.count
  pub average : c.conf ≡ record r { gap = item.sum / item.count }
  pub not_below : item.min ≤ item.sum / item.count
  pub not_above : item.sum / item.count ≤ item.max
  pub status : c.status ≡ gap_is_found
  pub freed : c.state.gaps ≡ []

-- No item counts more than `SAMPLES`, and the histogram is kept for the next call.
pub record FindsNone (gaps : List Lengths) (r : RemoteConf) (c : GapCall) : Type 0 where
  pub seldom : AllAtMost samples gaps
  pub same_conf : c.conf ≡ r
  pub status : c.status ≢ gap_is_found
  pub kept : c.state.gaps ≡ gaps

module _ (r : RemoteConf) (s : GapState) (gaps' : List Lengths) (end : Timeval) where
  count_gap-found :
      (l : Lengths)
      → AllSummaries gaps'
      → (scan_gap gaps' 0).found ≡ some l
      → FindsGap gaps' r (count_gap r s gaps' end)
  unfolding count_gap
  count_gap-found l h e =
      let (i, at, often) = scan_gap-found gaps' 0 l e in
      let summary = IsSummary-get gaps' i l h at in
      let same = calc_signal-eq l summary in
      let within = calc_signal-within l summary in
      rw (count_gap, e)
        (record {
          position = i;
          item = l;
          in_histogram = at;
          often = often;
          average = ap (λ t. record r { gap = t }) same;
          not_below = omega (arith, within.0, same);
          not_above = omega (arith, within.1, same);
          status = refl;
          freed = refl;
        })

  count_gap-none : (scan_gap gaps' 0).found ≡ none → FindsNone gaps' r (count_gap r s gaps' end)
  unfolding count_gap
  count_gap-none e =
      let seldom = scan_gap-none gaps' 0 e in
      elim (Bool-cases (ltb s.lastmaxcount (scan_gap gaps' 0).maxcount)) [
        | inl m ↦
            rw (count_gap, e, m, if◌then◌else◌)
              (record { seldom = seldom; same_conf = refl; status = λ x. cc; kept = refl })
        | inr m ↦
            rw (count_gap, e, m, if◌then◌else◌)
              (record { seldom = seldom; same_conf = refl; status = λ x. cc; kept = refl })
      ]

module _ (eps aeps : ℕ) (r : RemoteConf) where
  counted_call :
      (s : GapState) (start end : Timeval)
      → s.pressed ≡ true
      → get_gap_length eps aeps r s true start end
        ≡ count_gap r s (add_and_merge eps aeps s.gaps (elapsed32 s.last_end start)) end
  unfolding get_gap_length
  counted_call s start end p = rw (p, if◌then◌else◌) refl

  first_call :
      (s : GapState) (start end : Timeval)
      → s.pressed ≡ false
      → (get_gap_length eps aeps r s true start end).state.gaps ≡ s.gaps
  unfolding get_gap_length
  first_call s start end p = rw (p, if◌then◌else◌) refl

  -- The states that calls reach as long as no gap is found, with the gaps between presses that were
  -- measured since the start or the last timeout.
  pub data Reached : List ℕ → GapState → Type 0 where
    started : Reached [] gap_state_init
    timed_out :
        {ds : List ℕ} {s : GapState} (start end : Timeval)
        → Reached ds s
        → Reached [] (get_gap_length eps aeps r s false start end).state
    first_press :
        {ds : List ℕ} {s : GapState} (start end : Timeval)
        → s.pressed ≡ false
        → Reached ds s
        → Reached ds (get_gap_length eps aeps r s true start end).state
    later_press :
        {ds : List ℕ} {s : GapState} (start end : Timeval)
        → s.pressed ≡ true
        → (get_gap_length eps aeps r s true start end).status ≢ gap_is_found
        → Reached ds s
        → Reached
            (ds ++ elapsed32 s.last_end start ∷ [])
            (get_gap_length eps aeps r s true start end).state

  count_gap-kept :
      (s : GapState) (gaps' : List Lengths) (end : Timeval)
      → (count_gap r s gaps' end).status ≢ gap_is_found
      → (count_gap r s gaps' end).state.gaps ≡ gaps'
  unfolding count_gap
  count_gap-kept s gaps' end k = elim (Option-cases (scan_gap gaps' 0).found) [
    | inl e ↦ (count_gap-none r s gaps' end e).kept
    | inr (l, e) ↦ absurd (k (rw (count_gap, e) refl))
  ]

  Reached-gaps : {ds : List ℕ} {s : GapState} → Reached ds s → s.gaps ≡ record_all eps aeps [] ds
  unfolding get_gap_length gap_state_init
  Reached-gaps started = refl
  Reached-gaps (timed_out start end h) = refl
  Reached-gaps (first_press {s} start end p h) = first_call s start end p ∙ Reached-gaps h
  Reached-gaps (later_press {ds} {s} start end p k h) =
      let d = elapsed32 s.last_end start in
      let gaps' = add_and_merge eps aeps s.gaps d in
      let same = counted_call s start end p in
      let none_found : (count_gap r s gaps' end).status ≢ gap_is_found =
        λ x. k (ap (λ c. c.status) same ∙ x) in
      ap (λ c. c.state.gaps) same
      ∙ count_gap-kept s gaps' end none_found
      ∙ ap (λ ls. add_and_merge eps aeps ls d) (Reached-gaps h)
      ∙ sym (record_all-append eps aeps [] ds (d ∷ []))

  -- A press after the first one, in any run of `get_gap_length` that starts with `gap_state_init`,
  -- with timeouts in between, and has found no gap yet: the call puts the time from `state->last` to
  -- the start of the press into the histogram of all gaps that the run has measured since the last
  -- timeout, whose counts add up to the number of these gaps. If an item of it then counts more than
  -- `SAMPLES` gaps, the call reports the gap as found, sets `remote->gap` to the average of such an
  -- item, which lies between its shortest and its longest gap, and empties the histogram; if not, the
  -- remote stays as it is, no gap is reported, and the histogram is kept. The sum of these gaps is
  -- below 2 ^ 31.
  pub get_gap_length-FindsGap :
      (ds : List ℕ) (s : GapState) (start end : Timeval)
      → Reached ds s
      → s.pressed ≡ true
      → sum_of eps aeps ds + elapsed32 s.last_end start < 2 ^ 31
      → let c = get_gap_length eps aeps r s true start end in
        let gaps = record_all eps aeps [] (ds ++ elapsed32 s.last_end start ∷ []) in
        (total_count gaps ≡ length (ds ++ elapsed32 s.last_end start ∷ []))
        × (FindsGap gaps r c ⊎ FindsNone gaps r c)
  get_gap_length-FindsGap ds s start end h p w =
      let d = elapsed32 s.last_end start in
      let gaps' = add_and_merge eps aeps s.gaps d in
      let gaps = record_all eps aeps [] (ds ++ d ∷ []) in
      let whole =
        record_all-AllSummaries eps aeps [] (ds ++ d ∷ [])
          (omega (arith, sum_of-append eps aeps ds d)) no_item in
      let grown : gaps' ≡ gaps =
        ap (λ ls. add_and_merge eps aeps ls d) (Reached-gaps h)
        ∙ sym (record_all-append eps aeps [] ds (d ∷ [])) in
      let call : get_gap_length eps aeps r s true start end ≡ count_gap r s gaps end =
        counted_call s start end p ∙ ap (λ ls. count_gap r s ls end) grown in
      (
        omega (arith, whole.0),
        rw call (elim (Option-cases (scan_gap gaps 0).found) [
          | inl e ↦ inr (count_gap-none r s gaps end e)
          | inr (l, e) ↦ inl (count_gap-found r s gaps end l whole.2 e)
        ]),
      )
