-- ===== src/Irrecord/Capture/Safe.antt =====
-- Header, trail, lead and repeat are found by lib/irrecord.c without following a null pointer, if the
-- histograms have been filled.
use lirc.Base.{ℕ, ◌+◌, ◌<◌, ◌≡◌, arith}
use lirc.Base.{some, false, not, ◌&&◌, ◌||◌, ltb}
use lirc.Base.{Option-cases, inl, inr, bit_and, ◌==◌}
use lirc.Remote.{RemoteConf}
use lirc.Remote.Flags.{is_biphase, has_header, is_rc6, const_length}
use lirc.Irrecord.{Recording}
use lirc.Irrecord.Histogram.{MaxLength, get_max_length, unlink_length}
use lirc.Irrecord.Analyse.{Analysed, dominates}
use lirc.Irrecord.Analyse.{get_trail_length, get_lead_length, get_header_length, get_repeat_length}
use lirc.Irrecord.Analyse.{hidden_lead, repeat_found, repeat_flags}
use lirc.Irrecord.Capture.Filled.{Safe, safe_settled, Filled, with_max-Safe}
use lirc.Irrecord.Capture.Filled.{
  if-Safe, get_max_length-Filled, unlink_length-Filled, leads_left-Filled,
}

-- The histograms that the analysis reads: those of the data are filled, those of headers and repeats
-- where there was one.
pub record Measurable (s : Recording) : Type 0 where
  pub pulses_some : Filled s.pulses
  pub spaces_some : Filled s.spaces
  pub leads_some : Filled s.leads1
  pub trails_some : Filled s.trails
  pub signals_some : Filled s.signal_lengths
  pub headers_some : Filled s.headerp → Filled s.headers
  pub repeats_some :
      0 < s.count_3repeats + s.count_5repeats
      → Filled s.repeatp × Filled s.repeats × Filled s.repeat_gaps

abbrev pub Still : Analysed → Type 0
Still a = Measurable a.recording

pub get_trail_length-Safe :
    (r : RemoteConf) (s : Recording) → Measurable s → Safe Still (get_trail_length r s)
unfolding get_trail_length
get_trail_length-Safe r s h =
    if-Safe Still (is_biphase r) _ _ (λ e. safe_settled h)
      (λ e. with_max-Safe Still s.trails _ h.trails_some (λ m k. safe_settled h))

pub get_header_length-Safe :
    (r : RemoteConf) (s : Recording) → Measurable s → Safe Still (get_header_length r s)
unfolding get_header_length
get_header_length-Safe r s h = elim (Option-cases (get_max_length s.headerp)) [
  | inl e ↦ rw (get_header_length, e) (safe_settled h)
  | inr p ↦
      rw (get_header_length, p.1)
        (if-Safe Still (dominates p.0 90) _ _
          (λ d.
            with_max-Safe Still s.headers _
              (h.headers_some (get_max_length-Filled s.headerp p.0 p.1))
              (λ m k.
                if-Safe Still (dominates m 90) _ _ (λ e. safe_settled h) (λ e. safe_settled h)))
          (λ d. safe_settled h))
]

hidden_lead-Safe :
    (eps aeps : ℕ) (r : RemoteConf) (s : Recording) (m : MaxLength)
    → Measurable s
    → get_max_length s.leads1 ≡ some m
    → dominates m 90 ≡ false
    → Safe Still (hidden_lead eps aeps r s m)
unfolding hidden_lead
hidden_lead-Safe eps aeps r s m h e d =
    with_max-Safe Still (unlink_length s.leads1 m.position) _ (unlink_length-Filled s.leads1 m e d)
      (λ m2 k. safe_settled (record {
        pulses_some = h.pulses_some;
        spaces_some = h.spaces_some;
        leads_some = leads_left-Filled s.leads1 m h.leads_some;
        trails_some = h.trails_some;
        signals_some = h.signals_some;
        headers_some = h.headers_some;
        repeats_some = h.repeats_some;
      }))

pub get_lead_length-Safe :
    (eps aeps : ℕ) (r : RemoteConf) (s : Recording)
    → Measurable s
    → Safe Still (get_lead_length eps aeps r s)
unfolding get_lead_length
get_lead_length-Safe eps aeps r s h =
    if-Safe Still (not (is_biphase r) || has_header r || is_rc6 r) _ _ (λ e. safe_settled h)
      (λ e. with_max-Safe Still s.leads1 _ h.leads_some (λ m k.
        if-Safe Still (dominates m 90) _ _ (λ d. safe_settled h)
          (λ d. hidden_lead-Safe eps aeps r s m h k d)))

repeat_found-Safe :
    (r : RemoteConf) (s : Recording) (p g : MaxLength)
    → Measurable s
    → Filled s.repeat_gaps
    → Safe Still (repeat_found r s p g)
unfolding repeat_found
repeat_found-Safe r s p g h f =
    if-Safe Still (bit_and (repeat_flags r s) const_length == 0) _ _
      (λ e. with_max-Safe Still s.repeat_gaps _ f (λ m k. safe_settled h)) (λ e. safe_settled h)

repeats_seen : (a b : ℕ) → (not (ltb 40 a) && not (ltb 40 b)) ≡ false → 0 < a + b
repeats_seen a b e = ground arith

pub get_repeat_length-Safe :
    (r : RemoteConf) (s : Recording) → Measurable s → Safe Still (get_repeat_length r s)
unfolding get_repeat_length
get_repeat_length-Safe r s h =
    if-Safe Still (ltb 40 s.count_3repeats && ltb 40 s.count_5repeats) _ _ (λ e. safe_settled h)
      (λ e.
        if-Safe Still (not (ltb 40 s.count_3repeats) && not (ltb 40 s.count_5repeats)) _ _
          (λ n. safe_settled h)
          (λ n.
            let there = h.repeats_some (repeats_seen s.count_3repeats s.count_5repeats n) in
            with_max-Safe Still s.repeatp _ there.0 (λ p k.
              if-Safe Still (dominates p 90) _ _
                (λ d. with_max-Safe Still s.repeats _ there.1 (λ g l.
                  if-Safe Still (dominates g 90) _ _
                    (λ d'.
                      if-Safe Still (ltb s.count_3repeats s.count_5repeats && not (has_header r)) _
                        _ (λ i. safe_settled h) (λ i. repeat_found-Safe r s p g h there.2))
                    (λ d'. safe_settled h)))
                (λ d. safe_settled h))))
