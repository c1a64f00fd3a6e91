-- ===== src/Irrecord/Capture/SafeData.antt =====
-- The encoding and the data are found by lib/irrecord.c without following a null pointer, and so is
-- all of the analysis, if the histograms have been filled.
use lirc.Base.{ℕ, ◌≤◌, arith, List, [], ◌∷◌}
use lirc.Base.{Option, none, some}
use lirc.Base.{Option-cases, inl, inr}
use lirc.Remote.{RemoteConf}
use lirc.Remote.Flags.{is_biphase}
use lirc.Irrecord.{Lengths, Recording}
use lirc.Irrecord.Histogram.{MaxLength, get_max_length, unlink_length}
use lirc.Irrecord.Analyse.{Run, Analysed, dominates}
use lirc.Irrecord.Analyse.Scheme.{
  front_pulse, stands_out, longest, guess_scheme, get_scheme, get_data_length, data_found,
  count_bits, bits_of, remove_header,
}
use lirc.Irrecord.Capture.Step.{and_then, analyse}
use lirc.Irrecord.Capture.Filled.{Safe, safe_settled, safe_endless, Filled, with_max-Safe}
use lirc.Irrecord.Capture.Filled.{if-Safe}
use lirc.Irrecord.Capture.Safe.{Measurable, Still, get_trail_length-Safe, get_header_length-Safe}
use lirc.Irrecord.Capture.Safe.{get_lead_length-Safe, get_repeat_length-Safe}

front_pulse-Measurable :
    (s : Recording) (l : Lengths) (ls : List Lengths)
    → Measurable s
    → Measurable (front_pulse s l ls)
unfolding front_pulse
front_pulse-Measurable s l [] h = record {
  pulses_some = h.pulses_some;
  spaces_some = h.spaces_some;
  leads_some = h.leads_some;
  trails_some = h.trails_some;
  signals_some = h.signals_some;
  headers_some = h.headers_some;
  repeats_some = h.repeats_some;
}
front_pulse-Measurable s l (q ∷ qs) h = record {
  pulses_some = omega arith;
  spaces_some = h.spaces_some;
  leads_some = h.leads_some;
  trails_some = h.trails_some;
  signals_some = h.signals_some;
  headers_some = h.headers_some;
  repeats_some = h.repeats_some;
}

guess_scheme-Safe :
    (r : RemoteConf) (s : Recording) (n : ℕ) (p sp : MaxLength)
    → Measurable s
    → Safe Still (guess_scheme r s n p sp)
unfolding guess_scheme
guess_scheme-Safe r s n p sp h =
    let front = front_pulse-Measurable s p.item (unlink_length s.pulses p.position) h in
    elim (Option-cases (get_max_length (unlink_length s.spaces sp.position))) [
      | inl e ↦ rw (guess_scheme, e) (safe_settled front)
      | inr e ↦
          rw (guess_scheme, e.1)
            (with_max-Safe Still (sp.item ∷ unlink_length s.spaces sp.position) _ (omega arith)
              (λ m k. safe_settled (record {
                pulses_some = front.pulses_some;
                spaces_some = omega arith;
                leads_some = front.leads_some;
                trails_some = front.trails_some;
                signals_some = front.signals_some;
                headers_some = front.headers_some;
                repeats_some = front.repeats_some;
              })))
    ]

get_scheme-Safe : (r : RemoteConf) (s : Recording) → Measurable s → Safe Still (get_scheme r s)
unfolding get_scheme
get_scheme-Safe r s h =
    if-Safe Still (stands_out s (longest s.lengths)) _ _ (λ e. safe_settled h)
      (λ e.
        if-Safe Still s.pulses_cyclic _ _ (λ c. safe_endless)
          (λ c. with_max-Safe Still s.pulses _ h.pulses_some (λ p k.
            with_max-Safe Still s.spaces _ h.spaces_some
              (λ sp l. guess_scheme-Safe r s (longest s.lengths).length p sp h))))

-- What is returned at the end does not matter.
abbrev pub Any : Analysed → Type 0
Any a = 0 ≤ 1

count_bits-Safe :
    (resolution : ℕ) (r : RemoteConf) (s : Recording)
    → Filled s.signal_lengths
    → Safe Any (count_bits resolution r s)
unfolding count_bits
count_bits-Safe resolution r s h =
    if-Safe Any (is_biphase r) _ _
      (λ e. with_max-Safe Any s.signal_lengths _ h (λ m k. safe_settled (omega arith)))
      (λ e. safe_settled (omega arith))

bits_of-Safe :
    (resolution : ℕ) (r : RemoteConf) (s : Recording) (o : Option RemoteConf)
    → Filled s.signal_lengths
    → Safe Any (bits_of resolution r s o)
unfolding bits_of
bits_of-Safe resolution r s none h = safe_settled (omega arith)
bits_of-Safe resolution r s (some r') h =
    count_bits-Safe resolution (remove_header resolution r') s h

data_found-Safe :
    (resolution eps aeps : ℕ) (r : RemoteConf) (s : Recording) (p sp : MaxLength)
    → Filled s.signal_lengths
    → Safe Any (data_found resolution eps aeps r s p sp)
unfolding data_found
data_found-Safe resolution eps aeps r s p sp h = bits_of-Safe resolution _ s _ h

get_data_length-Safe :
    (resolution eps aeps : ℕ) (r : RemoteConf) (s : Recording)
    → Measurable s
    → Safe Any (get_data_length resolution eps aeps r s)
unfolding get_data_length
get_data_length-Safe resolution eps aeps r s h =
    if-Safe Any s.pulses_cyclic _ _ (λ e. safe_endless)
      (λ e. with_max-Safe Any s.pulses _ h.pulses_some (λ p k.
        if-Safe Any (dominates p 10) _ _
          (λ d. with_max-Safe Any s.spaces _ h.spaces_some (λ sp l.
            if-Safe Any (dominates sp 10) _ _
              (λ d'. data_found-Safe resolution eps aeps r _ p sp h.signals_some)
              (λ d'. safe_settled (omega arith))))
          (λ d. safe_settled (omega arith))))

and_then-Safe :
    (Q : Analysed → Type 0) (a : Run Analysed) (k : RemoteConf → Recording → Run Analysed)
    → Safe Still a
    → ((r : RemoteConf) (s : Recording) → Measurable s → Safe Q (k r s))
    → ((x : Analysed) → Measurable x.recording → Q x)
    → Safe Q (and_then a k)
unfolding and_then
and_then-Safe Q a k (safe_settled {a = x} h) f g =
    if-Safe Q x.ok _ _ (λ e. f x.conf x.recording h) (λ e. safe_settled (g x h))
and_then-Safe Q a k safe_endless f g = safe_endless

-- All of the analysis, after `SAMPLES` signals.
pub analyse-Safe :
    (resolution eps aeps : ℕ) (r : RemoteConf) (s : Recording)
    → Measurable s
    → Safe Any (analyse resolution eps aeps r s)
unfolding analyse
analyse-Safe resolution eps aeps r s h =
    let keep : (x : Analysed) → Measurable x.recording → Still x = λ x k. k in
    and_then-Safe Any _ _
      (and_then-Safe Still _ _
        (and_then-Safe Still _ _
          (and_then-Safe Still _ _
            (and_then-Safe Still _ _ (get_scheme-Safe r s h) get_header_length-Safe keep)
            get_trail_length-Safe keep)
          (get_lead_length-Safe eps aeps) keep)
        get_repeat_length-Safe keep)
      (get_data_length-Safe resolution eps aeps) (λ x k. omega arith)
