-- ===== src/Transmit/Buffer/Refine.antt =====
-- The buffer refines `merge`: after any events it holds the merged signal, or it has run full.
use mathlib.Core.List.{append_assoc}
use native.Mathlib.Decide.{dec_lt}
use lirc.Base.{ℕ, ◌%◌, ◌<◌, ◌≡◌, true, List, [], ◌∷◌, ◌++◌, arith, refl}
use lirc.Base.{length, sym, length-append}
use lirc.Transmit.{SendBuffer, wbuf_size, add_send_buffer, send_pulse, send_space}
use lirc.Transmit.Buffer.{Event, pulse, space, send_event, send_events, merge, merge_all}
use lirc.Transmit.Buffer.Merge.{
  merge-pulse_pulse, merge-pulse_space, merge-space_space, merge-space_pulse, length-merge,
  AllPositive,
}
use lirc.Transmit.Buffer.Stored.{
  IsStored, add-IsStored, add_full, pending-IsStored, send_pulse_first, send_pulse_more,
  send_pulse_after, send_space_first, send_space_more, send_space_after,
}

-- How the buffer stands to the signal `ds` sent so far. The last item is pending; at position 256
-- and later the array has no room for the items before it.
pub data Holds (b : SendBuffer) (ds : List ℕ) : Type 0 where
  idle : IsStored b [] → b.pendingp ≡ 0 → b.pendings ≡ 0 → ds ≡ [] → Holds b ds
  in_pulse :
      (xs : List ℕ)
      → IsStored b xs
      → length xs % 2 ≡ 0
      → 0 < b.pendingp
      → b.pendings ≡ 0
      → ds ≡ xs ++ (b.pendingp ∷ [])
      → Holds b ds
  in_space :
      (xs : List ℕ)
      → IsStored b xs
      → length xs % 2 ≡ 1
      → b.pendingp ≡ 0
      → 0 < b.pendings
      → ds ≡ xs ++ (b.pendings ∷ [])
      → Holds b ds
  lost : b.too_long ≡ true → wbuf_size < length ds → Holds b ds

pub send_event-too_long :
    (b : SendBuffer) (e : Event) → b.too_long ≡ true → (send_event e b).too_long ≡ true
unfolding send_event send_pulse send_space add_send_buffer
send_event-too_long b (pulse d) h = ground arith
send_event-too_long b (space d) h = ground arith

pulse-Holds :
    {b : SendBuffer} {ds : List ℕ} (d : ℕ)
    → Holds b ds
    → 0 < d
    → Holds (send_event (pulse d) b) (merge ds (pulse d))
unfolding send_event
pulse-Holds {b} {ds} d (idle s p q e) h =
    rw (send_pulse_first b d p q, e)
      (in_pulse [] (pending-IsStored d 0 s) refl h refl (unfold merge in refl))
pulse-Holds {b} {ds} d (in_pulse xs s even p q e) h =
    rw (send_pulse_more b d p, e, merge-pulse_pulse xs b.pendingp d even)
      (in_pulse xs (pending-IsStored _ _ s) even (omega arith) q refl)
pulse-Holds {b} {ds} d (in_space xs s odd p q e) h =
    rw (send_pulse_after b d p q, e, merge-space_pulse xs b.pendings d odd)
      (elim (dec_lt (length xs) wbuf_size) [
        | yes room ↦
            in_pulse (xs ++ (b.pendings ∷ []))
              (pending-IsStored d 0 (add-IsStored b.pendings s room))
              (omega (arith, length-append xs (b.pendings ∷ []))) h refl
              (sym (append_assoc xs (b.pendings ∷ []) (d ∷ [])))
        | no full ↦
            lost (add_full b.pendings s (omega arith))
              (omega (arith, length-append xs (b.pendings ∷ d ∷ [])))
      ])
pulse-Holds {b} {ds} d (lost t l) h =
    lost (send_event-too_long b (pulse d) t) (omega (arith, length-merge ds (pulse d)))

space-Holds :
    {b : SendBuffer} {ds : List ℕ} (d : ℕ)
    → Holds b ds
    → 0 < d
    → Holds (send_event (space d) b) (merge ds (space d))
unfolding send_event
space-Holds {b} {ds} d (idle s p q e) h =
    rw (send_space_first b d s.count p, e) (idle s p q (unfold merge in refl))
space-Holds {b} {ds} d (in_space xs s odd p q e) h =
    rw (send_space_more b d (omega (arith, s.count)) q, e, merge-space_space xs b.pendings d odd)
      (in_space xs (pending-IsStored _ _ s) odd p (omega arith) refl)
space-Holds {b} {ds} d (in_pulse xs s even p q e) h =
    rw (send_space_after b d p q, e, merge-pulse_space xs b.pendingp d even)
      (elim (dec_lt (length xs) wbuf_size) [
        | yes room ↦
            in_space (xs ++ (b.pendingp ∷ []))
              (pending-IsStored 0 d (add-IsStored b.pendingp s room))
              (omega (arith, length-append xs (b.pendingp ∷ []))) refl h
              (sym (append_assoc xs (b.pendingp ∷ []) (d ∷ [])))
        | no full ↦
            lost (add_full b.pendingp s (omega arith))
              (omega (arith, length-append xs (b.pendingp ∷ d ∷ [])))
      ])
space-Holds {b} {ds} d (lost t l) h =
    lost (send_event-too_long b (space d) t) (omega (arith, length-merge ds (space d)))

pub send_events-Holds :
    (es : List Event) {b : SendBuffer} {ds : List ℕ}
    → Holds b ds
    → AllPositive es
    → Holds (send_events es b) (merge_all ds es)
unfolding send_events merge_all
send_events-Holds [] h p = h
send_events-Holds (pulse d ∷ es) h p = send_events-Holds es (pulse-Holds d h p.0) p.1
send_events-Holds (space d ∷ es) h p = send_events-Holds es (space-Holds d h p.0) p.1
