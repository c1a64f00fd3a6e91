-- ===== src/Transmit/Buffer/Sync.antt =====
-- `sync_send_buffer` and `bad_send_buffer` at the end of a signal.
use native.Mathlib.Decide.{dec_lt}
use lirc.Base.{ℕ, ◌-◌, ◌%◌, ◌≤◌, ◌<◌, ◌≡◌, true, false, List, [], ◌∷◌, ◌++◌, arith, refl, ap}
use lirc.Base.{length, length-append}
use lirc.Transmit.{
  SendBuffer, wbuf_size, add_send_buffer, sync_send_buffer, bad_send_buffer, clear_send_buffer,
}
use lirc.Transmit.Buffer.{Event, send_events, merge_all, trimmed}
use lirc.Transmit.Buffer.Merge.{AllPositive}
use lirc.Transmit.Buffer.Stored.{IsStored, IsStored-le, add-IsStored, pending-IsStored, total}
use lirc.Transmit.Buffer.Refine.{Holds, idle, in_pulse, in_space, lost, send_events-Holds}

trimmed-pulse :
    (xs : List ℕ) (p : ℕ) → length xs % 2 ≡ 0 → trimmed (xs ++ (p ∷ [])) ≡ xs ++ (p ∷ [])
unfolding trimmed
trimmed-pulse [] p h = refl
trimmed-pulse (x ∷ []) p h = absurd (omega arith)
trimmed-pulse (x ∷ y ∷ []) p h = refl
trimmed-pulse (x ∷ y ∷ z ∷ r) p h = ap (λ t. x ∷ y ∷ t) (trimmed-pulse (z ∷ r) p (omega arith))

trimmed-space : (xs : List ℕ) (s : ℕ) → length xs % 2 ≡ 1 → trimmed (xs ++ (s ∷ [])) ≡ xs
unfolding trimmed
trimmed-space [] s h = absurd (omega arith)
trimmed-space (x ∷ []) s h = refl
trimmed-space (x ∷ y ∷ []) s h = absurd (omega arith)
trimmed-space (x ∷ y ∷ z ∷ r) s h = ap (λ t. x ∷ y ∷ t) (trimmed-space (z ∷ r) s (omega arith))

length-trimmed : (xs : List ℕ) → length (trimmed xs) ≡ length xs - (1 - length xs % 2)
unfolding trimmed
length-trimmed [] = omega arith
length-trimmed (x ∷ []) = omega arith
length-trimmed (x ∷ y ∷ []) = omega arith
length-trimmed (x ∷ y ∷ z ∷ r) = omega (arith, length-trimmed (z ∷ r))

-- The buffer is ready to be sent: it holds the signal `ds` and nothing is pending of its pulses; or
-- it reports that the signal does not fit.
pub record IsReady (b : SendBuffer) (ds : List ℕ) : Type 0 where
  pub fits : length ds ≤ wbuf_size → (bad_send_buffer b ≡ false) × IsStored b ds
  pub overflows : wbuf_size < length ds → bad_send_buffer b ≡ true

sync_pulse :
    (b : SendBuffer)
    → 0 < b.pendingp
    → (add_send_buffer b.pendingp b).wptr % 2 ≡ 1
    → sync_send_buffer b ≡ record (add_send_buffer b.pendingp b) { pendingp = 0 }
unfolding sync_send_buffer
sync_pulse b h k = ground arith

sync_none : (b : SendBuffer) → b.pendingp ≡ 0 → (b.wptr ≡ 0) → sync_send_buffer b ≡ b
unfolding sync_send_buffer
sync_none b h k = ground arith

sync_odd : (b : SendBuffer) → b.pendingp ≡ 0 → b.wptr % 2 ≡ 1 → sync_send_buffer b ≡ b
unfolding sync_send_buffer
sync_odd b h k = ground arith

sync-too_long : (b : SendBuffer) → b.too_long ≡ true → bad_send_buffer (sync_send_buffer b) ≡ true
unfolding sync_send_buffer bad_send_buffer add_send_buffer
sync-too_long b h = ground arith

sync_full :
    (b : SendBuffer)
    → 0 < b.pendingp
    → wbuf_size ≤ b.wptr
    → bad_send_buffer (sync_send_buffer b) ≡ true
unfolding sync_send_buffer bad_send_buffer add_send_buffer
sync_full b h k = ground arith

not_bad : (b : SendBuffer) → b.too_long ≡ false → b.pendingp ≡ 0 → bad_send_buffer b ≡ false
unfolding bad_send_buffer
not_bad b h k = ground arith

stored-IsReady : {b : SendBuffer} {ds : List ℕ} → IsStored b ds → b.pendingp ≡ 0 → IsReady b ds
stored-IsReady {b} s p = record {
  fits = λ h. (not_bad b s.kept p, s);
  overflows = λ h. absurd (omega (arith, IsStored-le s));
}

pub sync-IsReady :
    {b : SendBuffer} {ds : List ℕ} → Holds b ds → IsReady (sync_send_buffer b) (trimmed ds)
sync-IsReady {b} (idle s p q e) =
    rw (sync_none b p s.count, e) (unfold trimmed in stored-IsReady s p)
sync-IsReady {b} (in_space xs s odd p q e) =
    rw (sync_odd b p (omega (arith, s.count)), e, trimmed-space xs b.pendings odd)
      (stored-IsReady s p)
sync-IsReady {b} (in_pulse xs s even p q e) =
    rw (e, trimmed-pulse xs b.pendingp even)
      (elim (dec_lt (length xs) wbuf_size) [
        | yes room ↦
            let added = add-IsStored b.pendingp s room in
            rw (sync_pulse b p (omega (arith, added.count, length-append xs (b.pendingp ∷ []))))
              (stored-IsReady (pending-IsStored 0 _ added) refl)
        | no full ↦ record {
          fits = λ h. absurd (omega (arith, length-append xs (b.pendingp ∷ [])));
          overflows = λ h. sync_full b p (omega (arith, s.count));
        }
      ])
sync-IsReady {b} {ds} (lost t l) = record {
  fits = λ h. absurd (omega (arith, length-trimmed ds));
  overflows = λ h. sync-too_long b t;
}

pub clear-Holds : (b : SendBuffer) → length b.array ≡ wbuf_size → Holds (clear_send_buffer b) []
unfolding clear_send_buffer total
clear-Holds b h =
    idle (record { room = h; kept = refl; count = refl; items = refl; time = refl }) refl refl refl

-- Any pulses and spaces of positive length, sent to the cleared buffer of 256 items and synchronised:
-- where the merged signal has at most 256 items, the buffer is accepted, its first `wptr` items are
-- that signal, and `sum` is the time it takes; where it is longer, the buffer is reported as bad.
pub sync-send_events :
    (b : SendBuffer) (es : List Event)
    → length b.array ≡ wbuf_size
    → AllPositive es
    → IsReady (sync_send_buffer (send_events es (clear_send_buffer b))) (trimmed (merge_all [] es))
sync-send_events b es h p = sync-IsReady (send_events-Holds es (clear-Holds b h) p)
